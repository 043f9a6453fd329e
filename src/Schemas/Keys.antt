-- ===== src/Schemas/Keys.antt =====
-- ingestion/schemas.py: the storage keys of the records. A key is its parts joined by colons.
-- f"REC:{kind}:{id}".
use vault_recon_ai.Prelude.{Option, String, [], if◌then◌else◌, is_empty, none, some, ◌++◌, ◌∷◌}
use vault_recon_ai.Schemas.{
  AnyRecord, BankTransactionRecord, FinancialRecord, InvoiceRecord, PaymentRecord,
  ProcessorTransaction, RefundRecord, SettlementBatch, SettlementRecord, adjustment, bank, batch,
  invoice, payment, processor, refund, settlement,
}
use vault_recon_ai.Text.{Text, clean_reference, codes, last_part, show_padded}

abbrev pub primary_key : String → Text → Text
primary_key kind id = codes "REC:" ++ (codes kind ++ (b':' ∷ id))

-- f"IDX:{group}:{by}:{kind}:".
abbrev pub index_prefix : String → Text → String → Text
index_prefix group by kind =
    codes "IDX:" ++ (codes group ++ (b':' ∷ (by ++ (b':' ∷ (codes kind ++ (b':' ∷ []))))))

-- f"IDX:{group}:{by}:{kind}:{id}".
abbrev pub index_key : String → Text → String → Text → Text
index_key group by kind id = index_prefix group by kind ++ id

-- `if self.settlement_batch_id:` is false at None and at "".
unfoldable pub batch_key : Option Text → String → Text → Option Text
batch_key none kind id = none
batch_key (some b) kind id = if is_empty b then none else some (index_key "BATCH" b kind id)

module _ {F : Type 0} where
  -- `to_key` of each class, and the base record.
  unfoldable pub to_key : AnyRecord F → Text
  to_key (payment r) = primary_key "PAYMENT" r.transaction_id
  to_key (invoice r) = primary_key "INVOICE" r.invoice_id
  to_key (processor r) = primary_key "PROCESSOR" r.processor_transaction_id
  to_key (settlement r) = primary_key "SETTLEMENT" r.settlement_id
  to_key (batch r) = primary_key "BATCH" r.batch_id
  to_key (bank r) = primary_key "BANK" r.bank_transaction_id
  to_key (refund r) = primary_key "REFUND" r.refund_id
  to_key (adjustment r) = primary_key "ADJUSTMENT" r.adjustment_id

  unfoldable pub header : AnyRecord F → FinancialRecord F
  header (payment r) = r.base
  header (invoice r) = r.base
  header (processor r) = r.base
  header (settlement r) = r.base
  header (batch r) = r.base
  header (bank r) = r.base
  header (refund r) = r.base
  header (adjustment r) = r.base

  -- f"IDX:MERCHANT:{merchant}:{timestamp:010d}:{record_type}:{to_key().split(':')[-1]}".
  unfoldable pub to_merchant_temporal_key : AnyRecord F → Text
  unfolding header to_key last_part show_padded
  to_merchant_temporal_key r =
      let h = header r in
      codes "IDX:MERCHANT:"
      ++ (h.merchant_id
          ++ (b':'
              ∷ (show_padded 10 h.timestamp
                  ++ (b':' ∷ (h.record_type ++ (b':' ∷ last_part (to_key r)))))))

  -- `to_order_key`, `to_txn_key`, `to_ref_key` of the classes that have them.
  unfoldable pub payment_order_key : PaymentRecord F → Text
  payment_order_key r = index_key "ORDER" r.order_id "PAYMENT" r.transaction_id

  unfoldable pub invoice_order_key : InvoiceRecord F → Text
  invoice_order_key r = index_key "ORDER" r.order_id "INVOICE" r.invoice_id

  unfoldable pub processor_order_key : ProcessorTransaction F → Text
  processor_order_key r = index_key "ORDER" r.order_id "PROCESSOR" r.processor_transaction_id

  unfoldable pub refund_order_key : RefundRecord F → Text
  refund_order_key r = index_key "ORDER" r.order_id "REFUND" r.refund_id

  unfoldable pub settlement_txn_key : SettlementRecord F → Text
  settlement_txn_key r = index_key "TXN" r.transaction_id "SETTLEMENT" r.settlement_id

  unfoldable pub refund_txn_key : RefundRecord F → Text
  refund_txn_key r = index_key "TXN" r.transaction_id "REFUND" r.refund_id

  unfoldable pub batch_ref_key : SettlementBatch F → Text
  unfolding clean_reference
  batch_ref_key r = index_key "REF" (clean_reference r.batch_id) "BATCH" r.batch_id

  unfoldable pub bank_ref_key : BankTransactionRecord F → Text
  unfolding clean_reference
  bank_ref_key r = index_key "REF" (clean_reference r.reference) "BANK" r.bank_transaction_id

  -- `to_batch_key` of the two classes that have it.
  unfoldable pub processor_batch_key : ProcessorTransaction F → Option Text
  unfolding batch_key
  processor_batch_key r = batch_key r.settlement_batch_id "PROCESSOR" r.processor_transaction_id

  unfoldable pub settlement_batch_key : SettlementRecord F → Option Text
  unfolding batch_key
  settlement_batch_key r = batch_key r.settlement_batch_id "SETTLEMENT" r.settlement_id
