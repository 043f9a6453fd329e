-- ===== src/Ingestion/Canonical/Records.antt =====
-- datasets/run.py: the rows of the seven canonical files as records.
use vault_recon_ai.Prelude.{String, [], none, or_else}
use vault_recon_ai.Ai.Provider.Patterns.{policy_id}
use vault_recon_ai.Fees.{FeePolicy}
use vault_recon_ai.Float.{Float}
use vault_recon_ai.Ingestion.Canonical.Cells.{
  CanonicalLibrary, cell_at, cell_either, cell_or, float_cell_either, float_cell_or,
  parse_timestamp, row_fields,
}
use vault_recon_ai.Ingestion.Csv.Cells.{Row, float_at, get_cell, given_text}
use vault_recon_ai.Prelude.Int.{pos, ℤ}
use vault_recon_ai.Result.{Result, of_option, ok, ◌>>=◌}
use vault_recon_ai.Schemas.{
  AnyRecord, BankTransactionRecord, FinancialRecord, InvoiceRecord, PaymentRecord,
  ProcessorTransaction, RefundRecord,
}
use vault_recon_ai.Text.{codes}
use vault_recon_ai.Vault.Window.{int_of_text}

module _ {F : Type 0} ⦃d : Float F⦄ (lib : CanonicalLibrary) where
  open d use {lit}

  -- The fields of the base record.
  unfoldable pub base_cells : Row → String → String → ℤ → Result (FinancialRecord F)
  unfolding cell_or row_fields
  base_cells r kind source t = do
    merchant_id ← cell_or r "merchant_id" (codes "DEFAULT")
    currency ← cell_or r "currency" (codes "USD")
    ok (record {
      record_type = codes kind;
      merchant_id = merchant_id;
      currency = currency;
      timestamp = t;
      source = codes source;
      metadata = row_fields r;
    })

  unfoldable pub canonical_payment : Row → Result (PaymentRecord F)
  unfolding base_cells cell_at cell_or parse_timestamp get_cell given_text float_at
  canonical_payment r = do
    base ← base_cells r "PAYMENT" "CSV:payments" (
        parse_timestamp lib (
          or_else (given_text (get_cell r (codes "initiated_at")))
            (get_cell r (codes "completed_at"))))
    transaction_id ← cell_at r "payment_id"
    order_id ← cell_at r "order_id"
    customer_id ← cell_or r "customer_id" []
    amount ← float_at r "amount"
    payment_method ← cell_or r "payment_method" (codes "CARD")
    ok (record {
      base = base;
      transaction_id = transaction_id;
      order_id = order_id;
      customer_id = customer_id;
      amount = amount;
      payment_method = payment_method;
      status = codes "SUCCESS";
    })

  unfoldable pub canonical_processor : Row → Result (ProcessorTransaction F)
  unfolding base_cells cell_at cell_or parse_timestamp get_cell float_at float_cell_or
  canonical_processor r = do
    base ←
        base_cells r "PROCESSOR" "CSV:processors"
          (parse_timestamp lib (get_cell r (codes "processed_at")))
    processor_transaction_id ← cell_at r "processor_transaction_id"
    order_id ← cell_at r "order_id"
    processor_name ← cell_or r "processor_id" (codes "STRIPE")
    gross ← float_at r "gross_amount"
    fee ← float_cell_or r "fee_amount" (lit 0 0)
    net ← float_at r "net_amount"
    ok (record {
      base = base;
      processor_transaction_id = processor_transaction_id;
      order_id = order_id;
      processor_name = processor_name;
      event_type = codes "CAPTURE";
      gross_amount = gross;
      fee_amount = fee;
      net_amount = net;
      settlement_batch_id = none;
      status = codes "SETTLED";
    })

  unfoldable pub canonical_bank : Row → Result (BankTransactionRecord F)
  unfolding base_cells cell_at cell_or parse_timestamp get_cell float_at
  canonical_bank r = do
    base ←
        base_cells r "BANK_TRANSACTION" "CSV:bank"
          (parse_timestamp lib (get_cell r (codes "posted_at")))
    bank_transaction_id ← cell_at r "bank_transaction_id"
    reference ← cell_or r "settlement_id" bank_transaction_id
    amount ← float_at r "amount"
    transaction_type ← cell_or r "type" (codes "CREDIT")
    description ← cell_or r "description" []
    ok (record {
      base = base;
      bank_transaction_id = bank_transaction_id;
      reference = reference;
      amount = amount;
      transaction_type = transaction_type;
      description = description;
      status = codes "POSTED";
    })

  unfoldable pub canonical_invoice : Row → Result (InvoiceRecord F)
  unfolding base_cells cell_at cell_or float_at
  canonical_invoice r = do
    base ← base_cells r "INVOICE" "CSV:invoices" (pos 0)
    invoice_id ← cell_at r "invoice_id"
    order_id ← cell_at r "order_id"
    customer_id ← cell_or r "customer_id" []
    amount ← float_at r "amount"
    ok (record {
      base = base;
      invoice_id = invoice_id;
      order_id = order_id;
      customer_id = customer_id;
      amount = amount;
      status = codes "ISSUED";
    })

  unfoldable pub canonical_refund : Row → Result (RefundRecord F)
  unfolding base_cells cell_at cell_or cell_either parse_timestamp get_cell float_at
  canonical_refund r = do
    base ←
        base_cells r "REFUND" "CSV:refunds"
          (parse_timestamp lib (get_cell r (codes "initiated_at")))
    refund_id ← cell_at r "refund_id"
    transaction_id ← cell_either r "payment_id" "transaction_id" []
    order_id ← cell_at r "order_id"
    amount ← float_at r "refund_amount"
    why ← cell_or r "reason" (codes "REFUND")
    ok (record {
      base = base;
      refund_id = refund_id;
      transaction_id = transaction_id;
      order_id = order_id;
      amount = amount;
      reason = why;
      status = codes "PROCESSED";
    })

  unfoldable pub canonical_batch : Row → Result (AnyRecord F)
  unfolding base_cells cell_at cell_or parse_timestamp get_cell float_at float_cell_or int_of_text
  canonical_batch r = do
    base ←
        base_cells r "BATCH" "CSV:settlements"
          (parse_timestamp lib (get_cell r (codes "settlement_date")))
    batch_id ← cell_at r "settlement_id"
    processor_name ← cell_or r "processor_id" (codes "STRIPE")
    gross ← float_at r "gross_amount"
    fees ← float_cell_or r "fee_amount" (lit 0 0)
    net ← float_at r "net_amount"
    count ← cell_or r "transaction_count" (codes "1")
    transaction_count ← of_option (int_of_text count)
    ok (
        AnyRecord.batch (record {
          base = base;
          batch_id = batch_id;
          processor_name = processor_name;
          total_gross = gross;
          total_fees = fees;
          total_net = net;
          transaction_count = transaction_count;
          transaction_ids = [];
          status = codes "CLOSED";
        }))

  unfoldable pub canonical_policy : Row → Result (FeePolicy F)
  unfolding cell_at cell_or cell_either float_cell_either
  canonical_policy r = do
    policy_id ← cell_at r "policy_id"
    processor_name ← cell_either r "processor_id" "processor" (codes "STRIPE")
    payment_method ← cell_or r "payment_method" (codes "CARD")
    currency ← cell_or r "currency" (codes "USD")
    fixed_charge ← float_cell_either r "fixed_fee" "fixed_charge" (lit 0 0)
    percentage_rate ← float_cell_either r "rate_pct" "percentage_rate" (lit 0 0)
    ok (record {
      policy_id = policy_id;
      name = codes "Default Policy";
      percentage_rate = percentage_rate;
      fixed_charge = fixed_charge;
      currency = currency;
      processor = processor_name;
      merchant_id = codes "ANY";
      payment_method = payment_method;
      rounding_mode = codes "HALF_UP";
    })
