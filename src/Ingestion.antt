-- ===== src/Ingestion.antt =====
-- ingestion/: `NormalizedDataset` of adapters/base.py, and the loader of loader.py.
pub mod Links
pub mod Csv
pub mod Canonical
pub mod Tests
use vault_recon_ai.Prelude.{List, [], if◌then◌else◌, length, map, ℕ, ◌++◌, ◌+◌, ◌∷◌}
use vault_recon_ai.Fees.{FeePolicy}
use vault_recon_ai.Float.{Float}
use vault_recon_ai.Prelude.Int.{pos}
use vault_recon_ai.Schemas.{
  AdjustmentRecord, AnyRecord, BankTransactionRecord, InvoiceRecord, PaymentRecord,
  ProcessorTransaction, RefundRecord, SettlementBatch,
}
use vault_recon_ai.Text.{Text}
use vault_recon_ai.Value.{Fields}
use vault_recon_ai.Vault.{Vault}
use vault_recon_ai.Vault.Codec.{Codec}
use vault_recon_ai.Vault.Records.{put_record}

pub record NormalizedDataset (F : Type 0) : Type 0 where
  pub source_name : Text
  pub payments : List (PaymentRecord F)
  pub invoices : List (InvoiceRecord F)
  pub processor_transactions : List (ProcessorTransaction F)
  -- the records of settlements.csv are batches (datasets/run.py)
  pub settlements : List (AnyRecord F)
  pub batches : List (SettlementBatch F)
  pub bank_transactions : List (BankTransactionRecord F)
  pub refunds : List (RefundRecord F)
  pub adjustments : List (AdjustmentRecord F)
  pub fee_policies : List (FeePolicy F)
  pub ground_truth : List (Fields F)
  pub schema_failures : List (Fields F)

pub record IngestionReport (F : Type 0) : Type 0 where
  pub total_records : ℕ
  pub payments_count : ℕ
  pub invoices_count : ℕ
  pub processor_txns_count : ℕ
  pub settlements_count : ℕ
  pub batches_count : ℕ
  pub bank_txns_count : ℕ
  pub refunds_count : ℕ
  pub adjustments_count : ℕ
  pub duration_sec : F
  pub throughput_records_per_sec : F

module _ {F : Type 0} where
  -- `NormalizedDataset.total_records`
  unfoldable pub total_of : NormalizedDataset F → ℕ
  total_of ds =
      length ds.payments
      + length ds.invoices
      + length ds.processor_transactions
      + length ds.settlements
      + length ds.batches
      + length ds.bank_transactions
      + length ds.refunds
      + length ds.adjustments

  -- The records in the order in which the loader stores them.
  unfoldable pub load_order : NormalizedDataset F → List (AnyRecord F)
  load_order ds =
      map AnyRecord.invoice ds.invoices
      ++ (map AnyRecord.payment ds.payments
          ++ (map AnyRecord.processor ds.processor_transactions
              ++ (ds.settlements
                  ++ (map AnyRecord.batch ds.batches
                      ++ (map AnyRecord.bank ds.bank_transactions
                          ++ (map AnyRecord.refund ds.refunds
                              ++ map AnyRecord.adjustment ds.adjustments))))))

  -- The loops over `self.db.put_record(record)`, whose answer is dropped.
  unfoldable pub store_all : Codec F → List (AnyRecord F) → Vault → Vault
  unfolding put_record
  store_all codec [] db = db
  store_all codec (r ∷ rs) db = store_all codec rs (put_record codec r db).1

module _ {F : Type 0} ⦃d : Float F⦄ where
  open d use {lit, sub, div, lt, round, of_int}

  -- `load_dataset`, with the two readings of the performance counter.
  unfoldable pub load_dataset :
      Codec F → F → F → NormalizedDataset F → Vault → IngestionReport F × Vault
  unfolding store_all load_order
  load_dataset codec t_start t_end ds db =
      let x = sub t_end t_start in
      let dur = if lt x (lit 1 6) then lit 1 6 else x in
      let tot =
        length ds.invoices
        + length ds.payments
        + length ds.processor_transactions
        + length ds.settlements
        + length ds.batches
        + length ds.bank_transactions
        + length ds.refunds
        + length ds.adjustments in
      (
        record {
          total_records = tot;
          payments_count = length ds.payments;
          invoices_count = length ds.invoices;
          processor_txns_count = length ds.processor_transactions;
          settlements_count = length ds.settlements;
          batches_count = length ds.batches;
          bank_txns_count = length ds.bank_transactions;
          refunds_count = length ds.refunds;
          adjustments_count = length ds.adjustments;
          duration_sec = dur;
          throughput_records_per_sec = round (div (of_int (pos tot)) dur) 2;
        },
        store_all codec (load_order ds) db,
      )
