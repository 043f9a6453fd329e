-- ===== src/Ingestion/Canonical/Rows.antt =====
-- datasets/run.py: a load of the canonical files against their rows.
use vault_recon_ai.Prelude.{Option, [], none, ◌≡◌}
use vault_recon_ai.Float.{Float}
use vault_recon_ai.Ingestion.{NormalizedDataset, total_of}
use vault_recon_ai.Ingestion.Canonical.{file_rows}
use vault_recon_ai.Ingestion.Canonical.Cells.{CanonicalLibrary}
use vault_recon_ai.Ingestion.Canonical.Counts.{record_rows}
use vault_recon_ai.Ingestion.Canonical.Fields.{
  Aligned, BankRow, BatchRow, InvoiceRow, PaymentRow, PolicyRow, ProcessorRow, RefundRow,
}
use vault_recon_ai.Prelude.Int.{ℤ}
use vault_recon_ai.Text.{Text}

module _ {F : Type 0} ⦃d : Float F⦄ (lib : CanonicalLibrary) (data_dir : Text)
    (limit : Option ℤ) where
  -- The lists of the data set agree with the taken rows of the seven files.
  pub record HoldsRows (ds : NormalizedDataset F) : Type 0 where
    pub payments :
        Aligned (PaymentRow lib) (file_rows lib data_dir limit "payments.csv") ds.payments
    pub processors :
        Aligned
          (ProcessorRow lib)
          (file_rows lib data_dir limit "processor_transactions.csv")
          ds.processor_transactions
    pub banks :
        Aligned
          (BankRow lib)
          (file_rows lib data_dir limit "bank_transactions.csv")
          ds.bank_transactions
    pub invoices :
        Aligned (InvoiceRow lib) (file_rows lib data_dir limit "invoices.csv") ds.invoices
    pub refunds : Aligned (RefundRow lib) (file_rows lib data_dir limit "refunds.csv") ds.refunds
    pub settlements :
        Aligned (BatchRow lib) (file_rows lib data_dir limit "settlements.csv") ds.settlements
    pub policies :
        Aligned (PolicyRow lib) (file_rows lib data_dir none "fee_policies.csv") ds.fee_policies
    pub no_batches : ds.batches ≡ []
    pub no_adjustments : ds.adjustments ≡ []
    pub no_failures : ds.schema_failures ≡ []
    pub total : total_of ds ≡ record_rows lib data_dir limit
