-- ===== src/Pipeline/Default/Complete.antt =====
-- datasets/run.py: what the summary of a run of the canonical data set counts.
use vault_recon_ai.Prelude.{List, Option, length, some, ◌++◌, ◌+◌, ◌≡◌}
use vault_recon_ai.Exceptions.{FinancialException}
use vault_recon_ai.Float.{Float}
use vault_recon_ai.Ingestion.{NormalizedDataset}
use vault_recon_ai.Ingestion.Canonical.{file_rows, load_canonical}
use vault_recon_ai.Ingestion.Canonical.Cells.{CanonicalLibrary}
use vault_recon_ai.Ingestion.Canonical.Counts.{record_rows}
use vault_recon_ai.Matcher.{ReconciliationMatch}
use vault_recon_ai.Matcher.Answers.{Answers}
use vault_recon_ai.Pipeline.{Setting}
use vault_recon_ai.Pipeline.Decided.{IsDecided}
use vault_recon_ai.Pipeline.Default.{DefaultRun}
use vault_recon_ai.Prelude.Int.{ℤ}
use vault_recon_ai.Result.{ok}
use vault_recon_ai.Schemas.{PaymentRecord}
use vault_recon_ai.Text.{Text}
use vault_recon_ai.Vault.{Vault}
use vault_recon_ai.Vault.Codec.{Codec}

module _ {F : Type 0} ⦃d : Float F⦄ where
  -- The match of a payment, or its exception, which is decided under its id.
  abbrev DecidedAs :
      {A : Type 0} → (A → FinancialException F → Type 0) → A → FinancialException F → Type 0
  DecidedAs Q a f =
      (x : FinancialException F) × Q a x × (f.exception_id ≡ x.exception_id) × IsDecided f

  record Split {A : Type 0} (P : A → ReconciliationMatch F → Type 0)
      (Q : A → FinancialException F → Type 0) (inputs : List A) (ms : List (ReconciliationMatch F))
      (fs : List (FinancialException F)) : Type 0 where
    own : List (FinancialException F)
    others : List (FinancialException F)
    parts : fs ≡ own ++ others
    decided : Answers P (DecidedAs Q) inputs ms own

module _ {F : Type 0} ⦃d : Float F⦄ (lib : CanonicalLibrary) (set : Setting F) where
  -- What the summary says of the files and of the store behind the load.
  pub record IsAccounted (data_dir : Text) (limit : Option ℤ) (run : DefaultRun F) : Type 0 where
    pub records : run.total_records ≡ record_rows lib data_dir limit
    pub decided : run.ai_resolved + run.human_review ≡ run.report.exception_count
    pub evaluated :
        run.orders_evaluated + run.batches_evaluated
        ≡ run.report.matched_count + run.report.exception_count
    pub dataset : NormalizedDataset F
    pub loaded : load_canonical lib data_dir limit ≡ ok dataset
    pub payment_rows :
        length dataset.payments ≡ length (file_rows lib data_dir limit "payments.csv")
    pub of_payments : List (FinancialException F)
    pub of_others : List (FinancialException F)
    pub exceptions : run.report.exceptions ≡ of_payments ++ of_others
    pub payments :
        Answers
          (λ (pay : PaymentRecord F) (m : ReconciliationMatch F).
            m.internal_payment_id ≡ some pay.transaction_id)
          (λ (pay : PaymentRecord F) (f : FinancialException F). IsDecided f)
          dataset.payments
          run.report.order_matches
          of_payments
