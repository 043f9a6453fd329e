-- ===== src/Ingestion/Canonical.antt =====
-- datasets/run.py: `load_default_csv_dataset`, the seven files of the canonical data set. Unlike
-- the adapter, it keeps no failures: a row that does not convert raises.
pub mod Cells
pub mod Records
pub mod Counts
pub mod Fields
pub mod Rows
pub mod Tests
use vault_recon_ai.Prelude.{List, Option, String, [], none, or_default, some, suc, take, zero, ◌∷◌}
use vault_recon_ai.Float.{Float}
use vault_recon_ai.Ingestion.{NormalizedDataset}
use vault_recon_ai.Ingestion.Canonical.Cells.{CanonicalLibrary}
use vault_recon_ai.Ingestion.Canonical.Records.{
  canonical_bank, canonical_batch, canonical_invoice, canonical_payment, canonical_policy,
  canonical_processor, canonical_refund,
}
use vault_recon_ai.Ingestion.Csv.Cells.{Row}
use vault_recon_ai.Prelude.Int.{negsuc, pos, ℤ}
use vault_recon_ai.Result.{Result, ok, ◌>>=◌}
use vault_recon_ai.Text.{Text, codes}

-- `limit and idx >= limit` ends the loop: 0 is no limit.
unfoldable pub limited : {A : Type 0} → Option ℤ → List A → List A
limited none xs = xs
limited (some (pos zero)) xs = xs
limited (some (pos (suc n))) xs = take (suc n) xs
limited (some (negsuc n)) xs = []

-- The rows of a file that are taken; none where there is no such file.
unfoldable pub file_rows : CanonicalLibrary → Text → Option ℤ → String → List Row
unfolding limited
file_rows lib data_dir limit name = limited limit (or_default (lib.read data_dir name) [])

-- Each row converted, in order.
unfoldable pub convert_all : {A : Type 0} → (Row → Result A) → List Row → Result (List A)
convert_all convert [] = ok []
convert_all convert (r ∷ rows) = do x ← convert r; xs ← convert_all convert rows; ok (x ∷ xs)

module _ {F : Type 0} ⦃d : Float F⦄ (lib : CanonicalLibrary) where
  -- `load_default_csv_dataset`; the limit is not for the fee policies.
  unfoldable pub load_canonical : Text → Option ℤ → Result (NormalizedDataset F)
  unfolding file_rows convert_all canonical_payment canonical_processor canonical_bank
      canonical_invoice canonical_refund canonical_batch canonical_policy
  load_canonical data_dir limit = do
    payments ← convert_all (canonical_payment lib) (file_rows lib data_dir limit "payments.csv")
    processors ←
        convert_all (canonical_processor lib)
          (file_rows lib data_dir limit "processor_transactions.csv")
    banks ← convert_all (canonical_bank lib) (file_rows lib data_dir limit "bank_transactions.csv")
    invoices ← convert_all (canonical_invoice lib) (file_rows lib data_dir limit "invoices.csv")
    refunds ← convert_all (canonical_refund lib) (file_rows lib data_dir limit "refunds.csv")
    settlements ← convert_all (canonical_batch lib) (file_rows lib data_dir limit "settlements.csv")
    policies ← convert_all (canonical_policy lib) (file_rows lib data_dir none "fee_policies.csv")
    ok (record {
      source_name = codes "DefaultDataset_CSV";
      payments = payments;
      invoices = invoices;
      processor_transactions = processors;
      settlements = settlements;
      batches = [];
      bank_transactions = banks;
      refunds = refunds;
      adjustments = [];
      fee_policies = policies;
      ground_truth = [];
      schema_failures = [];
    })
