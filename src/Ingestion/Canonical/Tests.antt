-- ===== src/Ingestion/Canonical/Tests.antt =====
-- datasets/run.py on two files, the payments cut to one row by the limit.
use text.Mathlib.Text.{◌==◌ as str_eq}
use vault_recon_ai.Prelude.{String, [], if◌then◌else◌, map, none, refl, some, ◌∷◌, ◌≡◌}
use vault_recon_ai.Float.Micro.{Micro, micro_float}
use vault_recon_ai.Ingestion.{NormalizedDataset}
use vault_recon_ai.Ingestion.Canonical.{load_canonical}
use vault_recon_ai.Ingestion.Canonical.Cells.{CanonicalLibrary, parse_timestamp}
use vault_recon_ai.Ingestion.Canonical.Counts.{record_rows}
use vault_recon_ai.Ingestion.Csv.Cells.{Row}
use vault_recon_ai.Prelude.Int.{pos}
use vault_recon_ai.Result.{ok}
use vault_recon_ai.Text.{codes}

abbrev payment_row : String → Row
payment_row id =
    (codes "payment_id", some (codes id))
    ∷ (codes "order_id", some (codes "O1"))
    ∷ (codes "amount", some (codes "12.5"))
    ∷ (codes "initiated_at", some (codes "1700000000"))
    ∷ []

abbrev policy_row : Row
policy_row =
    (codes "policy_id", some (codes "POL1"))
    ∷ (codes "rate_pct", some [])
    ∷ (codes "percentage_rate", some (codes "2.9"))
    ∷ []

abbrev canonical_library : CanonicalLibrary
canonical_library = record {
  read = λ data_dir name.
      if str_eq name "payments.csv"
      then some (payment_row "P1" ∷ payment_row "P2" ∷ [])
      else if str_eq name "fee_policies.csv"
      then some (policy_row ∷ [])
      else none;
  from_iso = λ s. none;
  now = pos 5;
}

loaded_canonical :
    (ds : NormalizedDataset Micro) × (load_canonical canonical_library (codes "data") (some (pos 1))
      ≡ ok ds)
unfolding load_canonical micro_float
loaded_canonical = (_, refl)

-- One row is under the limit, and its timestamp is its digits.
one_taken : record_rows canonical_library (codes "data") (some (pos 1)) ≡ 1
unfolding record_rows
one_taken = refl

stamped_at : map (λ p. p.base.timestamp) loaded_canonical.0.payments ≡ pos 1_700_000_000 ∷ []
unfolding loaded_canonical
stamped_at = refl

-- An empty cell gives way to the other name of the column.
rate_taken : map (λ p. p.percentage_rate) loaded_canonical.0.fee_policies ≡ pos 2_900_000 ∷ []
unfolding loaded_canonical
rate_taken = refl

-- A date that does not parse is taken for the present.
undated : parse_timestamp canonical_library (some (codes "yesterday")) ≡ pos 5
unfolding parse_timestamp
undated = refl
