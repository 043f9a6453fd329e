-- ===== src/Pipeline/Default/Tests.antt =====
-- datasets/run.py on a file with two payments that no processor has.
use text.Mathlib.Text.{◌==◌ as str_eq}
use vault_recon_ai.Prelude.{[], if◌then◌else◌, none, refl, some, ◌∷◌, ◌≡◌}
use vault_recon_ai.Float.Micro.{Micro, micro_float}
use vault_recon_ai.Ingestion.Canonical.Cells.{CanonicalLibrary}
use vault_recon_ai.Matcher.Order.{reconcile_order}
use vault_recon_ai.Pipeline.Default.{DefaultRun, run_default_pipeline}
use vault_recon_ai.Pipeline.Sample.{sample_setting}
use vault_recon_ai.Prelude.Int.{pos}
use vault_recon_ai.Result.{ok}
use vault_recon_ai.Schemas.Keys.{payment_order_key, to_key, to_merchant_temporal_key}
use vault_recon_ai.Text.{codes}

abbrev payments_library : CanonicalLibrary
payments_library = record {
  read = λ data_dir name.
      if str_eq name "payments.csv"
      then some (
          ((codes "payment_id", some (codes "P1"))
            ∷ (codes "order_id", some (codes "O1"))
            ∷ (codes "amount", some (codes "100"))
            ∷ (codes "initiated_at", some (codes "1000"))
            ∷ [])
          ∷ ((codes "payment_id", some (codes "P2"))
              ∷ (codes "order_id", some (codes "O2"))
              ∷ (codes "amount", some (codes "7.25"))
              ∷ (codes "initiated_at", some [])
              ∷ [])
          ∷ [])
      else none;
  from_iso = λ s. none;
  now = pos 5;
}

ran_default :
    (run : DefaultRun Micro) × (run_default_pipeline payments_library sample_setting
        (codes "data")
        none
      ≡ ok run)
unfolding run_default_pipeline micro_float reconcile_order to_key to_merchant_temporal_key
    payment_order_key
ran_default = (_, refl)

both_reviewed : ran_default.0.human_review ≡ 2
unfolding ran_default
both_reviewed = refl
