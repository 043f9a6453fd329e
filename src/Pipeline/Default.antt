-- ===== src/Pipeline/Default.antt =====
-- datasets/run.py: `run_default_pipeline`, the phases over the canonical data set, with the numbers
-- of its summary. Formats and the removal of the database's directory are left out.
pub mod Complete
pub mod Tests
use mathlib.Core.List.{foldl}
use vault_recon_ai.Prelude.{List, Option, [], if◌then◌else◌, length, some, suc, true, ℕ, ◌+◌, ◌∷◌}
use vault_recon_ai.Ai.Agent.{AiController}
use vault_recon_ai.Exceptions.{FinancialException}
use vault_recon_ai.Fees.{register}
use vault_recon_ai.Float.{Float}
use vault_recon_ai.Ingestion.{NormalizedDataset, load_dataset}
use vault_recon_ai.Ingestion.Canonical.{load_canonical}
use vault_recon_ai.Ingestion.Canonical.Cells.{CanonicalLibrary}
use vault_recon_ai.Matcher.{Engine}
use vault_recon_ai.Matcher.Run.{MatcherReport, reconcile_all}
use vault_recon_ai.Pipeline.{Setting, count_status, investigate_all, loaded_store}
use vault_recon_ai.Prelude.Int.{pos, ℤ}
use vault_recon_ai.Result.{Result, ok, ◌>>=◌}
use vault_recon_ai.Rules.{ReconciliationRules, default_rules}
use vault_recon_ai.Text.{Text, codes, text_eq}

-- The report that is returned, its exceptions as the controller leaves them, and the summary.
pub record DefaultRun (F : Type 0) : Type 0 where
  pub report : MatcherReport F
  pub total_records : ℕ
  pub orders_evaluated : ℕ
  pub batches_evaluated : ℕ
  pub ai_resolved : ℕ
  pub human_review : ℕ

-- len([e for e in exceptions if e.primary_record_type == 'BATCH']), and the others
unfoldable pub batch_exceptions : {F : Type 0} → List (FinancialException F) → ℕ
unfolding text_eq
batch_exceptions [] = 0
batch_exceptions (e ∷ es) =
    let rest = batch_exceptions es in
    if text_eq e.primary_record_type (codes "BATCH") then suc rest else rest

unfoldable pub other_exceptions : {F : Type 0} → List (FinancialException F) → ℕ
unfolding text_eq
other_exceptions [] = 0
other_exceptions (e ∷ es) =
    let rest = other_exceptions es in
    if text_eq e.primary_record_type (codes "BATCH") then rest else suc rest

module _ {F : Type 0} ⦃d : Float F⦄ where
  open d use {lit}

  unfoldable pub canonical_rules : Setting F → NormalizedDataset F → ReconciliationRules F
  unfolding default_rules register
  canonical_rules set ds = record (default_rules (foldl register set.registry ds.fee_policies)) {
    amount_tolerance = lit 5 2;
    timing_window_days = pos 7;
    tolerance_window_days = pos 10;
    fuzzy_threshold = lit 35 2;
    enable_fee_validation = true;
  }

  unfoldable pub canonical_engine : Setting F → NormalizedDataset F → Engine F
  unfolding loaded_store canonical_rules
  canonical_engine set ds = record {
    db = loaded_store set ds;
    codec = set.codec;
    rules = canonical_rules set ds;
    ratio = set.ratio;
  }

  unfoldable pub canonical_controller : Setting F → NormalizedDataset F → AiController F
  unfolding loaded_store canonical_rules
  canonical_controller set ds = record {
    toolkit = record {
      db = loaded_store set ds;
      codec = set.codec;
      fee_registry = (canonical_rules set ds).fee_registry;
    };
    generate = set.generate;
    loads = set.loads;
    confidence_threshold = lit 85 2;
  }

  -- "Compute outcomes", and the rows of the summary.
  unfoldable pub summary_of : ℕ → MatcherReport F → List (FinancialException F) → DefaultRun F
  unfolding count_status batch_exceptions other_exceptions
  summary_of total report exceptions = record {
    report = record report { exceptions = exceptions };
    total_records = total;
    orders_evaluated = length report.order_matches + other_exceptions exceptions;
    batches_evaluated = length report.batch_matches + batch_exceptions exceptions;
    ai_resolved = count_status "AI_RESOLVED" exceptions;
    human_review = count_status "HUMAN_REVIEW" exceptions;
  }

  -- `run_default_pipeline`
  unfoldable pub run_default_pipeline :
      CanonicalLibrary → Setting F → Text → Option ℤ → Result (DefaultRun F)
  unfolding load_canonical load_dataset canonical_engine reconcile_all investigate_all
      canonical_controller summary_of
  run_default_pipeline lib set data_dir limit = do
    ds ← load_canonical lib data_dir limit
    report ←
        reconcile_all (canonical_engine set ds) set.readings.recon_inner.0
          set.readings.recon_inner.1 set.moments (some ds.payments)
    done ← investigate_all (canonical_controller set ds) set.times 0 report.exceptions
    ok (
        summary_of
          (load_dataset set.codec set.readings.ingest_inner.0 set.readings.ingest_inner.1 ds
            set.db).0.total_records
          report done.1)
