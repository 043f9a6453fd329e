-- ===== src/Pipeline.antt =====
-- stress_test/runner.py: the pipeline that loads a data set, reconciles it and investigates the
-- exceptions; run_reconciliation.py's `main` and investigate.py run the same phases. The readings of
-- the performance counter and numpy's percentile are parameters.
pub mod Decided
pub mod Returns
pub mod Default
pub mod Sample
pub mod Tests
use mathlib.Core.List.{foldl}
use text.Mathlib.Text.{◌==◌ as str_eq}
use vault_recon_ai.Prelude.{
  List, Option, String, [], if◌then◌else◌, is_empty, length, some, suc, take, true, zero, ℕ, ◌∷◌,
}
use vault_recon_ai.Ai.Agent.{AiController, LlmResult, Times, investigate}
use vault_recon_ai.Ai.Agent.Answer.{Parsed}
use vault_recon_ai.Ai.Decision.{AiDecisionResult}
use vault_recon_ai.Ai.Evidence.{EvidenceSet}
use vault_recon_ai.Exceptions.{FinancialException, Moment}
use vault_recon_ai.Fees.{FeePolicyRegistry, register}
use vault_recon_ai.Float.{Float}
use vault_recon_ai.Ingestion.{NormalizedDataset, load_dataset, total_of}
use vault_recon_ai.Matcher.{Engine, ReconciliationMatch}
use vault_recon_ai.Matcher.Run.{MatcherReport, reconcile_all}
use vault_recon_ai.Prelude.Int.{pos}
use vault_recon_ai.Result.{Result, ok, ◌>>=◌}
use vault_recon_ai.Rules.{ReconciliationRules, default_rules}
use vault_recon_ai.Schemas.{PaymentRecord}
use vault_recon_ai.Text.{Text, codes}
use vault_recon_ai.Vault.{Vault}
use vault_recon_ai.Vault.Codec.{Codec}
use vault_recon_ai.Vault.Records.{get_record}

pub record PerformanceTelemetry (F : Type 0) : Type 0 where
  pub ingestion_duration_sec : F
  pub ingestion_throughput_rps : F
  pub deterministic_duration_sec : F
  pub deterministic_throughput_cps : F
  pub ai_duration_sec : F
  pub ai_throughput_eps : F
  pub total_pipeline_duration_sec : F
  pub total_pipeline_throughput_cps : F
  pub p50_lookup_latency_ms : F
  pub p95_lookup_latency_ms : F
  pub p99_lookup_latency_ms : F
  pub p50_ai_latency_ms : F
  pub p95_ai_latency_ms : F
  pub p99_ai_latency_ms : F

pub record StressTestRunResult (F : Type 0) : Type 0 where
  pub total_input_records : ℕ
  pub total_evaluated_cases : ℕ
  pub matched_count : ℕ
  pub exception_count : ℕ
  pub ai_resolved_count : ℕ
  pub human_review_count : ℕ
  pub matches : List (ReconciliationMatch F)
  pub exceptions : List (FinancialException F)
  pub ai_results : List (AiDecisionResult F)
  pub telemetry : PerformanceTelemetry F

-- The readings of the counter, each as the pair before and behind what is timed; `inner` are those
-- that the loader and the engine make.
pub record Readings (F : Type 0) : Type 0 where
  pub pipe : F × F
  pub ingest : F × F
  pub ingest_inner : F × F
  pub recon : F × F
  pub recon_inner : F × F
  pub ai : F × F
  pub lookup : ℕ → F × F
  pub investigation : ℕ → F × F

-- What the pipeline takes from elsewhere: the opened store, the libraries, the provider.
pub record Setting (F : Type 0) : Type 0 where
  pub db : Vault
  pub codec : Codec F
  pub registry : FeePolicyRegistry F
  pub ratio : Text → Text → F
  pub generate : EvidenceSet F → FinancialException F → LlmResult
  pub loads : Text → Option (Parsed F)
  pub percentile : List F → ℕ → F
  pub moments : ℕ → Moment F
  pub times : ℕ → Times F
  pub readings : Readings F

-- sum(1 for e in exceptions if e.status == status)
unfoldable pub count_status : {F : Type 0} → String → List (FinancialException F) → ℕ
count_status status [] = 0
count_status status (e ∷ es) =
    let rest = count_status status es in if str_eq e.status status then suc rest else rest

module _ {F : Type 0} ⦃d : Float F⦄ where
  open d use {lit, of_int, sub, div, mul, lt}

  -- The loop over `report.exceptions`: the results, and the exceptions as it leaves them.
  unfoldable pub investigate_all :
      AiController F
      → (ℕ → Times F)
      → ℕ
      → List (FinancialException F)
      → Result (List (AiDecisionResult F) × List (FinancialException F))
  unfolding investigate
  investigate_all ctl times n [] = ok ([], [])
  investigate_all ctl times n (e ∷ es) = do
    res ← (investigate ctl (times n) e).0
    rest ← investigate_all ctl times (suc n) es
    ok (res ∷ rest.0, (investigate ctl (times n) e).1 ∷ rest.1)

  -- The sample lookups, whose records are dropped.
  unfoldable pub lookup_all : Codec F → Vault → List (PaymentRecord F) → Result (Unit {0})
  unfolding get_record
  lookup_all codec db [] = ok tt
  lookup_all codec db (p ∷ ps) = do
    found ← get_record codec db (codes "PROCESSOR") p.transaction_id
    lookup_all codec db ps

  -- max(t_end - t_start, 1e-6)
  span_of : F × F → F
  span_of (t_start, t_end) = let x = sub t_end t_start in if lt x (lit 1 6) then lit 1 6 else x

  -- (t1 - t0) * 1000.0 of the first k readings.
  latencies : (ℕ → F × F) → ℕ → ℕ → List F
  latencies reading n zero = []
  latencies reading n (suc k) =
      mul (sub (reading n).1 (reading n).0) (lit 1000 0) ∷ latencies reading (suc n) k

  -- float(np.percentile(xs, q)) if xs else 0.0
  percentile_or_zero : (List F → ℕ → F) → List F → ℕ → F
  percentile_or_zero percentile xs q = if is_empty xs then lit 0 0 else percentile xs q

  -- "Telemetry calculations"
  unfoldable pub telemetry_of :
      Setting F → NormalizedDataset F → MatcherReport F → PerformanceTelemetry F
  unfolding span_of latencies percentile_or_zero total_of
  telemetry_of set ds report =
      let r = set.readings in
      let lookups = latencies r.lookup 0 (length (take 500 ds.payments)) in
      let ai = latencies r.investigation 0 (length report.exceptions) in
      let per = λ (n : ℕ) (t : F × F). div (of_int (pos n)) (span_of t) in
      record {
        ingestion_duration_sec = span_of r.ingest;
        ingestion_throughput_rps = per (total_of ds) r.ingest;
        deterministic_duration_sec = span_of r.recon;
        deterministic_throughput_cps = per report.total_evaluated r.recon;
        ai_duration_sec = span_of r.ai;
        ai_throughput_eps =
            if is_empty report.exceptions then lit 0 0 else per (length report.exceptions) r.ai;
        total_pipeline_duration_sec = span_of r.pipe;
        total_pipeline_throughput_cps = per report.total_evaluated r.pipe;
        p50_lookup_latency_ms = percentile_or_zero set.percentile lookups 50;
        p95_lookup_latency_ms = percentile_or_zero set.percentile lookups 95;
        p99_lookup_latency_ms = percentile_or_zero set.percentile lookups 99;
        p50_ai_latency_ms = percentile_or_zero set.percentile ai 50;
        p95_ai_latency_ms = percentile_or_zero set.percentile ai 95;
        p99_ai_latency_ms = percentile_or_zero set.percentile ai 99;
      }

  -- The rules of the run, over the registry with the data set's policies.
  unfoldable pub run_rules : Setting F → NormalizedDataset F → ReconciliationRules F
  unfolding default_rules register
  run_rules set ds = record (default_rules (foldl register set.registry ds.fee_policies)) {
    amount_tolerance = lit 5 2;
    timing_window_days = pos 7;
    tolerance_window_days = pos 10;
    fuzzy_threshold = lit 35 2;
    enable_fee_validation = true;
    topology = "GATEWAY_SETTLEMENT";
  }

  -- The store behind the ingestion.
  unfoldable pub loaded_store : Setting F → NormalizedDataset F → Vault
  unfolding load_dataset
  loaded_store set ds =
      (load_dataset set.codec set.readings.ingest_inner.0 set.readings.ingest_inner.1 ds set.db).1

  unfoldable pub run_engine : Setting F → NormalizedDataset F → Engine F
  unfolding loaded_store run_rules
  run_engine set ds = record {
    db = loaded_store set ds;
    codec = set.codec;
    rules = run_rules set ds;
    ratio = set.ratio;
  }

  unfoldable pub run_controller : Setting F → NormalizedDataset F → AiController F
  unfolding loaded_store run_rules
  run_controller set ds = record {
    toolkit = record {
      db = loaded_store set ds;
      codec = set.codec;
      fee_registry = (run_rules set ds).fee_registry;
    };
    generate = set.generate;
    loads = set.loads;
    confidence_threshold = lit 85 2;
  }

  -- Of the report and what the investigations give: the counts are those of the statuses.
  unfoldable pub run_result :
      Setting F
      → NormalizedDataset F
      → MatcherReport F
      → List (AiDecisionResult F) × List (FinancialException F)
      → StressTestRunResult F
  unfolding telemetry_of total_of count_status
  run_result set ds report (results, exceptions) = record {
    total_input_records = total_of ds;
    total_evaluated_cases = report.total_evaluated;
    matched_count = report.matched_count;
    exception_count = report.exception_count;
    ai_resolved_count = count_status "AI_RESOLVED" exceptions;
    human_review_count = count_status "HUMAN_REVIEW" exceptions;
    matches = report.matches;
    exceptions = exceptions;
    ai_results = results;
    telemetry = telemetry_of set ds report;
  }

  -- `StressTestRunner.run`
  unfoldable pub run_pipeline : Setting F → NormalizedDataset F → Result (StressTestRunResult F)
  unfolding run_engine reconcile_all lookup_all investigate_all run_controller run_result
  run_pipeline set ds = do
    report ←
        reconcile_all (run_engine set ds) set.readings.recon_inner.0 set.readings.recon_inner.1
          set.moments (some ds.payments)
    looked ← lookup_all set.codec (loaded_store set ds) (take 500 ds.payments)
    done ← investigate_all (run_controller set ds) set.times 0 report.exceptions
    ok (run_result set ds report done)
