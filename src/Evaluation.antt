-- ===== src/Evaluation.antt =====
-- evaluation/metrics.py: a run compared with the labels of its data set. numpy's percentile is a
-- parameter.
pub mod Counts
pub mod Tests
use text.Mathlib.Text.{◌==◌ as str_eq}
use vault_recon_ai.Prelude.{
  Bool, List, Option, String, [], any, find?, if◌then◌else◌, is_empty, length, map, none, some, ℕ,
  ◌++◌, ◌+◌, ◌==◌, ◌||◌, ◌∷◌,
}
use vault_recon_ai.Exceptions.{FinancialException}
use vault_recon_ai.Float.{Float}
use vault_recon_ai.Matcher.{ReconciliationMatch}
use vault_recon_ai.Matcher.Distinct.{matched_ids}
use vault_recon_ai.Matcher.Run.{MatcherReport}
use vault_recon_ai.Pipeline.{count_status}
use vault_recon_ai.Prelude.Int.{pos}
use vault_recon_ai.Text.{Text, contains, text_eq}

-- `GroundTruthCase` of ingestion/generators.py.
pub record GroundTruthCase : Type 0 where
  pub case_id : Text
  pub scenario_type : Text
  pub expected_decision : String
  pub expected_reason : Text
  pub primary_record_ids : List Text
  pub supporting_evidence_ids : List Text

pub record ReconciliationMetrics (F : Type 0) : Type 0 where
  pub total_records : ℕ
  pub deterministic_matched : ℕ
  pub exceptions_generated : ℕ
  pub ai_investigated : ℕ
  pub ai_resolved : ℕ
  pub human_review : ℕ
  pub deterministic_match_rate : F
  pub total_reconciliation_rate : F
  pub ground_truth_accuracy : F
  pub precision : F
  pub recall : F
  pub f1_score : F
  pub false_match_count : ℕ
  pub false_resolution_count : ℕ
  pub ingestion_throughput : F
  pub recon_throughput : F
  pub p50_latency_ms : F
  pub p95_latency_ms : F
  pub p99_latency_ms : F

-- The counters of the loop over the labels.
pub record Counters : Type 0 where
  pub tp : ℕ
  pub fp : ℕ
  pub fn : ℕ
  pub tn : ℕ
  pub false_matches : ℕ
  pub false_resolutions : ℕ

abbrev pub no_counts : Counters
no_counts = record { tp = 0; fp = 0; fn = 0; tn = 0; false_matches = 0; false_resolutions = 0 }

-- {x for m in matches if x}, for an optional text x of each match.
unfoldable pub given_ids : {A : Type 0} → (A → Option Text) → List A → List Text
given_ids field [] = []
given_ids field (m ∷ ms) = elim (field m) [
  | none ↦ given_ids field ms
  | some x ↦ if is_empty x then given_ids field ms else x ∷ given_ids field ms
]

-- expected in ("MATCHED", "AI_RESOLVED")
unfoldable pub is_resolvable : String → Bool
is_resolvable s = str_eq s "MATCHED" || str_eq s "AI_RESOLVED"

module _ {F : Type 0} where
  -- `matched_payment_ids`: a set, as the list of what is put into it.
  unfoldable pub matched_payment_ids : List (ReconciliationMatch F) → List Text
  unfolding given_ids
  matched_payment_ids ms =
      given_ids (λ m. m.internal_payment_id) ms
      ++ (map (λ m. m.work_key) ms
          ++ (given_ids (λ m. m.processor_transaction_id) ms
              ++ given_ids (λ m. m.bank_entry_id) ms))

  -- any(pid == e.primary_record_id or pid in e.related_record_ids for pid in pids)
  unfoldable pub concerns : List Text → FinancialException F → Bool
  unfolding contains text_eq
  concerns pids e =
      any (λ pid. text_eq pid e.primary_record_id || contains e.related_record_ids pid) pids

  -- The outcome that the run gave to a case.
  unfoldable pub actual_of : List Text → List (FinancialException F) → GroundTruthCase → String
  unfolding contains concerns
  actual_of matched_ids exceptions gt =
      if any (contains matched_ids) gt.primary_record_ids
      then "MATCHED"
      else elim (find? (concerns gt.primary_record_ids) exceptions) [
        | some e ↦ e.status
        | none ↦ "UNKNOWN"
      ]

-- One case's expected and actual outcome.
unfoldable pub count_case : String → String → Counters → Counters
unfolding is_resolvable
count_case expected actual c =
    if is_resolvable expected
    then (if is_resolvable actual then record c { tp = c.tp + 1 } else record c { fn = c.fn + 1 })
    else if str_eq expected "HUMAN_REVIEW"
    then (if str_eq actual "HUMAN_REVIEW"
        then record c { tn = c.tn + 1 }
        else if is_resolvable actual
        then (if str_eq actual "MATCHED"
            then record c { fp = c.fp + 1; false_matches = c.false_matches + 1 }
            else record c { fp = c.fp + 1; false_resolutions = c.false_resolutions + 1 })
        else c)
    else c

module _ {F : Type 0} where
  unfoldable pub count_cases :
      List Text → List (FinancialException F) → List GroundTruthCase → Counters → Counters
  unfolding count_case actual_of
  count_cases matched_ids exceptions [] c = c
  count_cases matched_ids exceptions (gt ∷ gts) c =
      count_cases matched_ids exceptions gts
        (count_case gt.expected_decision (actual_of matched_ids exceptions gt) c)

module _ {F : Type 0} ⦃d : Float F⦄ where
  open d use {lit, of_int, add, mul, div, round, lt}

  -- a / b of two counts, and what is given where b is 0.
  unfoldable pub ratio_or : F → ℕ → ℕ → F
  ratio_or other a b = if b == 0 then other else div (of_int (pos a)) (of_int (pos b))

  -- 2 p r / (p + r), and 1.0 where the sum is not positive.
  f1_of : F → F → F
  f1_of p r =
      if lt (of_int (pos 0)) (add p r)
      then div (mul (mul (of_int (pos 2)) p) r) (add p r)
      else lit 10 1

  latency : (List F → ℕ → F) → List F → ℕ → F
  latency percentile xs q = round (if is_empty xs then lit 0 0 else percentile xs q) 4

  -- The numbers, from the counters.
  unfoldable pub metrics_of :
      (List F → ℕ → F)
      → Counters
      → List GroundTruthCase
      → MatcherReport F
      → List (FinancialException F)
      → F
      → List F
      → ReconciliationMetrics F
  unfolding count_status ratio_or f1_of latency
  metrics_of percentile c ground_truth report exceptions ingestion_throughput latencies_ms =
      let resolved = count_status "AI_RESOLVED" exceptions in
      let precision = ratio_or (lit 10 1) c.tp (c.tp + c.fp) in
      let recall = ratio_or (lit 10 1) c.tp (c.tp + c.fn) in
      let accuracy = ratio_or (lit 10 1) (c.tp + c.tn) (length ground_truth) in
      let rate = λ (n : ℕ).
        if report.total_evaluated == 0
        then lit 0 0
        else round (div (of_int (pos n)) (of_int (pos report.total_evaluated))) 4 in
      record {
        total_records = report.total_evaluated;
        deterministic_matched = report.matched_count;
        exceptions_generated = report.exception_count;
        ai_investigated = length exceptions;
        ai_resolved = resolved;
        human_review = count_status "HUMAN_REVIEW" exceptions;
        deterministic_match_rate = rate report.matched_count;
        total_reconciliation_rate = rate (report.matched_count + resolved);
        ground_truth_accuracy = round accuracy 4;
        precision = round precision 4;
        recall = round recall 4;
        f1_score = round (f1_of precision recall) 4;
        false_match_count = c.false_matches;
        false_resolution_count = c.false_resolutions;
        ingestion_throughput = ingestion_throughput;
        recon_throughput = report.throughput_records_per_sec;
        p50_latency_ms = latency percentile latencies_ms 50;
        p95_latency_ms = latency percentile latencies_ms 95;
        p99_latency_ms = latency percentile latencies_ms 99;
      }

  -- `MetricsEvaluator.evaluate`
  unfoldable pub evaluate :
      (List F → ℕ → F)
      → List GroundTruthCase
      → MatcherReport F
      → List (FinancialException F)
      → F
      → List F
      → ReconciliationMetrics F
  unfolding metrics_of count_cases matched_payment_ids
  evaluate percentile ground_truth report exceptions ingestion_throughput latencies_ms =
      metrics_of percentile
        (count_cases (matched_payment_ids report.matches) exceptions ground_truth no_counts)
        ground_truth report exceptions ingestion_throughput latencies_ms
