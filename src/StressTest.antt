-- ===== src/StressTest.antt =====
-- stress_test/: the labels in Scenarios.antt, and `StressTestEvaluator.evaluate` of
-- stress_test/evaluator.py. The report in Markdown is not modelled.
pub mod Scenarios
pub mod Outcomes
pub mod Confusion
pub mod Tests
use text.Mathlib.Text.{◌==◌ as str_eq}
use vault_recon_ai.Prelude.{
  Bool, List, Option, String, [], false, if◌then◌else◌, length, map, none, some, true, ℕ, ◌+◌, ◌==◌,
  ◌∷◌,
}
use vault_recon_ai.Dict.{Dict}
use vault_recon_ai.Float.{Float}
use vault_recon_ai.Pipeline.{PerformanceTelemetry, StressTestRunResult}
use vault_recon_ai.Prelude.Int.{pos}
use vault_recon_ai.StressTest.Outcomes.{
  OutcomeEntry, actual_outcomes, is_decision, is_resolved_by_system, outcome_of,
}
use vault_recon_ai.StressTest.Scenarios.{
  GroundTruthDataset, GroundTruthRecord, all_scenarios, scenario_value,
}
use vault_recon_ai.Text.{Text, text_eq}

-- The counters of one scenario.
pub record ScenarioStats : Type 0 where
  pub total : ℕ
  pub correct : ℕ
  pub tp : ℕ
  pub tn : ℕ
  pub fp : ℕ
  pub fn : ℕ

abbrev pub zero_stats : ScenarioStats
zero_stats = record { total = 0; correct = 0; tp = 0; tn = 0; fp = 0; fn = 0 }

-- The counters of the loop.
pub record Tally : Type 0 where
  pub tp : ℕ
  pub tn : ℕ
  pub fp : ℕ
  pub fn : ℕ
  pub unsafe_ai : ℕ
  pub ai_correct : ℕ
  pub total_ai_evals : ℕ
  pub stats : Dict ScenarioStats

unfoldable pub fresh_tally : Tally
unfolding scenario_value
fresh_tally = record {
  tp = 0;
  tn = 0;
  fp = 0;
  fn = 0;
  unsafe_ai = 0;
  ai_correct = 0;
  total_ai_evals = 0;
  stats = map (λ st. (scenario_value st, zero_stats)) all_scenarios;
}

-- One case in its scenario's counters.
unfoldable pub count_stats : Bool → Bool → ScenarioStats → ScenarioStats
count_stats true true s = record s { total = s.total + 1; tp = s.tp + 1; correct = s.correct + 1 }
count_stats true false s = record s { total = s.total + 1; fn = s.fn + 1 }
count_stats false true s = record s { total = s.total + 1; fp = s.fp + 1 }
count_stats false false s = record s { total = s.total + 1; tn = s.tn + 1; correct = s.correct + 1 }

-- The entry of a scenario is changed in place; every scenario has one.
unfoldable pub update_stats :
    Text → (ScenarioStats → ScenarioStats) → Dict ScenarioStats → Dict ScenarioStats
unfolding text_eq
update_stats k f [] = []
update_stats k f ((j, s) ∷ m) =
    let rest = update_stats k f m in if text_eq j k then (j, f s) ∷ m else (j, s) ∷ rest

-- One case in the confusion matrix.
unfoldable pub count_outcome : Bool → Bool → Bool → Tally → Tally
count_outcome true true ai t = record t { tp = t.tp + 1 }
count_outcome true false ai t = record t { fn = t.fn + 1 }
count_outcome false true ai t = record t {
  fp = t.fp + 1;
  unsafe_ai = if ai then t.unsafe_ai + 1 else t.unsafe_ai;
}
count_outcome false false ai t = record t { tn = t.tn + 1 }

-- "AI decision evaluation"
unfoldable pub count_ai : Option String → Option String → Tally → Tally
unfolding is_decision
count_ai none actual t = t
count_ai (some expected) actual t = record t {
  total_ai_evals = t.total_ai_evals + 1;
  ai_correct = if is_decision actual expected then t.ai_correct + 1 else t.ai_correct;
}

module _ {F : Type 0} where
  unfoldable pub tally_case : Dict OutcomeEntry → GroundTruthRecord F → Tally → Tally
  unfolding outcome_of is_resolved_by_system is_decision count_stats update_stats count_outcome
      count_ai scenario_value
  tally_case outcomes gt t =
      let actual = outcome_of outcomes gt in
      let resolved = is_resolved_by_system actual in
      let counted =
        count_outcome gt.is_true_positive resolved (is_decision actual.ai_decision "AI_RESOLVED")
          t in
      count_ai gt.expected_ai_decision actual.ai_decision (record counted {
        stats =
            update_stats (scenario_value gt.scenario_type)
              (count_stats gt.is_true_positive resolved) t.stats;
      })

  unfoldable pub tally_cases : Dict OutcomeEntry → Dict (GroundTruthRecord F) → Tally → Tally
  unfolding tally_case
  tally_cases outcomes [] t = t
  tally_cases outcomes ((k, gt) ∷ cases) t = tally_cases outcomes cases (tally_case outcomes gt t)

pub record ScenarioMetric (F : Type 0) : Type 0 where
  pub scenario_type : Text
  pub total_cases : ℕ
  pub correct_cases : ℕ
  pub accuracy_pct : F
  pub true_positives : ℕ
  pub true_negatives : ℕ
  pub false_positives : ℕ
  pub false_negatives : ℕ

pub record EvaluationReport (F : Type 0) : Type 0 where
  pub total_cases : ℕ
  pub true_positives : ℕ
  pub true_negatives : ℕ
  pub false_positives : ℕ
  pub false_negatives : ℕ
  pub accuracy_pct : F
  pub precision_pct : F
  pub recall_pct : F
  pub f1_score_pct : F
  pub false_match_rate_pct : F
  pub total_exceptions_investigated : ℕ
  pub ai_resolved_count : ℕ
  pub human_review_count : ℕ
  pub unsafe_ai_resolutions : ℕ
  pub ai_decision_accuracy_pct : F
  pub scenario_breakdown : List (ScenarioMetric F)
  pub telemetry : PerformanceTelemetry F

module _ {F : Type 0} ⦃d : Float F⦄ where
  open d use {lit, of_int, add, mul, div, lt}

  -- (a / b) * 100.0, and what is given where b is 0.
  unfoldable pub percent_or : F → ℕ → ℕ → F
  percent_or other a b =
      if b == 0 then other else mul (div (of_int (pos a)) (of_int (pos b))) (lit 1000 1)

  -- The scenarios that have cases.
  unfoldable pub breakdown : Dict ScenarioStats → List (ScenarioMetric F)
  unfolding percent_or
  breakdown [] = []
  breakdown ((st, v) ∷ m) =
      let rest = breakdown m in
      if v.total == 0
      then rest
      else record {
        scenario_type = st;
        total_cases = v.total;
        correct_cases = v.correct;
        accuracy_pct = percent_or (lit 0 0) v.correct v.total;
        true_positives = v.tp;
        true_negatives = v.tn;
        false_positives = v.fp;
        false_negatives = v.fn;
      }
        ∷ rest

  f1_pct : F → F → F
  f1_pct p r =
      if lt (of_int (pos 0)) (add p r)
      then div (mul (mul (of_int (pos 2)) p) r) (add p r)
      else lit 0 0

  -- The report, from the counters.
  unfoldable pub report_of_tally : StressTestRunResult F → ℕ → Tally → EvaluationReport F
  unfolding percent_or breakdown f1_pct
  report_of_tally res total t =
      let precision = percent_or (lit 0 0) t.tp (t.tp + t.fp) in
      let recall = percent_or (lit 0 0) t.tp (t.tp + t.fn) in
      record {
        total_cases = total;
        true_positives = t.tp;
        true_negatives = t.tn;
        false_positives = t.fp;
        false_negatives = t.fn;
        accuracy_pct = percent_or (lit 0 0) (t.tp + t.tn) total;
        precision_pct = precision;
        recall_pct = recall;
        f1_score_pct = f1_pct precision recall;
        false_match_rate_pct = percent_or (lit 0 0) t.fp (t.tp + t.fp);
        total_exceptions_investigated = res.exception_count;
        ai_resolved_count = res.ai_resolved_count;
        human_review_count = res.human_review_count;
        unsafe_ai_resolutions = t.unsafe_ai;
        ai_decision_accuracy_pct = percent_or (lit 1000 1) t.ai_correct t.total_ai_evals;
        scenario_breakdown = breakdown t.stats;
        telemetry = res.telemetry;
      }

  -- `StressTestEvaluator.evaluate`
  unfoldable pub evaluate_run : StressTestRunResult F → GroundTruthDataset F → EvaluationReport F
  unfolding report_of_tally tally_cases actual_outcomes fresh_tally
  evaluate_run res ground_truth =
      report_of_tally res (length ground_truth.cases)
        (tally_cases (actual_outcomes res.matches res.exceptions) ground_truth.cases fresh_tally)
