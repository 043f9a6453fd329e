-- ===== src/StressTest/Tests.antt =====
-- stress_test/ on two labelled cases of a run.
use vault_recon_ai.Prelude.{
  Bool, List, String, [], false, if◌then◌else◌, none, refl, some, true, ℕ, ◌+◌, ◌∷◌, ◌≡◌,
}
use vault_recon_ai.Ai.Sample.{sample_mismatch}
use vault_recon_ai.Exceptions.{FinancialException}
use vault_recon_ai.Float.Micro.{Micro, micro_float}
use vault_recon_ai.Pipeline.{StressTestRunResult, telemetry_of}
use vault_recon_ai.Pipeline.Sample.{sample_report, sample_setting, unmatched_dataset}
use vault_recon_ai.Prelude.Int.{pos}
use vault_recon_ai.StressTest.{evaluate_run, fresh_tally, tally_cases}
use vault_recon_ai.StressTest.Confusion.{IsConfusion, evaluate_run-IsConfusion}
use vault_recon_ai.StressTest.Outcomes.{actual_outcomes}
use vault_recon_ai.StressTest.Scenarios.{
  GroundTruthDataset, GroundTruthRecord, ScenarioType, all_scenarios, scenario_weight,
}
use vault_recon_ai.Text.{codes}

sum_weights : List ScenarioType → ℕ
sum_weights [] = 0
sum_weights (st ∷ sts) = scenario_weight st + sum_weights sts

-- The shares are all of the cases.
weights_sum : sum_weights all_scenarios ≡ 100
unfolding sum_weights scenario_weight
weights_sum = refl

abbrev label : Bool → String → GroundTruthRecord Micro
label valid id = record {
  case_id = codes id;
  scenario_type = if valid then ScenarioType.exact_match else ScenarioType.missing_processor;
  primary_record_id = codes id;
  order_id = codes "O1";
  expected_recon_outcome = if valid then "MATCHED" else "EXCEPTION";
  expected_exception_type = none;
  expected_ai_decision = if valid then none else some "HUMAN_REVIEW";
  is_true_positive = valid;
  amount = pos 0;
  metadata = [];
}

abbrev labels : GroundTruthDataset Micro
labels = record {
  total_cases = 2;
  cases = (codes "a", label true "Z9") ∷ (codes "b", label false "P1") ∷ [];
}

-- P1 is left to a human, and Z9 is found under neither id.
abbrev reviewed : List (FinancialException Micro)
reviewed = record sample_mismatch { status = "HUMAN_REVIEW"; primary_record_id = codes "P1" } ∷ []

tallied :
    (let t = tally_cases (actual_outcomes [] reviewed) labels.cases fresh_tally in
      t.tp ∷ t.tn ∷ t.fp ∷ t.fn ∷ t.ai_correct ∷ [])
    ≡ 0 ∷ 1 ∷ 0 ∷ 1 ∷ 1 ∷ []
unfolding tally_cases actual_outcomes fresh_tally
tallied = refl

abbrev sample_result : StressTestRunResult Micro
sample_result = record {
  total_input_records = 1;
  total_evaluated_cases = 1;
  matched_count = 0;
  exception_count = 1;
  ai_resolved_count = 0;
  human_review_count = 1;
  matches = [];
  exceptions = reviewed;
  ai_results = [];
  telemetry = telemetry_of sample_setting unmatched_dataset sample_report;
}

evaluate_run-IsConfusion_example :
    IsConfusion (actual_outcomes [] reviewed) labels.cases (evaluate_run sample_result labels)
evaluate_run-IsConfusion_example = evaluate_run-IsConfusion sample_result labels
