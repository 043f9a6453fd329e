-- ===== src/Evaluation/Tests.antt =====
-- evaluation/metrics.py on three labelled cases.
use vault_recon_ai.Prelude.{List, String, [], refl, ◌∷◌, ◌≡◌}
use vault_recon_ai.Ai.Sample.{sample_mismatch}
use vault_recon_ai.Evaluation.{
  GroundTruthCase, actual_of, count_cases, evaluate, matched_payment_ids, no_counts,
}
use vault_recon_ai.Evaluation.Counts.{IsMeasured, evaluate-IsMeasured}
use vault_recon_ai.Exceptions.{FinancialException}
use vault_recon_ai.Float.Micro.{Micro, micro_float}
use vault_recon_ai.Pipeline.Sample.{sample_report}
use vault_recon_ai.Prelude.Int.{pos}
use vault_recon_ai.Text.{codes}

abbrev labelled : String → String → GroundTruthCase
labelled expected id = record {
  case_id = codes "C";
  scenario_type = codes "S";
  expected_decision = expected;
  expected_reason = codes "";
  primary_record_ids = codes id ∷ [];
  supporting_evidence_ids = [];
}

abbrev labels : List GroundTruthCase
labels = labelled "MATCHED" "P9" ∷ labelled "HUMAN_REVIEW" "X1" ∷ labelled "MATCHED" "Q" ∷ []

-- The exception of X1 is left to a human, and the other two are not found.
abbrev reviewed : List (FinancialException Micro)
reviewed = record sample_mismatch { status = "HUMAN_REVIEW" } ∷ []

counted :
    count_cases [] reviewed labels no_counts
    ≡ record { tp = 0; fp = 0; fn = 2; tn = 1; false_matches = 0; false_resolutions = 0 }
unfolding count_cases
counted = refl

evaluate-IsMeasured_example :
    IsMeasured labels
      (actual_of (matched_payment_ids sample_report.matches) reviewed)
      (evaluate (λ xs q. pos 0) labels sample_report reviewed (pos 0) [])
evaluate-IsMeasured_example =
    evaluate-IsMeasured (λ xs q. pos 0) labels sample_report reviewed (pos 0) []
