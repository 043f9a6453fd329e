-- ===== src/StressTest/Scenarios.antt =====
-- stress_test/scenarios.py and stress_test/ground_truth.py: the scenarios, their shares, and the
-- hidden labels.
use vault_recon_ai.Prelude.{Bool, List, Option, String, [], ℕ, ◌∷◌}
use vault_recon_ai.Dict.{Dict}
use vault_recon_ai.Text.{Text, codes}
use vault_recon_ai.Value.{Fields}

pub data ScenarioType : Type 0 where
  exact_match : ScenarioType
  timing_match : ScenarioType
  tolerance_match : ScenarioType
  fuzzy_description_match : ScenarioType
  partial_payment : ScenarioType
  fee_mismatch_resolvable : ScenarioType
  bundled_payment_resolvable : ScenarioType
  fee_mismatch_unresolvable : ScenarioType
  amount_mismatch : ScenarioType
  missing_processor : ScenarioType
  missing_internal : ScenarioType
  duplicate_processor : ScenarioType
  duplicate_internal : ScenarioType
  partial_refund : ScenarioType
  currency_mismatch : ScenarioType
  late_settlement : ScenarioType
  missing_bank_deposit : ScenarioType
  unknown_fee_policy : ScenarioType
  bundled_payment_ambiguous : ScenarioType
  adversarial_prompt_injection : ScenarioType
  adversarial_hallucinated_id : ScenarioType
  adversarial_contradiction : ScenarioType

-- The value of the enumeration's member.
unfoldable pub scenario_value : ScenarioType → Text
scenario_value exact_match = codes "EXACT_MATCH"
scenario_value timing_match = codes "TIMING_MATCH"
scenario_value tolerance_match = codes "TOLERANCE_MATCH"
scenario_value fuzzy_description_match = codes "FUZZY_DESCRIPTION_MATCH"
scenario_value partial_payment = codes "PARTIAL_PAYMENT"
scenario_value fee_mismatch_resolvable = codes "FEE_MISMATCH_RESOLVABLE"
scenario_value bundled_payment_resolvable = codes "BUNDLED_PAYMENT_RESOLVABLE"
scenario_value fee_mismatch_unresolvable = codes "FEE_MISMATCH_UNRESOLVABLE"
scenario_value amount_mismatch = codes "AMOUNT_MISMATCH"
scenario_value missing_processor = codes "MISSING_PROCESSOR"
scenario_value missing_internal = codes "MISSING_INTERNAL"
scenario_value duplicate_processor = codes "DUPLICATE_PROCESSOR"
scenario_value duplicate_internal = codes "DUPLICATE_INTERNAL"
scenario_value partial_refund = codes "PARTIAL_REFUND"
scenario_value currency_mismatch = codes "CURRENCY_MISMATCH"
scenario_value late_settlement = codes "LATE_SETTLEMENT"
scenario_value missing_bank_deposit = codes "MISSING_BANK_DEPOSIT"
scenario_value unknown_fee_policy = codes "UNKNOWN_FEE_POLICY"
scenario_value bundled_payment_ambiguous = codes "BUNDLED_PAYMENT_AMBIGUOUS"
scenario_value adversarial_prompt_injection = codes "ADVERSARIAL_PROMPT_INJECTION"
scenario_value adversarial_hallucinated_id = codes "ADVERSARIAL_HALLUCINATED_ID"
scenario_value adversarial_contradiction = codes "ADVERSARIAL_CONTRADICTION"

-- for st in ScenarioType
abbrev pub all_scenarios : List ScenarioType
all_scenarios =
    exact_match ∷ timing_match ∷ tolerance_match ∷ fuzzy_description_match ∷ partial_payment
    ∷ fee_mismatch_resolvable ∷ bundled_payment_resolvable ∷ fee_mismatch_unresolvable
    ∷ amount_mismatch ∷ missing_processor ∷ missing_internal ∷ duplicate_processor
    ∷ duplicate_internal ∷ partial_refund ∷ currency_mismatch ∷ late_settlement
    ∷ missing_bank_deposit ∷ unknown_fee_policy ∷ bundled_payment_ambiguous
    ∷ adversarial_prompt_injection ∷ adversarial_hallucinated_id ∷ adversarial_contradiction ∷ []

-- SCENARIO_WEIGHTS, in hundredths.
unfoldable pub scenario_weight : ScenarioType → ℕ
scenario_weight exact_match = 35
scenario_weight timing_match = 10
scenario_weight tolerance_match = 4
scenario_weight fuzzy_description_match = 3
scenario_weight partial_payment = 3
scenario_weight fee_mismatch_resolvable = 3
scenario_weight bundled_payment_resolvable = 2
scenario_weight fee_mismatch_unresolvable = 5
scenario_weight amount_mismatch = 5
scenario_weight missing_processor = 4
scenario_weight missing_internal = 4
scenario_weight duplicate_processor = 3
scenario_weight duplicate_internal = 3
scenario_weight partial_refund = 3
scenario_weight currency_mismatch = 2
scenario_weight late_settlement = 2
scenario_weight missing_bank_deposit = 2
scenario_weight unknown_fee_policy = 1
scenario_weight bundled_payment_ambiguous = 1
scenario_weight adversarial_prompt_injection = 2
scenario_weight adversarial_hallucinated_id = 2
scenario_weight adversarial_contradiction = 1

pub record GroundTruthRecord (F : Type 0) : Type 0 where
  pub case_id : Text
  pub scenario_type : ScenarioType
  pub primary_record_id : Text
  pub order_id : Text
  pub expected_recon_outcome : String
  pub expected_exception_type : Option Text
  pub expected_ai_decision : Option String
  pub is_true_positive : Bool
  pub amount : F
  pub metadata : Fields F

pub record GroundTruthDataset (F : Type 0) : Type 0 where
  pub total_cases : ℕ
  pub cases : Dict (GroundTruthRecord F)
