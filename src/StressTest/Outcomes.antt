-- ===== src/StressTest/Outcomes.antt =====
-- stress_test/evaluator.py: `actual_outcomes`, what a run did with each record.
use text.Mathlib.Text.{◌==◌ as str_eq}
use vault_recon_ai.Prelude.{
  Bool, List, Option, String, [], false, if◌then◌else◌, is_empty, is_some, none, or_default,
  or_else, some, ◌||◌, ◌∷◌,
}
use vault_recon_ai.Ai.Provider.Remote.{or_text}
use vault_recon_ai.Dict.{Dict, dict_get, dict_set}
use vault_recon_ai.Exceptions.{FinancialException}
use vault_recon_ai.Matcher.{ReconciliationMatch}
use vault_recon_ai.StressTest.Scenarios.{GroundTruthRecord}
use vault_recon_ai.Text.{Text}

-- An entry of `actual_outcomes`.
pub record OutcomeEntry : Type 0 where
  pub outcome : String
  pub strategy : Option String
  pub exception_type : Option Text
  pub ai_decision : Option String

abbrev pub matched_entry : String → OutcomeEntry
matched_entry strategy = record {
  outcome = "MATCHED";
  strategy = some strategy;
  exception_type = none;
  ai_decision = none;
}

abbrev pub unresolved_entry : OutcomeEntry
unresolved_entry = record {
  outcome = "UNRESOLVED";
  strategy = none;
  exception_type = none;
  ai_decision = none;
}

-- `if key: outcomes[key] = entry`
unfoldable pub set_given : Option Text → OutcomeEntry → Dict OutcomeEntry → Dict OutcomeEntry
unfolding dict_set
set_given none entry m = m
set_given (some k) entry m = if is_empty k then m else dict_set k entry m

-- for r in rel_ids: if r not in outcomes: outcomes[r] = entry
unfoldable pub set_missing : List Text → OutcomeEntry → Dict OutcomeEntry → Dict OutcomeEntry
unfolding dict_get dict_set
set_missing [] entry m = m
set_missing (k ∷ ks) entry m =
    set_missing ks entry (if is_some (dict_get m k) then m else dict_set k entry m)

module _ {F : Type 0} where
  -- 1. Map Matches
  unfoldable pub map_matches : List (ReconciliationMatch F) → Dict OutcomeEntry → Dict OutcomeEntry
  unfolding set_given or_text
  map_matches [] m = m
  map_matches (x ∷ xs) m =
      let with_pay =
        set_given (or_text x.internal_payment_id (some x.work_key)) (matched_entry x.match_strategy)
          m in
      let with_proc =
        set_given x.processor_transaction_id (matched_entry x.match_strategy) with_pay in
      let with_batch =
        set_given (or_text x.settlement_batch_id (some x.work_key)) (matched_entry x.match_strategy)
          with_proc in
      map_matches xs (set_given x.bank_entry_id (matched_entry x.match_strategy) with_batch)

  -- 2. Map Exceptions & AI Decisions
  unfoldable pub map_exceptions :
      List (FinancialException F) → Dict OutcomeEntry → Dict OutcomeEntry
  unfolding dict_set set_missing
  map_exceptions [] m = m
  map_exceptions (e ∷ es) m =
      let entry : OutcomeEntry = record {
        outcome = "EXCEPTION";
        strategy = none;
        exception_type = some e.exception_type;
        ai_decision = some e.status;
      } in
      map_exceptions es
        (set_missing e.related_record_ids entry (dict_set e.primary_record_id entry m))

  unfoldable pub actual_outcomes :
      List (ReconciliationMatch F) → List (FinancialException F) → Dict OutcomeEntry
  unfolding map_matches map_exceptions
  actual_outcomes matches exceptions = map_exceptions exceptions (map_matches matches [])

  -- By the primary record, else by the order.
  unfoldable pub outcome_of : Dict OutcomeEntry → GroundTruthRecord F → OutcomeEntry
  unfolding dict_get
  outcome_of outcomes gt =
      or_default (or_else (dict_get outcomes gt.primary_record_id) (dict_get outcomes gt.order_id))
        unresolved_entry

-- `x == y` where x may be None.
unfoldable pub is_decision : Option String → String → Bool
is_decision none y = false
is_decision (some x) y = str_eq x y

unfoldable pub is_resolved_by_system : OutcomeEntry → Bool
unfolding is_decision
is_resolved_by_system a = str_eq a.outcome "MATCHED" || is_decision a.ai_decision "AI_RESOLVED"
