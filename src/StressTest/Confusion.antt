-- ===== src/StressTest/Confusion.antt =====
-- stress_test/evaluator.py: the confusion matrix, and its breakdown by scenario.
use text.Mathlib.Text.{◌==◌ as str_eq}
use vault_recon_ai.Prelude.{
  All, Bool, List, Option, String, [], arith, false, if◌then◌else◌, length, map, none, not, refl,
  some, suc, true, ℕ, ◌&&◌, ◌+◌, ◌==◌, ◌||◌, ◌∷◌, ◌≡◌,
}
use vault_recon_ai.Dict.{Dict}
use vault_recon_ai.Float.{Float}
use vault_recon_ai.Pipeline.{StressTestRunResult}
use vault_recon_ai.StressTest.{
  EvaluationReport, ScenarioMetric, ScenarioStats, Tally, breakdown, count_ai, count_outcome,
  count_stats, evaluate_run, fresh_tally, report_of_tally, tally_case, tally_cases, update_stats,
  zero_stats,
}
use vault_recon_ai.StressTest.Outcomes.{
  OutcomeEntry, actual_outcomes, is_decision, is_resolved_by_system, outcome_of,
}
use vault_recon_ai.StressTest.Scenarios.{
  GroundTruthDataset, GroundTruthRecord, ScenarioType, all_scenarios, scenario_value,
}
use vault_recon_ai.Text.{Text, text_eq}

-- The counters of a case add up, and so do those of its scenario.
abbrev IsBalanced : ScenarioStats → Type 0
IsBalanced s = (s.total ≡ s.tp + s.tn + s.fp + s.fn) × (s.correct ≡ s.tp + s.tn)

abbrev AllBalanced : Dict ScenarioStats → Type 0
AllBalanced [] = Unit
AllBalanced ((k, s) ∷ m) = IsBalanced s × AllBalanced m

count_stats-IsBalanced :
    (b r : Bool) (s : ScenarioStats) → IsBalanced s → IsBalanced (count_stats b r s)
unfolding count_stats
count_stats-IsBalanced true true s h = omega arith
count_stats-IsBalanced true false s h = omega arith
count_stats-IsBalanced false true s h = omega arith
count_stats-IsBalanced false false s h = omega arith

if-AllBalanced :
    (b : Bool) (m n : Dict ScenarioStats)
    → AllBalanced m
    → AllBalanced n
    → AllBalanced (if b then m else n)
if-AllBalanced true m n p q = p
if-AllBalanced false m n p q = q

update_stats-AllBalanced :
    (k : Text) (b r : Bool) (m : Dict ScenarioStats)
    → AllBalanced m
    → AllBalanced (update_stats k (count_stats b r) m)
unfolding update_stats
update_stats-AllBalanced k b r [] h = tt
update_stats-AllBalanced k b r ((j, s) ∷ m) (h, hs) =
    if-AllBalanced (text_eq j k) _ _ (count_stats-IsBalanced b r s h, hs)
      (h, update_stats-AllBalanced k b r m hs)

count_ai-stats :
    (expected actual : Option String) (t : Tally) → (count_ai expected actual t).stats ≡ t.stats
unfolding count_ai
count_ai-stats none actual t = refl
count_ai-stats (some x) actual t = refl

abbrev bit : Bool → ℕ
bit b = if b then 1 else 0

-- From the counters of `t` to those of `t'`, so many more of each.
record Added (t t' : Tally) (a b c d u : ℕ) : Type 0 where
  tp : t'.tp ≡ t.tp + a
  fn : t'.fn ≡ t.fn + b
  fp : t'.fp ≡ t.fp + c
  tn : t'.tn ≡ t.tn + d
  unsafe : t'.unsafe_ai ≡ t.unsafe_ai + u

-- One case, by its label, and by whether it was matched and resolved by the model.
abbrev AddedCase : Tally → Tally → Bool → Bool → Bool → Type 0
AddedCase t t' b x y =
    Added t t' (bit (b && (x || y))) (bit (b && not (x || y))) (bit (not b && (x || y)))
      (bit (not b && not (x || y))) (bit (not b && y))

count_outcome-Added :
    (b x y : Bool) (t : Tally) (stats : Dict ScenarioStats)
    → AddedCase t (record (count_outcome b (x || y) y t) { stats = stats }) b x y
unfolding count_outcome
count_outcome-Added true true y t stats = omega arith
count_outcome-Added true false true t stats = omega arith
count_outcome-Added true false false t stats = omega arith
count_outcome-Added false true true t stats = omega arith
count_outcome-Added false true false t stats = omega arith
count_outcome-Added false false true t stats = omega arith
count_outcome-Added false false false t stats = omega arith

count_ai-Added :
    (expected actual : Option String) (t t' : Tally) (b x y : Bool)
    → AddedCase t t' b x y
    → AddedCase t (count_ai expected actual t') b x y
unfolding count_ai
count_ai-Added none actual t t' b x y h = h
count_ai-Added (some e) actual t t' b x y h = record {
  tp = h.tp;
  fn = h.fn;
  fp = h.fp;
  tn = h.tn;
  unsafe = h.unsafe;
}

AddedCase-Added :
    (t t' u : Tally) (b x y : Bool) {tp fn fp tn unsafe : ℕ}
    → AddedCase t t' b x y
    → Added t' u tp fn fp tn unsafe
    → Added t u
        (if b && (x || y) then suc tp else tp)
        (if b && not (x || y) then suc fn else fn)
        (if not b && (x || y) then suc fp else fp)
        (if not b && not (x || y) then suc tn else tn)
        (if not b && y then suc unsafe else unsafe)
AddedCase-Added t t' u true true y h g = omega arith
AddedCase-Added t t' u true false true h g = omega arith
AddedCase-Added t t' u true false false h g = omega arith
AddedCase-Added t t' u false true true h g = omega arith
AddedCase-Added t t' u false true false h g = omega arith
AddedCase-Added t t' u false false true h g = omega arith
AddedCase-Added t t' u false false false h g = omega arith

-- A scenario's row adds up.
abbrev pub RowBalanced : {F : Type 0} → ScenarioMetric F → Type 0
RowBalanced m =
    (m.total_cases ≡ m.true_positives + m.true_negatives + m.false_positives + m.false_negatives)
    × (m.correct_cases ≡ m.true_positives + m.true_negatives)

is_decision-resolved :
    (o : Option String)
    → is_decision o "AI_RESOLVED" ≡ elim o [ none ↦ false | some x ↦ str_eq x "AI_RESOLVED" ]
unfolding is_decision
is_decision-resolved none = refl
is_decision-resolved (some x) = refl

module _ {F : Type 0} where
  -- The cases of which a test holds.
  abbrev pub count_where : (GroundTruthRecord F → Bool) → Dict (GroundTruthRecord F) → ℕ
  count_where p [] = 0
  count_where p ((k, gt) ∷ cases) = if p gt then suc (count_where p cases) else count_where p cases

  -- The run matched the case's record or order.
  abbrev pub was_matched : Dict OutcomeEntry → GroundTruthRecord F → Bool
  was_matched outcomes gt = str_eq (outcome_of outcomes gt).outcome "MATCHED"

  -- The model's resolution of it was accepted.
  abbrev pub was_resolved : Dict OutcomeEntry → GroundTruthRecord F → Bool
  was_resolved outcomes gt = elim ((outcome_of outcomes gt).ai_decision) [
    | none ↦ false
    | some decision ↦ str_eq decision "AI_RESOLVED"
  ]

  abbrev pub was_settled : Dict OutcomeEntry → GroundTruthRecord F → Bool
  was_settled outcomes gt = was_matched outcomes gt || was_resolved outcomes gt

  tally_case-Added :
      (outcomes : Dict OutcomeEntry) (gt : GroundTruthRecord F) (t : Tally)
      → AddedCase t
          (tally_case outcomes gt t)
          gt.is_true_positive
          (was_matched outcomes gt)
          (was_resolved outcomes gt)
  unfolding tally_case is_resolved_by_system
  tally_case-Added outcomes gt t = rw (is_decision-resolved (outcome_of outcomes gt).ai_decision) (
      count_ai-Added gt.expected_ai_decision _ t _ gt.is_true_positive (was_matched outcomes gt)
        (was_resolved outcomes gt)
        (count_outcome-Added gt.is_true_positive (was_matched outcomes gt)
          (was_resolved outcomes gt) t _))

  tally_cases-Added :
      (outcomes : Dict OutcomeEntry) (cases : Dict (GroundTruthRecord F)) (t : Tally)
      → Added t
          (tally_cases outcomes cases t)
          (count_where (λ gt. gt.is_true_positive && was_settled outcomes gt) cases)
          (count_where (λ gt. gt.is_true_positive && not (was_settled outcomes gt)) cases)
          (count_where (λ gt. not gt.is_true_positive && was_settled outcomes gt) cases)
          (count_where (λ gt. not gt.is_true_positive && not (was_settled outcomes gt)) cases)
          (count_where (λ gt. not gt.is_true_positive && was_resolved outcomes gt) cases)
  unfolding tally_cases
  tally_cases-Added outcomes [] t = omega arith
  tally_cases-Added outcomes ((k, gt) ∷ cases) t =
      AddedCase-Added t (tally_case outcomes gt t) _ gt.is_true_positive (was_matched outcomes gt)
        (was_resolved outcomes gt) (tally_case-Added outcomes gt t)
        (tally_cases-Added outcomes cases (tally_case outcomes gt t))

  tally_case-AllBalanced :
      (outcomes : Dict OutcomeEntry) (gt : GroundTruthRecord F) (t : Tally)
      → AllBalanced t.stats
      → AllBalanced (tally_case outcomes gt t).stats
  unfolding tally_case
  tally_case-AllBalanced outcomes gt t h =
      rw (count_ai-stats gt.expected_ai_decision)
        (update_stats-AllBalanced (scenario_value gt.scenario_type) gt.is_true_positive _ t.stats h)

  tally_cases-AllBalanced :
      (outcomes : Dict OutcomeEntry) (cases : Dict (GroundTruthRecord F)) (t : Tally)
      → AllBalanced t.stats
      → AllBalanced (tally_cases outcomes cases t).stats
  unfolding tally_cases
  tally_cases-AllBalanced outcomes [] t h = h
  tally_cases-AllBalanced outcomes ((k, gt) ∷ cases) t h =
      tally_cases-AllBalanced outcomes cases (tally_case outcomes gt t)
        (tally_case-AllBalanced outcomes gt t h)

zeros-AllBalanced :
    (sts : List ScenarioType) → AllBalanced (map (λ st. (scenario_value st, zero_stats)) sts)
zeros-AllBalanced [] = tt
zeros-AllBalanced (st ∷ sts) = ((refl, refl), zeros-AllBalanced sts)

if-All :
    {F : Type 0} (b : Bool) (m : ScenarioMetric F) (ms : List (ScenarioMetric F))
    → RowBalanced m
    → All RowBalanced ms
    → All RowBalanced (if b then ms else m ∷ ms)
if-All true m ms h hs = hs
if-All false m ms h hs = (h, hs)

module _ (F : Type 0) ⦃d : Float F⦄ where
  breakdown-Balanced :
      (m : Dict ScenarioStats) → AllBalanced m → All RowBalanced (breakdown {F = F} m)
  unfolding breakdown
  breakdown-Balanced [] h = tt
  breakdown-Balanced ((k, v) ∷ m) (h, hs) =
      if-All (v.total == 0) _ (breakdown m) h (breakdown-Balanced m hs)

module _ {F : Type 0} ⦃d : Float F⦄ where
  -- What the confusion matrix of a report says of the labels and of what the run did.
  pub record IsConfusion (outcomes : Dict OutcomeEntry) (cases : Dict (GroundTruthRecord F))
      (report : EvaluationReport F) : Type 0 where
    pub total : report.total_cases ≡ length cases
    pub true_positives :
        report.true_positives
        ≡ count_where (λ gt. gt.is_true_positive && was_settled outcomes gt) cases
    pub false_negatives :
        report.false_negatives
        ≡ count_where (λ gt. gt.is_true_positive && not (was_settled outcomes gt)) cases
    pub false_positives :
        report.false_positives
        ≡ count_where (λ gt. not gt.is_true_positive && was_settled outcomes gt) cases
    pub true_negatives :
        report.true_negatives
        ≡ count_where (λ gt. not gt.is_true_positive && not (was_settled outcomes gt)) cases
    pub unsafe :
        report.unsafe_ai_resolutions
        ≡ count_where (λ gt. not gt.is_true_positive && was_resolved outcomes gt) cases
    pub rows : All RowBalanced report.scenario_breakdown

  -- In the report of an evaluation, the true positives and false negatives are the cases with a true
  -- label that the run matched or resolved by the model, and those that it did not; the false
  -- positives and true negatives those with a false label; the unsafe resolutions are the cases with
  -- a false label that the model resolved; and each scenario's row adds up.
  pub evaluate_run-IsConfusion :
      (res : StressTestRunResult F) (ground_truth : GroundTruthDataset F)
      → IsConfusion
          (actual_outcomes res.matches res.exceptions)
          ground_truth.cases
          (evaluate_run res ground_truth)
  unfolding evaluate_run report_of_tally fresh_tally
  evaluate_run-IsConfusion res ground_truth =
      let outcomes = actual_outcomes res.matches res.exceptions in
      let added = tally_cases-Added outcomes ground_truth.cases fresh_tally in
      record {
        total = refl;
        true_positives = omega (arith, added.tp);
        false_negatives = omega (arith, added.fn);
        false_positives = omega (arith, added.fp);
        true_negatives = omega (arith, added.tn);
        unsafe = omega (arith, added.unsafe);
        rows = breakdown-Balanced F (tally_cases outcomes ground_truth.cases fresh_tally).stats (
            tally_cases-AllBalanced outcomes ground_truth.cases fresh_tally
              (zeros-AllBalanced all_scenarios));
      }
