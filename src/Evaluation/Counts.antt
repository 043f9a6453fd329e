-- ===== src/Evaluation/Counts.antt =====
-- evaluation/metrics.py: what the counters count.
use text.Mathlib.Text.{◌==◌ as str_eq}
use vault_recon_ai.Prelude.{
  Bool, List, String, [], arith, if◌then◌else◌, length, not, refl, suc, ℕ, ◌&&◌, ◌+◌, ◌==◌, ◌||◌,
  ◌∙◌, ◌∷◌, ◌≡◌,
}
use vault_recon_ai.Evaluation.{
  Counters, GroundTruthCase, ReconciliationMetrics, actual_of, count_case, count_cases, evaluate,
  is_resolvable, matched_payment_ids, metrics_of, no_counts, ratio_or,
}
use vault_recon_ai.Exceptions.{FinancialException}
use vault_recon_ai.Float.{Float}
use vault_recon_ai.Matcher.Run.{MatcherReport}
use vault_recon_ai.Prelude.Int.{pos}
use vault_recon_ai.Text.{Text}

-- The cases of which a test of the expected and the actual outcome holds.
abbrev pub count_where :
    (String → String → Bool) → (GroundTruthCase → String) → List GroundTruthCase → ℕ
count_where p actual [] = 0
count_where p actual (gt ∷ gts) =
    if p gt.expected_decision (actual gt)
    then suc (count_where p actual gts)
    else count_where p actual gts

abbrev is_settled : String → Bool
is_settled s = str_eq s "MATCHED" || str_eq s "AI_RESOLVED"

-- To be matched or resolved, and so it is; or it is not.
abbrev pub is_hit : String → String → Bool
is_hit expected actual = is_settled expected && is_settled actual

abbrev pub is_miss : String → String → Bool
is_miss expected actual = is_settled expected && not (is_settled actual)

-- To be left to a human, and so it is; or it is matched, or resolved.
abbrev left_to_human : String → Bool
left_to_human expected = not (is_settled expected) && str_eq expected "HUMAN_REVIEW"

abbrev pub is_rightly_left : String → String → Bool
is_rightly_left expected actual = left_to_human expected && str_eq actual "HUMAN_REVIEW"

abbrev pub is_false_match : String → String → Bool
is_false_match expected actual =
    left_to_human expected && not (str_eq actual "HUMAN_REVIEW") && str_eq actual "MATCHED"

abbrev pub is_false_resolution : String → String → Bool
is_false_resolution expected actual =
    left_to_human expected
    && not (str_eq actual "HUMAN_REVIEW")
    && not (str_eq actual "MATCHED")
    && str_eq actual "AI_RESOLVED"

-- So many more of each counter.
record Added (c c' : Counters) (a b t m r : ℕ) : Type 0 where
  tp : c'.tp ≡ c.tp + a
  fn : c'.fn ≡ c.fn + b
  tn : c'.tn ≡ c.tn + t
  matches : c'.false_matches ≡ c.false_matches + m
  resolutions : c'.false_resolutions ≡ c.false_resolutions + r
  fp : c'.fp ≡ c.fp + (m + r)

from_none :
    (c : Counters) {a b t m r : ℕ}
    → Added no_counts c a b t m r
    → (c.tp ≡ a) × (c.fn ≡ b) × (c.tn ≡ t) × (c.fp ≡ m + r)
from_none c h = omega arith

abbrev bit : Bool → ℕ
bit b = if b then 1 else 0

count_case-Added :
    (expected actual : String) (c : Counters)
    → Added c
        (count_case expected actual c)
        (bit (is_hit expected actual))
        (bit (is_miss expected actual))
        (bit (is_rightly_left expected actual))
        (bit (is_false_match expected actual))
        (bit (is_false_resolution expected actual))
unfolding count_case is_resolvable
count_case-Added expected actual c = record {
  tp = ground arith;
  fn = ground arith;
  tn = ground arith;
  matches = ground arith;
  resolutions = ground arith;
  fp = ground arith;
}

module _ {F : Type 0} where
  count_cases-Added :
      (ids : List Text) (es : List (FinancialException F)) (gts : List GroundTruthCase)
      (c : Counters)
      → Added c
          (count_cases ids es gts c)
          (count_where is_hit (actual_of ids es) gts)
          (count_where is_miss (actual_of ids es) gts)
          (count_where is_rightly_left (actual_of ids es) gts)
          (count_where is_false_match (actual_of ids es) gts)
          (count_where is_false_resolution (actual_of ids es) gts)
  unfolding count_cases
  count_cases-Added ids es [] c = omega arith
  count_cases-Added ids es (gt ∷ gts) c =
      let x = gt.expected_decision in
      let y = actual_of ids es gt in
      let step = count_case-Added x y c in
      let rest = count_cases-Added ids es gts (count_case x y c) in
      record {
        tp = ground (arith, step.tp, rest.tp);
        fn = ground (arith, step.fn, rest.fn);
        tn = ground (arith, step.tn, rest.tn);
        matches = ground (arith, step.matches, rest.matches);
        resolutions = ground (arith, step.resolutions, rest.resolutions);
        fp = rest.fp ∙ ground (arith, step.fp);
      }

module _ {F : Type 0} ⦃d : Float F⦄ where
  open d use {lit, of_int, div, round}

  -- a / b to four places, 1.0 where b is 0.
  abbrev pub share : ℕ → ℕ → F
  share a b = round (if b == 0 then lit 10 1 else div (of_int (pos a)) (of_int (pos b))) 4

  -- What the metrics say of the labels and of the outcomes that the run gave.
  pub record IsMeasured (ground_truth : List GroundTruthCase) (actual : GroundTruthCase → String)
      (metrics : ReconciliationMetrics F) : Type 0 where
    pub precision :
        metrics.precision
        ≡ share (count_where is_hit actual ground_truth) (
            count_where is_hit actual ground_truth
            + (count_where is_false_match actual ground_truth
                + count_where is_false_resolution actual ground_truth))
    pub recall :
        metrics.recall
        ≡ share
            (count_where is_hit actual ground_truth)
            (count_where is_hit actual ground_truth + count_where is_miss actual ground_truth)
    pub accuracy :
        metrics.ground_truth_accuracy
        ≡ share
            (count_where is_hit actual ground_truth
              + count_where is_rightly_left actual ground_truth)
            (length ground_truth)
    pub false_matches : metrics.false_match_count ≡ count_where is_false_match actual ground_truth
    pub false_resolutions :
        metrics.false_resolution_count ≡ count_where is_false_resolution actual ground_truth

  -- In an evaluation, the precision is the share of the cases that were to be matched or resolved
  -- and so were, in those and the cases that were to be left to a human but were matched or
  -- resolved; the recall is their share in all that were to be matched or resolved; the accuracy is
  -- that of these and of those rightly left to a human in all cases; and the false matches and
  -- false resolutions are those cases left to a human that were matched, and that were resolved.
  pub evaluate-IsMeasured :
      (percentile : List F → ℕ → F) (ground_truth : List GroundTruthCase) (report : MatcherReport F)
      (exceptions : List (FinancialException F)) (ingestion_throughput : F) (latencies_ms : List F)
      → IsMeasured ground_truth
          (actual_of (matched_payment_ids report.matches) exceptions)
          (evaluate percentile ground_truth report exceptions ingestion_throughput latencies_ms)
  unfolding evaluate metrics_of ratio_or
  evaluate-IsMeasured percentile ground_truth report exceptions ingestion_throughput latencies_ms =
      let added =
        count_cases-Added (matched_payment_ids report.matches) exceptions ground_truth no_counts in
      let (tp, fn, tn, fp) = from_none _ added in
      record {
        precision = rw (tp, fp) refl;
        recall = rw (tp, fn) refl;
        accuracy = rw (tp, tn) refl;
        false_matches = omega (arith, added.matches);
        false_resolutions = omega (arith, added.resolutions);
      }
