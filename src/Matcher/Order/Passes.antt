-- ===== src/Matcher/Order/Passes.antt =====
-- recon/matcher.py, `reconcile_order`: step 4, the staged passes.
use vault_recon_ai.Prelude.{
  Bool, List, Option, String, [], if◌then◌else◌, is_empty, none, not, some, ℕ, ◌&&◌, ◌/◌, ◌==◌,
  ◌||◌, ◌∷◌,
}
use vault_recon_ai.Exceptions.{Finding, Reason}
use vault_recon_ai.Float.{Float}
use vault_recon_ai.Matcher.{Engine}
use vault_recon_ai.Matcher.Order.Targets.{
  Target, target_description, target_gross, target_id, target_order, target_timestamp,
}
use vault_recon_ai.Prelude.Int.{distance, is_zero, leb_ℤ, pos}
use vault_recon_ai.Rules.Similarity.{calculate_description_similarity}
use vault_recon_ai.Schemas.{PaymentRecord}
use vault_recon_ai.Text.{codes, text_eq}
use vault_recon_ai.Value.{Value, text_field, truthy}

pub data Strategy : Type 0 where
  exact timing tolerance : Strategy

pub data Pass (F : Type 0) : Type 0 where
  match_strategy : Strategy → Pass F
  mismatch : Reason F → Pass F

abbrev pub name_of : Strategy → String
name_of exact = "EXACT"
name_of timing = "TIMING"
name_of tolerance = "TOLERANCE"

-- `match_strategy or "EXACT"`.
unfoldable pub strategy_name : Option Strategy → String
strategy_name none = "EXACT"
strategy_name (some s) = name_of s

-- f"L1_{match_strategy}_ORDER_MATCH"
unfoldable pub order_reason_code : Option Strategy → String
order_reason_code none = "L1_None_ORDER_MATCH"
order_reason_code (some exact) = "L1_EXACT_ORDER_MATCH"
order_reason_code (some timing) = "L1_TIMING_ORDER_MATCH"
order_reason_code (some tolerance) = "L1_TOLERANCE_ORDER_MATCH"

module _ {F : Type 0} where
  abbrev pub passed : Pass F → Option Strategy
  passed (match_strategy s) = some s
  passed (mismatch r) = none

module _ {F : Type 0} ⦃d : Float F⦄ where
  open d use {lit, sub, abs, le, round}

  unfoldable pub strategy_confidence : Option Strategy → F
  strategy_confidence none = lit 10 1
  strategy_confidence (some exact) = lit 10 1
  strategy_confidence (some timing) = lit 98 2
  strategy_confidence (some tolerance) = lit 95 2

  -- abs(pay.timestamp - proc_ts) // 86400 if (pay.timestamp and proc_ts) else 0
  unfoldable pub date_diff_days : PaymentRecord F → Target F → ℕ
  date_diff_days pay t =
      if is_zero pay.timestamp || is_zero (target_timestamp t)
      then 0
      else distance pay.timestamp (target_timestamp t) / 86400

  -- round(abs(pay.amount - proc_gross), 2)
  unfoldable pub amount_diff : PaymentRecord F → Target F → F
  amount_diff pay t = round (abs (sub pay.amount (target_gross t))) 2

  unfoldable pub desc_sim : Engine F → PaymentRecord F → Target F → F
  unfolding text_field truthy target_description calculate_description_similarity
  desc_sim eng pay t =
      let memo = text_field pay.metadata (codes "Memo") in
      if truthy memo && truthy (target_description t)
      then calculate_description_similarity eng.ratio memo (target_description t)
      else lit 10 1

  -- The test inside pass 3.
  unfoldable pub strong_reference : Engine F → PaymentRecord F → Target F → Bool
  unfolding desc_sim
  strong_reference eng pay t =
      le eng.rules.fuzzy_threshold (desc_sim eng pay t)
      || not (is_empty pay.order_id) && text_eq pay.order_id (target_order t)

  unfoldable pub staged_pass : Engine F → PaymentRecord F → Target F → Pass F
  unfolding date_diff_days amount_diff strong_reference
  staged_pass eng pay t =
      let days = date_diff_days pay t in
      let diff = amount_diff pay t in
      if le diff (lit 1 2) && days == 0
      then match_strategy exact
      else if le diff (lit 1 2) && leb_ℤ (pos days) eng.rules.timing_window_days
      then match_strategy timing
      else if le diff eng.rules.amount_tolerance && leb_ℤ (pos days) eng.rules.tolerance_window_days
      then (if strong_reference eng pay t
          then match_strategy tolerance
          else mismatch (Reason.tolerance_or_similarity diff (desc_sim eng pay t)))
      else mismatch (Reason.gross_differs pay.amount (target_gross t) diff days)

  -- The finding of a pass that fails.
  unfoldable pub pass_findings : Engine F → PaymentRecord F → Target F → Pass F → List (Finding F)
  pass_findings eng pay t (match_strategy s) = []
  pass_findings eng pay t (mismatch why) =
      record {
        type = "AMOUNT_MISMATCH";
        expected = Value.float pay.amount;
        actual = Value.float (target_gross t);
        diff = round (sub pay.amount (target_gross t)) 2;
        related_ids = target_id t ∷ pay.order_id ∷ [];
        reason = why;
      }
      ∷ []
