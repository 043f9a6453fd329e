-- ===== src/Matcher/Order.antt =====
-- recon/matcher.py: `reconcile_order`, in the steps of its comments. The parts that compute
-- findings and choose a target are in the child modules.
pub mod Targets
pub mod Checks
pub mod Passes
use text.Mathlib.Text.{◌==◌ as str_eq}
use vault_recon_ai.Prelude.{
  List, Option, [], if◌then◌else◌, length, ltb, map, none, not, some, ◌&&◌, ◌++◌, ◌∷◌,
}
use vault_recon_ai.Dict.{Dict}
use vault_recon_ai.Exceptions.{
  Details, FinancialException, Finding, Moment, Reason, duplicate_records, partner_consumed,
  reason_and_findings,
}
use vault_recon_ai.Float.{Float}
use vault_recon_ai.Matcher.{Engine, Outcome, ReconciliationMatch, log_created, new_exception}
use vault_recon_ai.Matcher.Index.{Entry, IndexMap, order_indexes, unconsumed}
use vault_recon_ai.Matcher.Order.Checks.{
  currency_findings, duplicate_processors, fee_findings, first_or, invoice_findings, is_partial,
  missing_processor, refund_findings,
}
use vault_recon_ai.Matcher.Order.Passes.{
  Strategy, amount_diff, date_diff_days, desc_sim, match_strategy, order_reason_code, pass_findings,
  passed, staged_pass, strategy_confidence, strategy_name,
}
use vault_recon_ai.Matcher.Order.Targets.{
  Target, find_target, is_processor, target_batch, target_fee, target_id, target_net,
}
use vault_recon_ai.Prelude.Int.{pos}
use vault_recon_ai.Result.{Result, ok, ◌>>=◌}
use vault_recon_ai.Schemas.{PaymentRecord}
use vault_recon_ai.Text.{Text, codes}
use vault_recon_ai.Value.{Value, truthy_field}

module _ {F : Type 0} ⦃d : Float F⦄ (eng : Engine F) where
  open d use {lit}

  -- The two early exits with DUPLICATE_INTERNAL, and the one at consumed targets, differ in the
  -- related ids and the reason.
  unfoldable pub duplicate_internal :
      Moment F → PaymentRecord F → List Text → Reason F → FinancialException F
  unfolding new_exception log_created
  duplicate_internal now pay related why = log_created now (Details.reason why) (
      new_exception now "EXC_DUP_INT_" pay.merchant_id "DUPLICATE_INTERNAL" "PAYMENT"
        pay.transaction_id related (Value.float pay.amount) (Value.float pay.amount) (lit 0 0))

  -- "Build exception from findings", without a target: `missing` stands behind the findings.
  unfoldable pub missing_exception :
      Moment F → PaymentRecord F → List (Finding F) → Finding F → FinancialException F
  unfolding new_exception log_created
  missing_exception now pay findings missing =
      let all = findings ++ missing ∷ [] in
      let f0 = first_or missing findings in
      log_created now (Details.reason_and_findings f0.reason all)
        (record (new_exception now "EXC_" pay.merchant_id f0.type "PAYMENT" pay.transaction_id
          f0.related_ids f0.expected f0.actual f0.diff) {
            metadata = record { findings = some all; finding_count = none };
          })

  -- "Evaluate Aggregate Findings", with a target.
  unfoldable pub findings_exception :
      Moment F → PaymentRecord F → Target F → Finding F → List (Finding F) → FinancialException F
  unfolding new_exception log_created
  findings_exception now pay t f0 rest =
      let all = f0 ∷ rest in
      log_created now (Details.primary_reason_and_findings f0.reason all)
        (record (new_exception now "EXC_" pay.merchant_id f0.type
          (if is_processor t then "PROCESSOR" else "PAYMENT")
          (if is_processor t then target_id t else pay.transaction_id) f0.related_ids f0.expected
          f0.actual f0.diff) {
            metadata = record { findings = some all; finding_count = some (length all) };
          })

  -- "Deterministic Match Success".
  unfoldable pub order_match :
      Moment F → PaymentRecord F → Target F → Option Strategy → ReconciliationMatch F
  unfolding strategy_name strategy_confidence is_partial
  order_match now pay t strategy =
      let partial = is_partial pay in
      record {
        match_id = codes "MATCH_ORD_" ++ now.hex;
        scope = "ORDER";
        work_key = pay.order_id;
        internal_payment_id = some pay.transaction_id;
        processor_transaction_id = some (target_id t);
        settlement_batch_id = target_batch t;
        bank_entry_id = none;
        amount = pay.amount;
        fees = target_fee t;
        net_amount = target_net t;
        confidence = strategy_confidence strategy;
        reason_code = if partial then "PARTIAL_PAYMENT_MATCH" else order_reason_code strategy;
        match_strategy = strategy_name strategy;
        matched_at = now.time 0;
        metadata =
            (codes "is_partial", Value.bool partial)
            ∷ (codes "date_diff_days", Value.int (pos (date_diff_days pay t)))
            ∷ (codes "amount_diff", Value.float (amount_diff pay t))
            ∷ (codes "desc_similarity", Value.float (desc_sim eng pay t))
            ∷ [];
      }

  -- The result at a target: without findings a match, which alone consumes the target.
  unfoldable pub conclude :
      Moment F
      → PaymentRecord F
      → Target F
      → Option Strategy
      → List Text
      → List (Finding F)
      → Outcome F × List Text
  unfolding findings_exception order_match
  conclude now pay t strategy consumed [] =
      ((some (order_match now pay t strategy), none), target_id t ∷ consumed)
  conclude now pay t strategy consumed (f0 ∷ rest) =
      ((none, some (findings_exception now pay t f0 rest)), consumed)

  -- Steps 3 to 5 at a target.
  unfoldable pub evaluate_target :
      Moment F
      → PaymentRecord F
      → List (Finding F)
      → Target F
      → List Text
      → Result (Outcome F × List Text)
  unfolding conclude currency_findings pass_findings fee_findings staged_pass
  evaluate_target now pay earlier t consumed = do
    fee ← fee_findings eng pay t
    let pass = staged_pass eng pay t
    ok (
        conclude now pay t (passed pass) consumed
          (earlier ++ (currency_findings pay t ++ (pass_findings eng pay t pass ++ fee))))

  -- No target: a duplicate posting whose partner is consumed, or a missing processor.
  unfoldable pub no_target : Moment F → PaymentRecord F → List (Finding F) → List Entry → Outcome F
  unfolding duplicate_internal missing_exception missing_processor
  no_target now pay findings pay_indexes =
      if ltb 1 (length pay_indexes)
      then (
        none,
        some (
            duplicate_internal now pay (map (λ e. e.1) pay_indexes)
              (Reason.partner_consumed pay.order_id)),
      )
      else (none, some (missing_exception now pay findings (missing_processor pay)))

  -- On from step 2, with the target or without one.
  unfoldable pub proceed :
      Moment F
      → PaymentRecord F
      → List (Finding F)
      → List Entry
      → List Text
      → Option (Target F)
      → Result (Outcome F × List Text)
  unfolding evaluate_target no_target
  proceed now pay findings pay_indexes consumed none =
      ok (no_target now pay findings pay_indexes, consumed)
  proceed now pay findings pay_indexes consumed (some t) =
      evaluate_target now pay findings t consumed

  -- Steps 1 to 2, and on with the target that they find.
  unfoldable pub reconcile_unique :
      Option IndexMap
      → Option (Dict (List Entry))
      → Moment F
      → PaymentRecord F
      → List Entry
      → List Text
      → Result (Outcome F × List Text)
  unfolding proceed refund_findings invoice_findings duplicate_processors find_target order_indexes
      unconsumed
  reconcile_unique omap tmap now pay pay_indexes consumed = do
    refunds ← refund_findings eng omap pay
    invoices ← invoice_findings eng omap pay
    let procs = order_indexes eng.db omap pay.order_id "PROCESSOR"
    let available = unconsumed consumed procs
    target ← find_target eng tmap pay available consumed
    proceed now pay (refunds ++ (invoices ++ duplicate_processors pay procs available)) pay_indexes
        consumed target

  -- `reconcile_order`: the outcome, and the consumed ids behind it. A raise leaves them as before.
  unfoldable pub reconcile_order :
      Option IndexMap
      → Option (Dict (List Entry))
      → Moment F
      → PaymentRecord F
      → List Text
      → Result (Outcome F × List Text)
  unfolding reconcile_unique duplicate_internal truthy_field order_indexes
  reconcile_order omap tmap now pay consumed =
      let pay_indexes = order_indexes eng.db omap pay.order_id "PAYMENT" in
      if truthy_field pay.metadata (codes "is_duplicate")
      then ok (
        (
          none,
          some
              (duplicate_internal now pay (pay.order_id ∷ []) (Reason.duplicate_flag pay.order_id)),
        ),
        consumed,
      )
      else if ltb 1 (length pay_indexes) && not (str_eq eng.rules.topology "BANK_GL")
      then ok (
        (
          none,
          some (
              duplicate_internal now pay (map (λ e. e.1) pay_indexes)
                (Reason.duplicate_records pay.order_id)),
        ),
        consumed,
      )
      else reconcile_unique omap tmap now pay pay_indexes consumed
