-- ===== src/Matcher/Sound.antt =====
-- recon/matcher.py: what a match of `reconcile_order` has passed.
use text.Mathlib.Text.{◌==◌ as str_eq}
use vault_recon_ai.Prelude.{
  Bool-cases, List, Option, [], append-eq_nil, arith, false, inl, inr, length, ltb, none, not, refl,
  some, true, ◌&&◌, ◌++◌, ◌∷◌, ◌≡◌, ◌⊎◌,
}
use vault_recon_ai.Dict.{Dict}
use vault_recon_ai.Exceptions.{FinancialException, Finding, Moment}
use vault_recon_ai.Float.{Float, ◌≼◌}
use vault_recon_ai.Matcher.{Engine, ReconciliationMatch}
use vault_recon_ai.Matcher.Index.{Entry, IndexMap, order_indexes, unconsumed}
use vault_recon_ai.Matcher.Order.{
  conclude, evaluate_target, no_target, order_match, proceed, reconcile_order, reconcile_unique,
}
use vault_recon_ai.Matcher.Order.Checks.{
  currency_findings, duplicate_processors, expected_fee, fee_check, fee_findings, invoice_findings,
  refund_findings,
}
use vault_recon_ai.Matcher.Order.Passes.{
  Pass, Strategy, amount_diff, date_diff_days, match_strategy, mismatch, name_of, pass_findings,
  passed, staged_pass, strategy_name, strong_reference,
}
use vault_recon_ai.Matcher.Order.Targets.{
  Target, find_target, target_currency, target_fee, target_id,
}
use vault_recon_ai.Prelude.Int.{leb_ℤ, pos}
use vault_recon_ai.Result.{>>=-eq-ok, ok, ok-injective}
use vault_recon_ai.Rules.{is_amount_matching, is_currency_matching}
use vault_recon_ai.Schemas.{PaymentRecord}
use vault_recon_ai.Text.{Text, codes}
use vault_recon_ai.Value.{truthy_field}

-- What each pass has established of a payment and its target.
module _ {F : Type 0} ⦃d : Float F⦄ (eng : Engine F) where
  open d use {lit, le}

  abbrev pub Within : PaymentRecord F → Target F → Strategy → Type 0
  Within pay t Strategy.exact = (amount_diff pay t ≼ lit 1 2) × (date_diff_days pay t ≡ 0)
  Within pay t Strategy.timing =
      (amount_diff pay t ≼ lit 1 2)
      × (leb_ℤ (pos (date_diff_days pay t)) eng.rules.timing_window_days ≡ true)
  Within pay t Strategy.tolerance =
      (amount_diff pay t ≼ eng.rules.amount_tolerance)
      × (leb_ℤ (pos (date_diff_days pay t)) eng.rules.tolerance_window_days ≡ true)
      × (strong_reference eng pay t ≡ true)

  -- The fee is not checked, or a policy is known and its fee is within the tolerance.
  abbrev pub FeeAgrees : PaymentRecord F → Target F → Type 0
  FeeAgrees pay t =
      (eng.rules.enable_fee_validation && not (str_eq eng.rules.topology "BANK_GL") ≡ false)
      ⊎ ((fee : F) × (expected_fee eng pay t ≡ ok (some fee))
          × (is_amount_matching fee (target_fee t) eng.rules.amount_tolerance ≡ true))

  staged_pass-Within :
      (pay : PaymentRecord F) (t : Target F) (s : Strategy)
      → staged_pass eng pay t ≡ match_strategy s
      → Within pay t s
  unfolding staged_pass
  staged_pass-Within pay t Strategy.exact h = ground arith
  staged_pass-Within pay t Strategy.timing h = ground arith
  staged_pass-Within pay t Strategy.tolerance h = ground arith

  pass_findings-nil :
      (pay : PaymentRecord F) (t : Target F) (p : Pass F)
      → pass_findings eng pay t p ≡ []
      → (s : Strategy) × (p ≡ match_strategy s)
  unfolding pass_findings
  pass_findings-nil pay t (match_strategy s) h = (s, refl)
  pass_findings-nil pay t (mismatch why) h = cc

  fee_check-nil :
      (pay : PaymentRecord F) (t : Target F) (o : Option F)
      → fee_check eng pay t o ≡ []
      → (fee : F) × (o ≡ some fee)
        × (is_amount_matching fee (target_fee t) eng.rules.amount_tolerance ≡ true)
  unfolding fee_check
  fee_check-nil pay t none h = cc
  fee_check-nil pay t (some fee) h = (fee, refl, ground arith)

  fee_findings-FeeAgrees :
      (pay : PaymentRecord F) (t : Target F) → fee_findings eng pay t ≡ ok [] → FeeAgrees pay t
  unfolding fee_findings
  fee_findings-FeeAgrees pay t h =
      elim (Bool-cases
        (eng.rules.enable_fee_validation && not (str_eq eng.rules.topology "BANK_GL"))) [
          | inl on ↦
              let (o, at, h2) = >>=-eq-ok (expected_fee eng pay t) _ (rw on at h) in
              let (fee, is, agrees) = fee_check-nil pay t o (ok-injective h2) in
              inr (fee, rw is at at, agrees)
          | inr off ↦ inl off
        ]

  currency_findings-nil :
      (pay : PaymentRecord F) (t : Target F)
      → currency_findings pay t ≡ []
      → is_currency_matching pay.currency (target_currency t) ≡ true
  unfolding currency_findings
  currency_findings-nil pay t h = ground arith

  -- What a match says of its target and its consumed ids.
  pub record IsSound (pay : PaymentRecord F) (consumed : List Text) (m : ReconciliationMatch F)
      (consumed' : List Text) (target : Target F) : Type 0 where
    pub strategy : Strategy
    pub within : Within pay target strategy
    pub same_currency : is_currency_matching pay.currency (target_currency target) ≡ true
    pub fee_agrees : FeeAgrees pay target
    pub order : m.work_key ≡ pay.order_id
    pub payment_id : m.internal_payment_id ≡ some pay.transaction_id
    pub target_matched : m.processor_transaction_id ≡ some (target_id target)
    pub amounts : (m.amount ≡ pay.amount) × (m.fees ≡ target_fee target)
    pub strategy_named : m.match_strategy ≡ name_of strategy
    pub now_consumed : consumed' ≡ target_id target ∷ consumed

  -- The target that step 2 finds for a payment.
  abbrev pub FoundTarget :
      Option IndexMap → Option (Dict (List Entry)) → PaymentRecord F → List Text → Target F → Type 0
  FoundTarget omap tmap pay consumed t =
      find_target eng tmap pay
        (unconsumed consumed (order_indexes eng.db omap pay.order_id "PROCESSOR")) consumed
      ≡ ok (some t)

  conclude-match :
      (now : Moment F) (pay : PaymentRecord F) (t : Target F) (s : Option Strategy)
      (consumed : List Text) (findings : List (Finding F)) {m : ReconciliationMatch F}
      {x : Option (FinancialException F)} {c : List Text}
      → conclude eng now pay t s consumed findings ≡ ((some m, x), c)
      → (findings ≡ []) × (order_match eng now pay t s ≡ m) × (c ≡ target_id t ∷ consumed)
  unfolding conclude
  conclude-match now pay t s consumed [] h = (refl, cc, cc)
  conclude-match now pay t s consumed (f ∷ fs) h = cc

  -- The fields of the match that a passed strategy makes.
  order_match_fields :
      (now : Moment F) (pay : PaymentRecord F) (t : Target F) (s : Strategy)
      {m : ReconciliationMatch F}
      → order_match eng now pay t (some s) ≡ m
      → (m.work_key ≡ pay.order_id)
        × (m.internal_payment_id ≡ some pay.transaction_id)
        × (m.processor_transaction_id ≡ some (target_id t))
        × ((m.amount ≡ pay.amount) × (m.fees ≡ target_fee t))
        × (m.match_strategy ≡ name_of s)
  unfolding order_match strategy_name
  order_match_fields now pay t s e = rw (← e) (refl, refl, refl, (refl, refl), refl)

  evaluate_target-IsSound :
      (now : Moment F) (pay : PaymentRecord F) (earlier : List (Finding F)) (t : Target F)
      (consumed : List Text) {m : ReconciliationMatch F} {x : Option (FinancialException F)}
      {c : List Text}
      → evaluate_target eng now pay earlier t consumed ≡ ok ((some m, x), c)
      → IsSound pay consumed m c t
  unfolding evaluate_target
  evaluate_target-IsSound now pay earlier t consumed {m} {x} {c} h =
      let (fee, found, rest) = >>=-eq-ok (fee_findings eng pay t) _ h in
      let pass = staged_pass eng pay t in
      let (empty, made, taken) =
        conclude-match now pay t (passed pass) consumed
          (earlier ++ (currency_findings pay t ++ (pass_findings eng pay t pass ++ fee)))
          (ok-injective rest) in
      let (_, later) = append-eq_nil earlier _ empty in
      let (currency, last) = append-eq_nil (currency_findings pay t) _ later in
      let (passes, fees) = append-eq_nil (pass_findings eng pay t pass) _ last in
      let (s, is) = pass_findings-nil pay t pass passes in
      let fields = order_match_fields now pay t s (rw is at made) in
      record {
        strategy = s;
        within = staged_pass-Within pay t s is;
        same_currency = currency_findings-nil pay t currency;
        fee_agrees = fee_findings-FeeAgrees pay t (rw fees at found);
        order = fields.0;
        payment_id = fields.1;
        target_matched = fields.2;
        amounts = fields.3;
        strategy_named = fields.4;
        now_consumed = taken;
      }

  proceed-IsSound :
      (now : Moment F) (pay : PaymentRecord F) (findings : List (Finding F)) (entries : List Entry)
      (consumed : List Text) (target : Option (Target F)) {m : ReconciliationMatch F}
      {x : Option (FinancialException F)} {c : List Text}
      → proceed eng now pay findings entries consumed target ≡ ok ((some m, x), c)
      → (t : Target F) × (target ≡ some t) × IsSound pay consumed m c t
  unfolding proceed no_target
  proceed-IsSound now pay findings entries consumed none h = ground arith
  proceed-IsSound now pay findings entries consumed (some t) h =
      (t, refl, evaluate_target-IsSound now pay findings t consumed h)

  reconcile_unique-IsSound :
      (omap : Option IndexMap) (tmap : Option (Dict (List Entry))) (now : Moment F)
      (pay : PaymentRecord F) (entries : List Entry) (consumed : List Text)
      {m : ReconciliationMatch F} {x : Option (FinancialException F)} {c : List Text}
      → reconcile_unique eng omap tmap now pay entries consumed ≡ ok ((some m, x), c)
      → (t : Target F) × FoundTarget omap tmap pay consumed t × IsSound pay consumed m c t
  unfolding reconcile_unique
  reconcile_unique-IsSound omap tmap now pay entries consumed h =
      let (refunds, _, h1) = >>=-eq-ok (refund_findings eng omap pay) _ h in
      let (invoices, _, h2) = >>=-eq-ok (invoice_findings eng omap pay) _ h1 in
      let procs = order_indexes eng.db omap pay.order_id "PROCESSOR" in
      let available = unconsumed consumed procs in
      let (target, at, h3) = >>=-eq-ok (find_target eng tmap pay available consumed) _ h2 in
      let (t, is, sound) =
        proceed-IsSound now pay (refunds ++ (invoices ++ duplicate_processors pay procs available))
          entries consumed target h3 in
      (t, rw is at at, sound)

  -- A match has the target that step 2 finds among the entries whose keys do not end in a consumed
  -- id. The amounts differ by at most 0.01 and the days by none (EXACT) or by at most the timing
  -- window (TIMING), or by at most the tolerances with a strong reference (TOLERANCE); the
  -- currencies agree; and the fee is within the tolerance of the one that the rules expect, unless
  -- fees are not checked. The match carries the payment's order, id and amount and the target's id
  -- and fee, and the target's id is consumed by it.
  pub reconcile_order-IsSound :
      (omap : Option IndexMap) (tmap : Option (Dict (List Entry))) (now : Moment F)
      (pay : PaymentRecord F) (consumed : List Text) {m : ReconciliationMatch F}
      {x : Option (FinancialException F)} {c : List Text}
      → reconcile_order eng omap tmap now pay consumed ≡ ok ((some m, x), c)
      → (t : Target F) × FoundTarget omap tmap pay consumed t × IsSound pay consumed m c t
  unfolding reconcile_order
  reconcile_order-IsSound omap tmap now pay consumed {m} {x} {c} h =
      let entries = order_indexes eng.db omap pay.order_id "PAYMENT" in
      elim (Bool-cases (truthy_field pay.metadata (codes "is_duplicate"))) [
        | inl e ↦ absurd (let h' = rw e at h in cc)
        | inr e ↦
            elim (Bool-cases
              (ltb 1 (length entries) && not (str_eq eng.rules.topology "BANK_GL"))) [
                | inl e2 ↦ absurd (let h' = rw (e, e2) at h in cc)
                | inr e2 ↦
                    reconcile_unique-IsSound omap tmap now pay entries consumed (rw (e, e2) at h)
              ]
      ]
