-- ===== src/Matcher/Outcomes.antt =====
-- recon/matcher.py: the result of a call of `reconcile_order`, branch by branch.
use text.Mathlib.Text.{◌==◌ as str_eq}
use mathlib.Core.Path.{subst}
use vault_recon_ai.Prelude.{
  Bool-cases, List, Option, [], inl, inr, length, ltb, none, not, refl, some, ◌&&◌, ◌++◌, ◌∷◌, ◌≡◌,
  ◌⊎◌,
}
use vault_recon_ai.Dict.{Dict}
use vault_recon_ai.Exceptions.{FinancialException, Finding, Moment}
use vault_recon_ai.Float.{Float}
use vault_recon_ai.Matcher.{Engine, Outcome, ReconciliationMatch}
use vault_recon_ai.Matcher.Index.{Entry, IndexMap, order_indexes, unconsumed}
use vault_recon_ai.Matcher.Order.{
  conclude, evaluate_target, findings_exception, no_target, order_match, proceed, reconcile_order,
  reconcile_unique,
}
use vault_recon_ai.Matcher.Order.Checks.{
  duplicate_processors, fee_findings, invoice_findings, refund_findings,
}
use vault_recon_ai.Matcher.Order.Passes.{Strategy, passed, staged_pass}
use vault_recon_ai.Matcher.Order.Targets.{Target, find_target, target_id}
use vault_recon_ai.Result.{>>=-eq-ok, ok, ok-injective}
use vault_recon_ai.Schemas.{PaymentRecord}
use vault_recon_ai.Text.{Text, codes}
use vault_recon_ai.Value.{truthy_field}

module _ {F : Type 0} ⦃d : Float F⦄ where
  -- An exception as the matcher leaves it: open, for the payment's merchant, with one event.
  abbrev pub IsFresh : PaymentRecord F → FinancialException F → Type 0
  IsFresh pay x =
      (x.status ≡ "OPEN") × (x.merchant_id ≡ pay.merchant_id) × (length x.audit_trail ≡ 1)

  -- A match that consumes one id, or a fresh exception that consumes none.
  abbrev pub OneResult : PaymentRecord F → List Text → Outcome F × List Text → Type 0
  OneResult pay consumed (o, c) =
      ((m : ReconciliationMatch F) × (id : Text) × (o ≡ (some m, none)) × (c ≡ id ∷ consumed))
      ⊎ ((x : FinancialException F) × (o ≡ (none, some x)) × IsFresh pay x × (c ≡ consumed))

module _ {F : Type 0} ⦃d : Float F⦄ (eng : Engine F) where
  conclude-OneResult :
      (now : Moment F) (pay : PaymentRecord F) (t : Target F) (s : Option Strategy)
      (consumed : List Text) (findings : List (Finding F))
      → OneResult pay consumed (conclude eng now pay t s consumed findings)
  unfolding conclude
  conclude-OneResult now pay t s consumed [] =
      inl (order_match eng now pay t s, target_id t, refl, refl)
  conclude-OneResult now pay t s consumed (f ∷ fs) =
      inr (findings_exception eng now pay t f fs, refl, (refl, refl, refl), refl)

  no_target-OneResult :
      (now : Moment F) (pay : PaymentRecord F) (findings : List (Finding F)) (entries : List Entry)
      (consumed : List Text)
      → OneResult pay consumed (no_target eng now pay findings entries, consumed)
  unfolding no_target
  no_target-OneResult now pay findings entries consumed =
      elim (Bool-cases (ltb 1 (length entries))) [
        | inl e ↦ rw e (inr (_, refl, (refl, refl, refl), refl))
        | inr e ↦ rw e (inr (_, refl, (refl, refl, refl), refl))
      ]

  evaluate_target-OneResult :
      (now : Moment F) (pay : PaymentRecord F) (earlier : List (Finding F)) (t : Target F)
      (consumed : List Text) {r : Outcome F × List Text}
      → evaluate_target eng now pay earlier t consumed ≡ ok r
      → OneResult pay consumed r
  unfolding evaluate_target
  evaluate_target-OneResult now pay earlier t consumed h =
      let (fee, _, rest) = >>=-eq-ok (fee_findings eng pay t) _ h in
      subst (OneResult pay consumed) (ok-injective rest)
        (conclude-OneResult now pay t (passed (staged_pass eng pay t)) consumed _)

  proceed-OneResult :
      (now : Moment F) (pay : PaymentRecord F) (findings : List (Finding F)) (entries : List Entry)
      (consumed : List Text) (target : Option (Target F)) {r : Outcome F × List Text}
      → proceed eng now pay findings entries consumed target ≡ ok r
      → OneResult pay consumed r
  unfolding proceed
  proceed-OneResult now pay findings entries consumed none h =
      subst (OneResult pay consumed) (ok-injective h)
        (no_target-OneResult now pay findings entries consumed)
  proceed-OneResult now pay findings entries consumed (some t) h =
      evaluate_target-OneResult now pay findings t consumed h

  reconcile_unique-OneResult :
      (omap : Option IndexMap) (tmap : Option (Dict (List Entry))) (now : Moment F)
      (pay : PaymentRecord F) (entries : List Entry) (consumed : List Text)
      {r : Outcome F × List Text}
      → reconcile_unique eng omap tmap now pay entries consumed ≡ ok r
      → OneResult pay consumed r
  unfolding reconcile_unique
  reconcile_unique-OneResult omap tmap now pay entries consumed h =
      let (refunds, _, h1) = >>=-eq-ok (refund_findings eng omap pay) _ h in
      let (invoices, _, h2) = >>=-eq-ok (invoice_findings eng omap pay) _ h1 in
      let procs = order_indexes eng.db omap pay.order_id "PROCESSOR" in
      let available = unconsumed consumed procs in
      let (target, _, h3) = >>=-eq-ok (find_target eng tmap pay available consumed) _ h2 in
      proceed-OneResult now pay (refunds ++ (invoices ++ duplicate_processors pay procs available))
        entries consumed target h3

  -- A call that returns gives a match and no exception, and consumes one more id; or an exception
  -- and no match, and consumes nothing. The exception is open, bears the payment's merchant, and
  -- has one audit event.
  pub reconcile_order-OneResult :
      (omap : Option IndexMap) (tmap : Option (Dict (List Entry))) (now : Moment F)
      (pay : PaymentRecord F) (consumed : List Text) {r : Outcome F × List Text}
      → reconcile_order eng omap tmap now pay consumed ≡ ok r
      → OneResult pay consumed r
  unfolding reconcile_order
  reconcile_order-OneResult omap tmap now pay consumed h =
      let entries = order_indexes eng.db omap pay.order_id "PAYMENT" in
      elim (Bool-cases (truthy_field pay.metadata (codes "is_duplicate"))) [
        | inl e ↦
            subst (OneResult pay consumed) (ok-injective (rw e at h))
              (inr (_, refl, (refl, refl, refl), refl))
        | inr e ↦
            elim (Bool-cases
              (ltb 1 (length entries) && not (str_eq eng.rules.topology "BANK_GL"))) [
                | inl e2 ↦
                    subst (OneResult pay consumed) (ok-injective (rw (e, e2) at h))
                      (inr (_, refl, (refl, refl, refl), refl))
                | inr e2 ↦
                    reconcile_unique-OneResult omap tmap now pay entries consumed (rw (e, e2) at h)
              ]
      ]
