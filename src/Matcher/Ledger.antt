-- ===== src/Matcher/Ledger.antt =====
-- recon/matcher.py: an abstract view of the order loop of `reconcile_all`, a ledger of settled
-- payments and taken targets.
use mathlib.Core.List.{map-append}
use mathlib.Core.Path.{subst}
use vault_recon_ai.Prelude.{
  List, Option, [], ap, false, inl, inr, length, map, none, or_default, some, suc, sym, ℕ, ◌++◌,
  ◌+◌, ◌∙◌, ◌∷◌, ◌≡◌,
}
use vault_recon_ai.Dict.{Dict}
use vault_recon_ai.Exceptions.{FinancialException, Moment}
use vault_recon_ai.Float.{Float}
use vault_recon_ai.Matcher.{Engine, Outcome, ReconciliationMatch}
use vault_recon_ai.Matcher.Index.{Entry, IndexMap, build_index, build_settle}
use vault_recon_ai.Matcher.OneToOne.{IsKeyed, reconcile_order-unconsumed}
use vault_recon_ai.Matcher.Order.{reconcile_order}
use vault_recon_ai.Matcher.Outcomes.{reconcile_order-OneResult}
use vault_recon_ai.Matcher.Run.{
  MatcherReport, RunState, add_order, fresh_state, order_loop, payments_of, processor_loop,
  reconcile_all, report_of, run_loops,
}
use vault_recon_ai.Matcher.RunOneToOne.{batch_loop_keeps, processor_loop_keeps}
use vault_recon_ai.Matcher.Sound.{reconcile_order-IsSound}
use vault_recon_ai.Result.{>>=-eq-ok, none_ne_some, ok, ok-injective}
use vault_recon_ai.Schemas.{PaymentRecord}
use vault_recon_ai.Text.{Text, codes, contains}
use vault_recon_ai.Vault.{scan_prefix}

pub record Ledger : Type 0 where
  pub settled : List (Text × Text)
  pub taken : List Text

-- What may happen to one payment.
pub data Step (pay : Text) : Ledger → Ledger → Type 0 where
  settle :
      {l : Ledger} (t : Text)
      → contains l.taken t ≡ false
      → Step pay l (record { settled = l.settled ++ (pay, t) ∷ []; taken = t ∷ l.taken })
  refuse : {l : Ledger} → Step pay l l

-- The payments in turn.
pub data Steps : List Text → Ledger → Ledger → Type 0 where
  finished : {l : Ledger} → Steps [] l l
  and_then :
      {pay : Text} {pays : List Text} {l m k : Ledger}
      → Step pay l m
      → Steps pays m k
      → Steps (pay ∷ pays) l k

abbrev pub empty_ledger : Ledger
empty_ledger = record { settled = []; taken = [] }

-- The payment and the target that a match names.
abbrev pub pair_of : {F : Type 0} → ReconciliationMatch F → Text × Text
pair_of m = (or_default m.internal_payment_id [], or_default m.processor_transaction_id [])

abbrev pub ledger_of : {F : Type 0} → RunState F → Ledger
ledger_of st = record { settled = map pair_of st.order_matches; taken = st.consumed }

module _ {F : Type 0} ⦃d : Float F⦄ (eng : Engine F) where
  add_order-settle :
      (pay : Text) (m : ReconciliationMatch F) (x : Option (FinancialException F)) (t : Text)
      (st : RunState F)
      → m.internal_payment_id ≡ some pay
      → m.processor_transaction_id ≡ some t
      → contains st.consumed t ≡ false
      → Step pay (ledger_of st) (ledger_of (add_order (some m, x) (t ∷ st.consumed) st))
  unfolding add_order
  add_order-settle pay m x t st p q free =
      rw (map-append pair_of st.order_matches (m ∷ []), p, q) (settle t free)

  module _ (keyed : IsKeyed eng) where
    reconcile_order-Step :
        (omap : Option IndexMap) (tmap : Option (Dict (List Entry))) (now : Moment F)
        (pay : PaymentRecord F) (st : RunState F) (r : Outcome F × List Text)
        → reconcile_order eng omap tmap now pay st.consumed ≡ ok r
        → Step pay.transaction_id (ledger_of st) (ledger_of (add_order r.0 r.1 st))
    unfolding add_order
    reconcile_order-Step omap tmap now pay st ((some m, x), c) h =
        let (t, found, sound) = reconcile_order-IsSound eng omap tmap now pay st.consumed h in
        let (id, named, taken, free) =
          reconcile_order-unconsumed eng keyed omap tmap now pay st.consumed h in
        rw taken (add_order-settle pay.transaction_id m x id st sound.payment_id named free)
    reconcile_order-Step omap tmap now pay st ((none, x), c) h =
        elim (reconcile_order-OneResult eng omap tmap now pay st.consumed h) [
          | inl (m, id, e, taken) ↦ absurd (none_ne_some (ap (λ (o : Outcome F). o.0) e))
          | inr (y, e, fresh, kept) ↦ rw kept refuse
        ]

    order_loop-Steps :
        (omap : Option IndexMap) (tmap : Option (Dict (List Entry))) (moments : ℕ → Moment F)
        (n : ℕ) (pays : List (PaymentRecord F)) (st : RunState F) {st' : RunState F}
        → order_loop eng omap tmap moments n pays st ≡ ok st'
        → Steps (map (λ p. p.transaction_id) pays) (ledger_of st) (ledger_of st')
    unfolding order_loop
    order_loop-Steps omap tmap moments n [] st h =
        subst (λ s. Steps [] (ledger_of st) (ledger_of s)) (ok-injective h) finished
    order_loop-Steps omap tmap moments n (pay ∷ pays) st h =
        let (r, e, rest) =
          >>=-eq-ok (reconcile_order eng omap tmap (moments n) pay st.consumed) _ h in
        and_then (reconcile_order-Step omap tmap (moments n) pay st r e)
          (order_loop-Steps omap tmap moments (suc n) pays (add_order r.0 r.1 st) rest)

    -- Where each record is stored under a key that ends in its id, a run that returns refines the
    -- ledger: from the empty one, each of its payments in order is
    -- settled with a target that is not taken, or is refused, and the order matches of the report
    -- are the settled pairs, in order.
    pub reconcile_all-Steps :
        (t_start t_end : F) (moments : ℕ → Moment F) (payments : Option (List (PaymentRecord F)))
        {report : MatcherReport F}
        → reconcile_all eng t_start t_end moments payments ≡ ok report
        → (pays : List (PaymentRecord F)) × (payments_of eng payments ≡ ok pays)
          × ((l : Ledger) × Steps (map (λ p. p.transaction_id) pays) empty_ledger l
              × (l.settled ≡ map pair_of report.order_matches))
    unfolding reconcile_all report_of run_loops
    reconcile_all-Steps t_start t_end moments payments h =
        let omap = build_index (scan_prefix eng.db (codes "IDX:ORDER:")) in
        let rmap = build_index (scan_prefix eng.db (codes "IDX:REF:")) in
        let tmap = build_settle (scan_prefix eng.db (codes "IDX:TXN:")) in
        let procs = scan_prefix eng.db (codes "REC:PROCESSOR:") in
        let batches = scan_prefix eng.db (codes "REC:BATCH:") in
        let (pays, given, h1) = >>=-eq-ok (payments_of eng payments) _ h in
        let (st, e, h2) = >>=-eq-ok (run_loops eng moments pays) _ h1 in
        let (st1, e1, k1) =
          >>=-eq-ok (order_loop eng (some omap) (some tmap) moments 0 pays fresh_state) _ e in
        let (st2, e2, k2) =
          >>=-eq-ok (processor_loop eng omap moments (length pays) procs st1) _ k1 in
        let same =
          batch_loop_keeps eng keyed rmap moments (length pays + length procs) batches st2 k2
          ∙ processor_loop_keeps eng keyed omap moments (length pays) procs st1 e2 in
        (
          pays,
          given,
          (
            ledger_of st1,
            order_loop-Steps (some omap) (some tmap) moments 0 pays fresh_state e1,
            ap (λ ms. map pair_of ms) (sym same)
                ∙ ap (λ (rep : MatcherReport F). map pair_of rep.order_matches) (ok-injective h2),
          ),
        )
