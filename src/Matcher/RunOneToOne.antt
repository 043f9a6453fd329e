-- ===== src/Matcher/RunOneToOne.antt =====
-- recon/matcher.py: the targets of the order matches of a run.
use mathlib.Core.Path.{subst}
use vault_recon_ai.Prelude.{
  Bool-cases, List, Option, [], ap, arith, false, inl, inr, is_empty, length, length-append, none,
  not, refl, some, suc, sym, ℕ, ◌+◌, ◌||◌, ◌∙◌, ◌∷◌, ◌≡◌,
}
use vault_recon_ai.Dict.{Dict}
use vault_recon_ai.Exceptions.{FinancialException, Moment}
use vault_recon_ai.Float.{Float}
use vault_recon_ai.Matcher.{Engine, Outcome, ReconciliationMatch}
use vault_recon_ai.Matcher.Batch.{reconcile_batch}
use vault_recon_ai.Matcher.Distinct.{
  Distinct, Distinct-append, contains-append_cons, matched_ids, matched_ids-append,
}
use vault_recon_ai.Matcher.Index.{Entry, IndexMap, build_index, build_settle, indexes_of}
use vault_recon_ai.Matcher.OneToOne.{IsKeyed, reconcile_order-unconsumed}
use vault_recon_ai.Matcher.Order.{reconcile_order}
use vault_recon_ai.Matcher.Outcomes.{reconcile_order-OneResult}
use vault_recon_ai.Matcher.Run.{
  MatcherReport, RunState, add_batch, add_order, batch_loop, fresh_state, order_loop, payments_of,
  processor_loop, reconcile_all, report_of, run_loops,
}
use vault_recon_ai.Result.{>>=-eq-ok, none_ne_some, of_option, ok, ok-injective}
use vault_recon_ai.Rules.Similarity.{distinct}
use vault_recon_ai.Schemas.{PaymentRecord}
use vault_recon_ai.Text.{Text, codes, contains}
use vault_recon_ai.Vault.{scan_prefix}

-- The matched targets of a state are distinct, and are the consumed ids.
abbrev pub IsGreedy : {F : Type 0} → RunState F → Type 0
IsGreedy st =
    Distinct (matched_ids st.order_matches)
    × ((x : Text) → contains (matched_ids st.order_matches) x ≡ contains st.consumed x)
    × (length (matched_ids st.order_matches) ≡ length st.order_matches)

module _ {F : Type 0} ⦃d : Float F⦄ (eng : Engine F) where
  add_order-match :
      (m : ReconciliationMatch F) (x : Option (FinancialException F)) (id : Text) (st : RunState F)
      → m.processor_transaction_id ≡ some id
      → contains st.consumed id ≡ false
      → IsGreedy st
      → IsGreedy (add_order (some m, x) (id ∷ st.consumed) st)
  unfolding add_order
  add_order-match m x id st e free (distinct, same, all) =
      let ids = matched_ids st.order_matches in
      rw (matched_ids-append st.order_matches m id e) (
        Distinct-append ids id distinct (same id ∙ free),
        (λ x. contains-append_cons ids st.consumed id x (same x)),
        omega (
          arith,
          all,
          length-append {0} ids (id ∷ []),
          length-append {0} st.order_matches (m ∷ []),
        ),
      )

  module _ (keyed : IsKeyed eng) where
    step-IsGreedy :
        (omap : Option IndexMap) (tmap : Option (Dict (List Entry))) (now : Moment F)
        (pay : PaymentRecord F) (st : RunState F) (r : Outcome F × List Text)
        → IsGreedy st
        → reconcile_order eng omap tmap now pay st.consumed ≡ ok r
        → IsGreedy (add_order r.0 r.1 st)
    unfolding add_order
    step-IsGreedy omap tmap now pay st ((some m, x), c) g h =
        let (id, named, taken, free) =
          reconcile_order-unconsumed eng keyed omap tmap now pay st.consumed h in
        rw taken (add_order-match m x id st named free g)
    step-IsGreedy omap tmap now pay st ((none, x), c) g h =
        elim (reconcile_order-OneResult eng omap tmap now pay st.consumed h) [
          | inl (m, id, e, taken) ↦ absurd (none_ne_some (ap (λ (o : Outcome F). o.0) e))
          | inr (y, e, fresh, kept) ↦ rw kept g
        ]

    order_loop-IsGreedy :
        (omap : Option IndexMap) (tmap : Option (Dict (List Entry))) (moments : ℕ → Moment F)
        (n : ℕ) (pays : List (PaymentRecord F)) (st : RunState F) {st' : RunState F}
        → IsGreedy st
        → order_loop eng omap tmap moments n pays st ≡ ok st'
        → IsGreedy st'
    unfolding order_loop
    order_loop-IsGreedy omap tmap moments n [] st g h = subst IsGreedy (ok-injective h) g
    order_loop-IsGreedy omap tmap moments n (pay ∷ pays) st g h =
        let (r, e, rest) =
          >>=-eq-ok (reconcile_order eng omap tmap (moments n) pay st.consumed) _ h in
        order_loop-IsGreedy omap tmap moments (suc n) pays (add_order r.0 r.1 st)
          (step-IsGreedy omap tmap (moments n) pay st r g e) rest

    pub processor_loop_keeps :
        (omap : IndexMap) (moments : ℕ → Moment F) (n : ℕ) (es : List Entry) (st : RunState F)
        {st' : RunState F}
        → processor_loop eng omap moments n es st ≡ ok st'
        → st'.order_matches ≡ st.order_matches
    unfolding processor_loop
    processor_loop_keeps omap moments n [] st h =
        ap (λ (s : RunState F). s.order_matches) (sym (ok-injective h))
    processor_loop_keeps omap moments n (e ∷ es) st h =
        let (p, _, rest) = >>=-eq-ok (of_option (eng.codec.load_processor e.1)) _ h in
        elim (Bool-cases (
          contains st.consumed p.processor_transaction_id
          || not (is_empty (indexes_of omap p.order_id (codes "PAYMENT"))))) [
            | inl known ↦ processor_loop_keeps omap moments (suc n) es st (rw known at rest)
            | inr unknown ↦ processor_loop_keeps omap moments (suc n) es _ (rw unknown at rest)
          ]

    pub batch_loop_keeps :
        (rmap : IndexMap) (moments : ℕ → Moment F) (n : ℕ) (es : List Entry) (st : RunState F)
        {st' : RunState F}
        → batch_loop eng rmap moments n es st ≡ ok st'
        → st'.order_matches ≡ st.order_matches
    unfolding batch_loop add_batch
    batch_loop_keeps rmap moments n [] st h =
        ap (λ (s : RunState F). s.order_matches) (sym (ok-injective h))
    batch_loop_keeps rmap moments n (e ∷ es) st h =
        let (b, _, h1) = >>=-eq-ok (of_option (eng.codec.load_batch e.1)) _ h in
        let (o, _, h2) = >>=-eq-ok (reconcile_batch eng (some rmap) (moments n) b) _ h1 in
        batch_loop_keeps rmap moments (suc n) es (add_batch o st) h2

    run_loops-Distinct :
        (moments : ℕ → Moment F) (pays : List (PaymentRecord F)) {st : RunState F}
        → run_loops eng moments pays ≡ ok st
        → Distinct (matched_ids st.order_matches)
          × (length (matched_ids st.order_matches) ≡ length st.order_matches)
    unfolding run_loops
    run_loops-Distinct moments pays h =
        let omap = build_index (scan_prefix eng.db (codes "IDX:ORDER:")) in
        let rmap = build_index (scan_prefix eng.db (codes "IDX:REF:")) in
        let tmap = build_settle (scan_prefix eng.db (codes "IDX:TXN:")) in
        let procs = scan_prefix eng.db (codes "REC:PROCESSOR:") in
        let batches = scan_prefix eng.db (codes "REC:BATCH:") in
        let (st1, e1, h1) =
          >>=-eq-ok (order_loop eng (some omap) (some tmap) moments 0 pays fresh_state) _ h in
        let (st2, e2, h2) =
          >>=-eq-ok (processor_loop eng omap moments (length pays) procs st1) _ h1 in
        let greedy =
          order_loop-IsGreedy (some omap) (some tmap) moments 0 pays fresh_state
            (tt, (λ x. refl), refl) e1 in
        let same =
          batch_loop_keeps rmap moments (length pays + length procs) batches st2 h2
          ∙ processor_loop_keeps omap moments (length pays) procs st1 e2 in
        rw same (greedy.0, greedy.2)

    -- Every order match of a run that returns names a target, and no two name the same one, where
    -- each record is stored under a key that ends in its id.
    pub reconcile_all-Distinct :
        (t_start t_end : F) (moments : ℕ → Moment F) (payments : Option (List (PaymentRecord F)))
        {report : MatcherReport F}
        → reconcile_all eng t_start t_end moments payments ≡ ok report
        → Distinct (matched_ids report.order_matches)
          × (length (matched_ids report.order_matches) ≡ length report.order_matches)
    unfolding reconcile_all report_of
    reconcile_all-Distinct t_start t_end moments payments h =
        let (pays, _, h1) = >>=-eq-ok (payments_of eng payments) _ h in
        let (st, e, h2) = >>=-eq-ok (run_loops eng moments pays) _ h1 in
        rw (← ok-injective h2) (run_loops-Distinct moments pays e)
