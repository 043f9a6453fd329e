-- ===== src/Matcher/Counts.antt =====
-- recon/matcher.py: what a run's report counts.
use mathlib.Core.Path.{subst}
use vault_recon_ai.Prelude.{
  Bool-cases, List, Option, [], arith, inl, inr, is_empty, is_some, length, length-append, ltb,
  none, not, refl, some, suc, ℕ, ◌++◌, ◌+◌, ◌||◌, ◌∷◌, ◌≡◌, ◌≤◌,
}
use vault_recon_ai.Dict.{Dict}
use vault_recon_ai.Exceptions.{Moment}
use vault_recon_ai.Float.{Float}
use vault_recon_ai.Matcher.{Engine, Outcome}
use vault_recon_ai.Matcher.Batch.{
  bank_indexes, check_payout, reconcile_batch, reconcile_entries, settle_batch,
}
use vault_recon_ai.Matcher.Index.{Entry, IndexMap, build_index, build_settle, indexes_of}
use vault_recon_ai.Matcher.Order.{reconcile_order}
use vault_recon_ai.Matcher.Order.Targets.{load_first}
use vault_recon_ai.Matcher.Outcomes.{reconcile_order-OneResult}
use vault_recon_ai.Matcher.Run.{
  RunState, add_batch, add_order, batch_loop, fresh_state, order_loop, processor_loop,
  processor_only, run_loops,
}
use vault_recon_ai.Result.{>>=-eq-ok, of_option, ok, ok-injective}
use vault_recon_ai.Schemas.{BankTransactionRecord, PaymentRecord, SettlementBatch}
use vault_recon_ai.Text.{Text, codes, contains}
use vault_recon_ai.Vault.{scan_prefix}

-- `k` more inputs were answered, each by a match or by an exception.

abbrev Answered : {F : Type 0} → RunState F → RunState F → ℕ → Type 0
Answered st st' k =
    (length st'.matches + length st'.exceptions ≡ length st.matches + length st.exceptions + k)
    × (length st.matches ≤ length st'.matches)
    × (length st'.matches ≤ length st.matches + k)
    × (length st'.matches + (length st.order_matches + length st.batch_matches)
        ≡ length st.matches + (length st'.order_matches + length st'.batch_matches))

-- A match or an exception, and not both.
abbrev pub IsOne : {F : Type 0} → Outcome F → Type 0
IsOne o = is_some o.0 ≡ not (is_some o.1)

-- What a run over `k` payments and batches and `p` processor records has counted.
abbrev pub IsTallied : ℕ → ℕ → ℕ → ℕ → ℕ → ℕ → Type 0
IsTallied k p matches exceptions orders batches =
    (matches ≡ orders + batches)
    × (matches ≤ k)
    × (k ≤ matches + exceptions)
    × (matches + exceptions ≤ k + p)

module _ {F : Type 0} where
  add_order-Answered :
      (o : Outcome F) (c : List Text) (st : RunState F) → IsOne o → Answered st (add_order o c st) 1
  unfolding add_order
  add_order-Answered (some m, none) c st one =
      omega
        (arith, length-append {0} st.matches (m ∷ []), length-append {0} st.order_matches (m ∷ []))
  add_order-Answered (none, some x) c st one =
      omega (arith, length-append {0} st.exceptions (x ∷ []))
  add_order-Answered (some m, some x) c st one = cc
  add_order-Answered (none, none) c st one = cc

  add_batch-Answered : (o : Outcome F) (st : RunState F) → IsOne o → Answered st (add_batch o st) 1
  unfolding add_batch
  add_batch-Answered (some m, none) st one =
      omega
        (arith, length-append {0} st.matches (m ∷ []), length-append {0} st.batch_matches (m ∷ []))
  add_batch-Answered (none, some x) st one = omega (arith, length-append {0} st.exceptions (x ∷ []))
  add_batch-Answered (some m, some x) st one = cc
  add_batch-Answered (none, none) st one = cc

module _ {F : Type 0} ⦃d : Float F⦄ (eng : Engine F) where
  settle_batch-IsOne :
      (now : Moment F) (b : SettlementBatch F) (found : Option (BankTransactionRecord F))
      → IsOne (settle_batch eng now b found)
  unfolding settle_batch check_payout
  settle_batch-IsOne now b none = refl
  settle_batch-IsOne now b (some txn) = ground arith

  -- A call of `reconcile_batch` that returns gives a match or an exception, and never both.
  pub reconcile_batch-IsOne :
      (rmap : Option IndexMap) (now : Moment F) (b : SettlementBatch F) {o : Outcome F}
      → reconcile_batch eng rmap now b ≡ ok o
      → IsOne o
  unfolding reconcile_batch reconcile_entries
  reconcile_batch-IsOne rmap now b h =
      let found = bank_indexes eng rmap b.batch_id in
      elim (Bool-cases (ltb 1 (length found))) [
        | inl many ↦ subst IsOne (ok-injective (rw many at h)) refl
        | inr few ↦
            let (txn, _, rest) =
              >>=-eq-ok (load_first eng.db eng.codec.load_bank found) _ (rw few at h) in
            subst IsOne (ok-injective rest) (settle_batch-IsOne now b txn)
      ]

  reconcile_order-IsOne :
      (omap : Option IndexMap) (tmap : Option (Dict (List Entry))) (now : Moment F)
      (pay : PaymentRecord F) (consumed : List Text) (r : Outcome F × List Text)
      → reconcile_order eng omap tmap now pay consumed ≡ ok r
      → IsOne r.0
  reconcile_order-IsOne omap tmap now pay consumed r h =
      elim (reconcile_order-OneResult eng omap tmap now pay consumed h) [
        | inl (m, id, e, taken) ↦ rw e refl
        | inr (x, e, fresh, kept) ↦ rw e refl
      ]

  order_loop-Answered :
      (omap : Option IndexMap) (tmap : Option (Dict (List Entry))) (moments : ℕ → Moment F) (n : ℕ)
      (pays : List (PaymentRecord F)) (st : RunState F) {st' : RunState F}
      → order_loop eng omap tmap moments n pays st ≡ ok st'
      → Answered st st' (length pays)
  unfolding order_loop
  order_loop-Answered omap tmap moments n [] st h = rw (← ok-injective h) (omega arith)
  order_loop-Answered omap tmap moments n (pay ∷ pays) st h =
      let (r, e, rest) =
        >>=-eq-ok (reconcile_order eng omap tmap (moments n) pay st.consumed) _ h in
      let first =
        add_order-Answered r.0 r.1 st
          (reconcile_order-IsOne omap tmap (moments n) pay st.consumed r e) in
      let later = order_loop-Answered omap tmap moments (suc n) pays (add_order r.0 r.1 st) rest in
      omega (arith, first, later)

  -- The processor loop adds exceptions, at most one for each record.
  processor_loop_counts :
      (omap : IndexMap) (moments : ℕ → Moment F) (n : ℕ) (es : List Entry) (st : RunState F)
      {st' : RunState F}
      → processor_loop eng omap moments n es st ≡ ok st'
      → (length st'.matches ≡ length st.matches)
        × (length st'.order_matches ≡ length st.order_matches)
        × (length st'.batch_matches ≡ length st.batch_matches)
        × (length st.exceptions ≤ length st'.exceptions)
        × (length st'.exceptions ≤ length st.exceptions + length es)
  unfolding processor_loop
  processor_loop_counts omap moments n [] st h = rw (← ok-injective h) (omega arith)
  processor_loop_counts omap moments n (e ∷ es) st h =
      let (p, _, rest) = >>=-eq-ok (of_option (eng.codec.load_processor e.1)) _ h in
      let x = processor_only eng (moments n) p in
      elim (Bool-cases (
        contains st.consumed p.processor_transaction_id
        || not (is_empty (indexes_of omap p.order_id (codes "PAYMENT"))))) [
          | inl known ↦
              omega (arith, processor_loop_counts omap moments (suc n) es st (rw known at rest))
          | inr unknown ↦ omega (
            arith,
            length-append {0} st.exceptions (x ∷ []),
            processor_loop_counts omap moments (suc n) es
                (record st { exceptions = st.exceptions ++ x ∷ [] }) (rw unknown at rest),
          )
        ]

  batch_loop-Answered :
      (rmap : IndexMap) (moments : ℕ → Moment F) (n : ℕ) (es : List Entry) (st : RunState F)
      {st' : RunState F}
      → batch_loop eng rmap moments n es st ≡ ok st'
      → Answered st st' (length es)
  unfolding batch_loop
  batch_loop-Answered rmap moments n [] st h = rw (← ok-injective h) (omega arith)
  batch_loop-Answered rmap moments n (e ∷ es) st h =
      let (b, _, h1) = >>=-eq-ok (of_option (eng.codec.load_batch e.1)) _ h in
      let (o, at, h2) = >>=-eq-ok (reconcile_batch eng (some rmap) (moments n) b) _ h1 in
      let first = add_batch-Answered o st (reconcile_batch-IsOne (some rmap) (moments n) b at) in
      let later = batch_loop-Answered rmap moments (suc n) es (add_batch o st) h2 in
      omega (arith, first, later)

  pub run_loops-IsTallied :
      (moments : ℕ → Moment F) (pays : List (PaymentRecord F)) {st : RunState F}
      → run_loops eng moments pays ≡ ok st
      → IsTallied
          (length pays + length (scan_prefix eng.db (codes "REC:BATCH:")))
          (length (scan_prefix eng.db (codes "REC:PROCESSOR:")))
          (length st.matches)
          (length st.exceptions)
          (length st.order_matches)
          (length st.batch_matches)
  unfolding run_loops
  run_loops-IsTallied moments pays h =
      let omap = build_index (scan_prefix eng.db (codes "IDX:ORDER:")) in
      let rmap = build_index (scan_prefix eng.db (codes "IDX:REF:")) in
      let tmap = build_settle (scan_prefix eng.db (codes "IDX:TXN:")) in
      let procs = scan_prefix eng.db (codes "REC:PROCESSOR:") in
      let batches = scan_prefix eng.db (codes "REC:BATCH:") in
      let (st1, e1, h1) =
        >>=-eq-ok (order_loop eng (some omap) (some tmap) moments 0 pays fresh_state) _ h in
      let (st2, e2, h2) =
        >>=-eq-ok (processor_loop eng omap moments (length pays) procs st1) _ h1 in
      omega (
        arith,
        order_loop-Answered (some omap) (some tmap) moments 0 pays fresh_state e1,
        processor_loop_counts omap moments (length pays) procs st1 e2,
        batch_loop-Answered rmap moments (length pays + length procs) batches st2 h2,
      )
