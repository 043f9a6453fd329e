-- ===== src/Matcher/Returns/Whole.antt =====
-- recon/matcher.py: when a whole run of `reconcile_all` returns.
use vault_recon_ai.Prelude.{
  All, List, Option, [], ap, is_some, length, ltb, none, refl, some, suc, true, ℕ, ◌+◌, ◌∷◌, ◌≡◌,
}
use vault_recon_ai.Dict.{Dict}
use vault_recon_ai.Exceptions.{Moment}
use vault_recon_ai.Float.{Float}
use vault_recon_ai.Matcher.{Engine}
use vault_recon_ai.Matcher.Batch.{bank_indexes, reconcile_batch, reconcile_entries}
use vault_recon_ai.Matcher.Index.{Entry, IndexMap, build_index, build_settle}
use vault_recon_ai.Matcher.Order.{reconcile_order}
use vault_recon_ai.Matcher.Order.Targets.{load_first}
use vault_recon_ai.Matcher.Returns.{
  IsReadable, OrderIsReadable, Returns, bind-Returns, if-Returns, load_first-Returns,
  reconcile_order-Returns,
}
use vault_recon_ai.Matcher.Run.{
  RunState, add_batch, add_order, batch_loop, fresh_state, order_loop, payments_of, processor_loop,
  reconcile_all, run_loops,
}
use vault_recon_ai.Result.{of_option, ok, ok-injective}
use vault_recon_ai.Schemas.{PaymentRecord, SettlementBatch}
use vault_recon_ai.Text.{Text, codes}
use vault_recon_ai.Vault.{scan_prefix}

-- A text that the class accepts.
abbrev pub Loads : {A : Type 0} → (Text → Option A) → Entry → Type 0
Loads load e = is_some (load e.1) ≡ true

loaded-Returns : {A : Type 0} (o : Option A) → is_some o ≡ true → Returns (of_option o)
loaded-Returns (some a) h = (a, refl)
loaded-Returns none h = absurd (cc)

loaded_from : {A : Type 0} (o : Option A) {a : A} → of_option o ≡ ok a → o ≡ some a
loaded_from (some a) h = ap some (ok-injective h)
loaded_from none h = cc

module _ {F : Type 0} ⦃d : Float F⦄ (eng : Engine F) where
  reconcile_batch-Returns :
      (rmap : Option IndexMap) (now : Moment F) (b : SettlementBatch F)
      → All (IsReadable eng.db eng.codec.load_bank) (bank_indexes eng rmap b.batch_id)
      → Returns (reconcile_batch eng rmap now b)
  unfolding reconcile_batch reconcile_entries
  reconcile_batch-Returns rmap now b can =
      let found = bank_indexes eng rmap b.batch_id in
      if-Returns (ltb 1 (length found)) _ _ (_, refl)
        (bind-Returns (load_first eng.db eng.codec.load_bank found) _
          (load_first-Returns eng.db eng.codec.load_bank found can) (λ txn at. (_, refl)))

  -- What the store holds for a run over the payments: each order can be read, whatever targets are
  -- consumed by then; the stored processor records and batches are accepted by their classes; and
  -- the bank entries of each batch can be read.
  pub record RunIsReadable (pays : List (PaymentRecord F)) : Type 0 where
    pub orders :
        All
          (λ (pay : PaymentRecord F).
            (consumed : List Text)
            → OrderIsReadable eng
                (some (build_index (scan_prefix eng.db (codes "IDX:ORDER:"))))
                (some (build_settle (scan_prefix eng.db (codes "IDX:TXN:"))))
                pay
                consumed)
          pays
    pub processors :
        All (Loads eng.codec.load_processor) (scan_prefix eng.db (codes "REC:PROCESSOR:"))
    pub batches : All (Loads eng.codec.load_batch) (scan_prefix eng.db (codes "REC:BATCH:"))
    pub banks :
        (raw : Text) (b : SettlementBatch F)
        → eng.codec.load_batch raw ≡ some b
        → All (IsReadable eng.db eng.codec.load_bank) (
            bank_indexes eng
              (some (build_index (scan_prefix eng.db (codes "IDX:REF:"))))
              b.batch_id)

  order_loop-Returns :
      (omap : Option IndexMap) (tmap : Option (Dict (List Entry))) (moments : ℕ → Moment F) (n : ℕ)
      (pays : List (PaymentRecord F)) (st : RunState F)
      → All
          (λ (pay : PaymentRecord F).
            (consumed : List Text) → OrderIsReadable eng omap tmap pay consumed)
          pays
      → Returns (order_loop eng omap tmap moments n pays st)
  unfolding order_loop
  order_loop-Returns omap tmap moments n [] st all = (_, refl)
  order_loop-Returns omap tmap moments n (pay ∷ pays) st (can, all) =
      bind-Returns (reconcile_order eng omap tmap (moments n) pay st.consumed) _
        (reconcile_order-Returns eng omap tmap (moments n) pay st.consumed (can st.consumed))
        (λ done at.
          order_loop-Returns omap tmap moments (suc n) pays (add_order done.0 done.1 st) all)

  processor_loop-Returns :
      (omap : IndexMap) (moments : ℕ → Moment F) (n : ℕ) (es : List Entry) (st : RunState F)
      → All (Loads eng.codec.load_processor) es
      → Returns (processor_loop eng omap moments n es st)
  unfolding processor_loop
  processor_loop-Returns omap moments n [] st all = (_, refl)
  processor_loop-Returns omap moments n (e ∷ es) st (load, all) =
      bind-Returns (of_option (eng.codec.load_processor e.1)) _
        (loaded-Returns (eng.codec.load_processor e.1) load)
        (λ p at. processor_loop-Returns omap moments (suc n) es _ all)

  batch_loop-Returns :
      (rmap : IndexMap) (moments : ℕ → Moment F) (n : ℕ) (es : List Entry) (st : RunState F)
      → All (Loads eng.codec.load_batch) es
      → ((raw : Text) (b : SettlementBatch F)
          → eng.codec.load_batch raw ≡ some b
          → All (IsReadable eng.db eng.codec.load_bank) (bank_indexes eng (some rmap) b.batch_id))
      → Returns (batch_loop eng rmap moments n es st)
  unfolding batch_loop
  batch_loop-Returns rmap moments n [] st all banks = (_, refl)
  batch_loop-Returns rmap moments n (e ∷ es) st (load, all) banks =
      bind-Returns (of_option (eng.codec.load_batch e.1)) _
        (loaded-Returns (eng.codec.load_batch e.1) load)
        (λ b at.
          bind-Returns (reconcile_batch eng (some rmap) (moments n) b) _
            (reconcile_batch-Returns (some rmap) (moments n) b
              (banks e.1 b (loaded_from (eng.codec.load_batch e.1) at)))
            (λ o at2. batch_loop-Returns rmap moments (suc n) es (add_batch o st) all banks))

  run_loops-Returns :
      (moments : ℕ → Moment F) (pays : List (PaymentRecord F))
      → RunIsReadable pays
      → Returns (run_loops eng moments pays)
  unfolding run_loops
  run_loops-Returns moments pays can =
      let omap = build_index (scan_prefix eng.db (codes "IDX:ORDER:")) in
      let rmap = build_index (scan_prefix eng.db (codes "IDX:REF:")) in
      let tmap = build_settle (scan_prefix eng.db (codes "IDX:TXN:")) in
      let procs = scan_prefix eng.db (codes "REC:PROCESSOR:") in
      let batches = scan_prefix eng.db (codes "REC:BATCH:") in
      bind-Returns (order_loop eng (some omap) (some tmap) moments 0 pays fresh_state) _
        (order_loop-Returns (some omap) (some tmap) moments 0 pays fresh_state can.orders)
        (λ st1 at1.
          bind-Returns (processor_loop eng omap moments (length pays) procs st1) _
            (processor_loop-Returns omap moments (length pays) procs st1 can.processors)
            (λ st2 at2.
              batch_loop-Returns rmap moments (length pays + length procs) batches st2 can.batches
                can.banks))

  -- A run over given payments returns a report where the store can be read for them, the policy ids
  -- at their targets can be looked up, and the fees of the policies chosen there can be computed in
  -- Python's decimals.
  pub reconcile_all-Returns :
      (t_start t_end : F) (moments : ℕ → Moment F) (pays : List (PaymentRecord F))
      → RunIsReadable pays
      → Returns (reconcile_all eng t_start t_end moments (some pays))
  unfolding reconcile_all payments_of
  reconcile_all-Returns t_start t_end moments pays can =
      bind-Returns (run_loops eng moments pays) _ (run_loops-Returns moments pays can)
        (λ st at. (_, refl))
