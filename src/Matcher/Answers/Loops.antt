-- ===== src/Matcher/Answers/Loops.antt =====
-- recon/matcher.py: what each loop of `reconcile_all` appends to the report.
use mathlib.Core.List.{append-nil, append_assoc}
use mathlib.Core.Path.{subst}
use vault_recon_ai.Prelude.{
  All, Bool-cases, List, [], inl, inr, is_empty, none, not, refl, some, suc, sym, ℕ, ◌++◌, ◌||◌,
  ◌∙◌, ◌∷◌, ◌≡◌,
}
use vault_recon_ai.Dict.{Dict}
use vault_recon_ai.Exceptions.{FinancialException, Moment}
use vault_recon_ai.Float.{Float}
use vault_recon_ai.Matcher.{Engine, Outcome, ReconciliationMatch}
use vault_recon_ai.Matcher.Answers.{
  Answers, BatchExcepted, BatchMatched, IsProcessorOnly, OrderExcepted, OrderMatched, none_left,
  with_exception, with_match,
}
use vault_recon_ai.Matcher.Batch.{reconcile_batch}
use vault_recon_ai.Matcher.Counts.{IsOne, reconcile_batch-IsOne}
use vault_recon_ai.Matcher.Index.{Entry, IndexMap, indexes_of}
use vault_recon_ai.Matcher.Order.{reconcile_order}
use vault_recon_ai.Matcher.Outcomes.{IsFresh, reconcile_order-OneResult}
use vault_recon_ai.Matcher.Run.{
  RunState, add_batch, add_order, batch_loop, order_loop, processor_loop, processor_only,
}
use vault_recon_ai.Matcher.Sound.{reconcile_order-IsSound}
use vault_recon_ai.Result.{>>=-eq-ok, of_option, of_option-ok, ok, ok-injective}
use vault_recon_ai.Schemas.{PaymentRecord, SettlementBatch}
use vault_recon_ai.Text.{Text, codes, contains}

module _ {F : Type 0} ⦃d : Float F⦄ (eng : Engine F) where
  -- What the order loop appends.
  pub record OrdersAdded (omap : IndexMap) (tmap : Dict (List Entry))
      (pays : List (PaymentRecord F)) (st st' : RunState F) : Type 0 where
    pub new_matches : List (ReconciliationMatch F)
    pub new_exceptions : List (FinancialException F)
    pub orders : st'.order_matches ≡ st.order_matches ++ new_matches
    pub exceptions : st'.exceptions ≡ st.exceptions ++ new_exceptions
    pub batches : st'.batch_matches ≡ st.batch_matches
    pub answers :
        Answers
          (OrderMatched eng omap tmap)
          (OrderExcepted eng omap tmap)
          pays
          new_matches
          new_exceptions

  add_match :
      (omap : IndexMap) (tmap : Dict (List Entry)) (now : Moment F) (pay : PaymentRecord F)
      (pays : List (PaymentRecord F)) (st st' : RunState F) (m : ReconciliationMatch F)
      (c : List Text)
      → reconcile_order eng (some omap) (some tmap) now pay st.consumed ≡ ok ((some m, none), c)
      → OrdersAdded omap tmap pays (add_order (some m, none) c st) st'
      → OrdersAdded omap tmap (pay ∷ pays) st st'
  unfolding add_order
  add_match omap tmap now pay pays st st' m c h later =
      let (t, found, sound) =
        reconcile_order-IsSound eng (some omap) (some tmap) now pay st.consumed h in
      record {
        new_matches = m ∷ later.new_matches;
        new_exceptions = later.new_exceptions;
        orders = later.orders ∙ append_assoc st.order_matches (m ∷ []) later.new_matches;
        exceptions = later.exceptions;
        batches = later.batches;
        answers = with_match (now, st.consumed, c, h, sound.payment_id) later.answers;
      }

  add_exception :
      (omap : IndexMap) (tmap : Dict (List Entry)) (now : Moment F) (pay : PaymentRecord F)
      (pays : List (PaymentRecord F)) (st st' : RunState F) (x : FinancialException F)
      → reconcile_order eng (some omap) (some tmap) now pay st.consumed
        ≡ ok ((none, some x), st.consumed)
      → IsFresh pay x
      → OrdersAdded omap tmap pays (add_order (none, some x) st.consumed st) st'
      → OrdersAdded omap tmap (pay ∷ pays) st st'
  unfolding add_order
  add_exception omap tmap now pay pays st st' x h fresh later = record {
    new_matches = later.new_matches;
    new_exceptions = x ∷ later.new_exceptions;
    orders = later.orders;
    exceptions = later.exceptions ∙ append_assoc st.exceptions (x ∷ []) later.new_exceptions;
    batches = later.batches;
    answers = with_exception (now, st.consumed, h, fresh) later.answers;
  }

  add_outcome :
      (omap : IndexMap) (tmap : Dict (List Entry)) (now : Moment F) (pay : PaymentRecord F)
      (pays : List (PaymentRecord F)) (st st' : RunState F) (o : Outcome F) (c : List Text)
      → reconcile_order eng (some omap) (some tmap) now pay st.consumed ≡ ok (o, c)
      → OrdersAdded omap tmap pays (add_order o c st) st'
      → OrdersAdded omap tmap (pay ∷ pays) st st'
  add_outcome omap tmap now pay pays st st' o c e later =
      elim (reconcile_order-OneResult eng (some omap) (some tmap) now pay st.consumed e) [
        | inl (m, id, is, taken) ↦
            add_match omap tmap now pay pays st st' m c (rw is at e) (rw is at later)
        | inr (x, is, fresh, kept) ↦
            add_exception omap tmap now pay pays st st' x (rw (is, kept) at e) fresh
              (rw (is, kept) at later)
      ]

  pub order_loop-OrdersAdded :
      (omap : IndexMap) (tmap : Dict (List Entry)) (moments : ℕ → Moment F) (n : ℕ)
      (pays : List (PaymentRecord F)) (st : RunState F) {st' : RunState F}
      → order_loop eng (some omap) (some tmap) moments n pays st ≡ ok st'
      → OrdersAdded omap tmap pays st st'
  unfolding order_loop
  order_loop-OrdersAdded omap tmap moments n [] st h =
      subst (OrdersAdded omap tmap [] st) (ok-injective h) (record {
        new_matches = [];
        new_exceptions = [];
        orders = sym (append-nil st.order_matches);
        exceptions = sym (append-nil st.exceptions);
        batches = refl;
        answers = none_left;
      })
  order_loop-OrdersAdded omap tmap moments n (pay ∷ pays) st {st'} h =
      let (r, e, rest) =
        >>=-eq-ok (reconcile_order eng (some omap) (some tmap) (moments n) pay st.consumed) _ h in
      add_outcome omap tmap (moments n) pay pays st st' r.0 r.1 e
        (order_loop-OrdersAdded omap tmap moments (suc n) pays (add_order r.0 r.1 st) rest)

  -- What the processor loop appends.
  pub record ProcessorsAdded (st st' : RunState F) : Type 0 where
    pub new_exceptions : List (FinancialException F)
    pub orders : st'.order_matches ≡ st.order_matches
    pub exceptions : st'.exceptions ≡ st.exceptions ++ new_exceptions
    pub batches : st'.batch_matches ≡ st.batch_matches
    pub alone : All IsProcessorOnly new_exceptions

  add_processor :
      (x : FinancialException F) (st st' : RunState F)
      → IsProcessorOnly x
      → ProcessorsAdded (record st { exceptions = st.exceptions ++ x ∷ [] }) st'
      → ProcessorsAdded st st'
  add_processor x st st' is later = record {
    new_exceptions = x ∷ later.new_exceptions;
    orders = later.orders;
    exceptions = later.exceptions ∙ append_assoc st.exceptions (x ∷ []) later.new_exceptions;
    batches = later.batches;
    alone = (is, later.alone);
  }

  pub processor_loop-ProcessorsAdded :
      (omap : IndexMap) (moments : ℕ → Moment F) (n : ℕ) (es : List Entry) (st : RunState F)
      {st' : RunState F}
      → processor_loop eng omap moments n es st ≡ ok st'
      → ProcessorsAdded st st'
  unfolding processor_loop processor_only
  processor_loop-ProcessorsAdded omap moments n [] st h =
      subst (ProcessorsAdded st) (ok-injective h) (record {
        new_exceptions = [];
        orders = refl;
        exceptions = sym (append-nil st.exceptions);
        batches = refl;
        alone = tt;
      })
  processor_loop-ProcessorsAdded omap moments n (e ∷ es) st {st'} h =
      let (p, _, rest) = >>=-eq-ok (of_option (eng.codec.load_processor e.1)) _ h in
      elim (Bool-cases (
        contains st.consumed p.processor_transaction_id
        || not (is_empty (indexes_of omap p.order_id (codes "PAYMENT"))))) [
          | inl known ↦ processor_loop-ProcessorsAdded omap moments (suc n) es st (rw known at rest)
          | inr unknown ↦
              add_processor (processor_only eng (moments n) p) st st' (refl, refl)
                (processor_loop-ProcessorsAdded omap moments (suc n) es _ (rw unknown at rest))
        ]

  -- What the batch loop appends.
  pub record BatchesAdded (rmap : IndexMap) (es : List Entry) (st st' : RunState F) : Type 0 where
    pub new_matches : List (ReconciliationMatch F)
    pub new_exceptions : List (FinancialException F)
    pub orders : st'.order_matches ≡ st.order_matches
    pub exceptions : st'.exceptions ≡ st.exceptions ++ new_exceptions
    pub batches : st'.batch_matches ≡ st.batch_matches ++ new_matches
    pub answers :
        Answers (BatchMatched eng rmap) (BatchExcepted eng rmap) es new_matches new_exceptions

  add_batch-BatchesAdded :
      (rmap : IndexMap) (now : Moment F) (b : SettlementBatch F) (e : Entry) (es : List Entry)
      (o : Outcome F) (st st' : RunState F)
      → eng.codec.load_batch e.1 ≡ some b
      → reconcile_batch eng (some rmap) now b ≡ ok o
      → IsOne o
      → BatchesAdded rmap es (add_batch o st) st'
      → BatchesAdded rmap (e ∷ es) st st'
  unfolding add_batch
  add_batch-BatchesAdded rmap now b e es (some m, none) st st' loaded h one later = record {
    new_matches = m ∷ later.new_matches;
    new_exceptions = later.new_exceptions;
    orders = later.orders;
    exceptions = later.exceptions;
    batches = later.batches ∙ append_assoc st.batch_matches (m ∷ []) later.new_matches;
    answers = with_match (now, b, loaded, h) later.answers;
  }
  add_batch-BatchesAdded rmap now b e es (none, some x) st st' loaded h one later = record {
    new_matches = later.new_matches;
    new_exceptions = x ∷ later.new_exceptions;
    orders = later.orders;
    exceptions = later.exceptions ∙ append_assoc st.exceptions (x ∷ []) later.new_exceptions;
    batches = later.batches;
    answers = with_exception (now, b, loaded, h) later.answers;
  }
  add_batch-BatchesAdded rmap now b e es (some m, some x) st st' loaded h one later = absurd (cc)
  add_batch-BatchesAdded rmap now b e es (none, none) st st' loaded h one later = absurd (cc)

  pub batch_loop-BatchesAdded :
      (rmap : IndexMap) (moments : ℕ → Moment F) (n : ℕ) (es : List Entry) (st : RunState F)
      {st' : RunState F}
      → batch_loop eng rmap moments n es st ≡ ok st'
      → BatchesAdded rmap es st st'
  unfolding batch_loop
  batch_loop-BatchesAdded rmap moments n [] st h =
      subst (BatchesAdded rmap [] st) (ok-injective h) (record {
        new_matches = [];
        new_exceptions = [];
        orders = refl;
        exceptions = sym (append-nil st.exceptions);
        batches = sym (append-nil st.batch_matches);
        answers = none_left;
      })
  batch_loop-BatchesAdded rmap moments n (e ∷ es) st {st'} h =
      let (b, loaded, h1) = >>=-eq-ok (of_option (eng.codec.load_batch e.1)) _ h in
      let (o, at, h2) = >>=-eq-ok (reconcile_batch eng (some rmap) (moments n) b) _ h1 in
      add_batch-BatchesAdded rmap (moments n) b e es o st st'
        (of_option-ok (eng.codec.load_batch e.1) loaded) at
        (reconcile_batch-IsOne eng (some rmap) (moments n) b at)
        (batch_loop-BatchesAdded rmap moments (suc n) es (add_batch o st) h2)
