-- ===== src/Matcher/Run.antt =====
-- recon/matcher.py: `reconcile_all`.
use vault_recon_ai.Prelude.{
  List, Option, [], if◌then◌else◌, is_empty, length, none, not, some, suc, ℕ, ◌++◌, ◌+◌, ◌||◌, ◌∷◌,
}
use vault_recon_ai.Dict.{Dict}
use vault_recon_ai.Exceptions.{Details, FinancialException, Moment, Reason}
use vault_recon_ai.Float.{Float}
use vault_recon_ai.Matcher.{Engine, Outcome, ReconciliationMatch, log_created, new_exception}
use vault_recon_ai.Matcher.Batch.{reconcile_batch}
use vault_recon_ai.Matcher.Index.{Entry, IndexMap, build_index, build_settle, indexes_of}
use vault_recon_ai.Matcher.Order.{reconcile_order}
use vault_recon_ai.Prelude.Int.{pos}
use vault_recon_ai.Result.{Result, of_option, ok, ◌>>=◌}
use vault_recon_ai.Schemas.{PaymentRecord, ProcessorTransaction}
use vault_recon_ai.Text.{Text, codes, contains}
use vault_recon_ai.Value.{Value}
use vault_recon_ai.Vault.{scan_prefix}

pub record MatcherReport (F : Type 0) : Type 0 where
  pub total_evaluated : ℕ
  pub matched_count : ℕ
  pub exception_count : ℕ
  pub matches : List (ReconciliationMatch F)
  pub exceptions : List (FinancialException F)
  pub order_matches : List (ReconciliationMatch F)
  pub batch_matches : List (ReconciliationMatch F)
  pub duration_sec : F
  pub throughput_records_per_sec : F

-- The lists that the loops append to, and the engine's consumed ids.
pub record RunState (F : Type 0) : Type 0 where
  pub matches : List (ReconciliationMatch F)
  pub exceptions : List (FinancialException F)
  pub order_matches : List (ReconciliationMatch F)
  pub batch_matches : List (ReconciliationMatch F)
  pub consumed : List Text

-- After `reset_state`.
abbrev pub fresh_state : {F : Type 0} → RunState F
fresh_state = record {
  matches = [];
  exceptions = [];
  order_matches = [];
  batch_matches = [];
  consumed = [];
}

-- `if x: xs.append(x)`
abbrev pub append_optional {ℓ} : {A : Type ℓ} → List A → Option A → List A
append_optional xs none = xs
append_optional xs (some x) = xs ++ x ∷ []

-- The JSON texts of a scan, each parsed.
unfoldable pub load_all {ℓ} : {A : Type ℓ} → (Text → Option A) → List Entry → Result (List A)
load_all load [] = ok []
load_all load (e ∷ es) = do x ← of_option (load e.1); xs ← load_all load es; ok (x ∷ xs)

module _ {F : Type 0} where
  unfoldable pub add_order : Outcome F → List Text → RunState F → RunState F
  add_order o consumed st = record st {
    matches = append_optional st.matches o.0;
    order_matches = append_optional st.order_matches o.0;
    exceptions = append_optional st.exceptions o.1;
    consumed = consumed;
  }

  unfoldable pub add_batch : Outcome F → RunState F → RunState F
  add_batch o st = record st {
    matches = append_optional st.matches o.0;
    batch_matches = append_optional st.batch_matches o.0;
    exceptions = append_optional st.exceptions o.1;
  }

module _ {F : Type 0} ⦃d : Float F⦄ (eng : Engine F) where
  open d use {lit, sub, div, lt, round, of_int}

  -- The order loop; the n-th call of the run has the moment `moments n`.
  unfoldable pub order_loop :
      Option IndexMap
      → Option (Dict (List Entry))
      → (ℕ → Moment F)
      → ℕ
      → List (PaymentRecord F)
      → RunState F
      → Result (RunState F)
  unfolding add_order
  order_loop omap tmap moments n [] st = ok st
  order_loop omap tmap moments n (pay ∷ pays) st = do
    done ← reconcile_order eng omap tmap (moments n) pay st.consumed
    order_loop omap tmap moments (suc n) pays (add_order done.0 done.1 st)

  unfoldable pub processor_only : Moment F → ProcessorTransaction F → FinancialException F
  unfolding new_exception log_created
  processor_only now p =
      log_created now
        (Details.reason (Reason.no_internal_entry p.processor_transaction_id p.order_id))
        (new_exception now "EXC_PROC_ONLY_" p.merchant_id "MISSING_INTERNAL" "PROCESSOR"
          p.processor_transaction_id (p.order_id ∷ []) (Value.float (lit 0 0))
          (Value.float p.gross_amount) p.gross_amount)

  -- The loop over the processors' records, each parsed when its turn comes.
  unfoldable pub processor_loop :
      IndexMap → (ℕ → Moment F) → ℕ → List Entry → RunState F → Result (RunState F)
  unfolding contains indexes_of
  processor_loop omap moments n [] st = ok st
  processor_loop omap moments n (e ∷ es) st = do
    p ← of_option (eng.codec.load_processor e.1)
    processor_loop omap moments (suc n) es (
        if contains st.consumed p.processor_transaction_id
          || not (is_empty (indexes_of omap p.order_id (codes "PAYMENT")))
        then st
        else record st { exceptions = st.exceptions ++ processor_only (moments n) p ∷ [] })

  unfoldable pub batch_loop :
      IndexMap → (ℕ → Moment F) → ℕ → List Entry → RunState F → Result (RunState F)
  unfolding add_batch
  batch_loop rmap moments n [] st = ok st
  batch_loop rmap moments n (e ∷ es) st = do
    b ← of_option (eng.codec.load_batch e.1)
    o ← reconcile_batch eng (some rmap) (moments n) b
    batch_loop rmap moments (suc n) es (add_batch o st)

  -- The payments that are given, or those that are stored.
  unfoldable pub payments_of : Option (List (PaymentRecord F)) → Result (List (PaymentRecord F))
  unfolding load_all scan_prefix
  payments_of none = load_all eng.codec.load_payment (scan_prefix eng.db (codes "REC:PAYMENT:"))
  payments_of (some l) = ok l

  -- The three loops over the state. The moments of the loops follow one another.
  unfoldable pub run_loops : (ℕ → Moment F) → List (PaymentRecord F) → Result (RunState F)
  unfolding order_loop processor_loop batch_loop build_index build_settle scan_prefix
  run_loops moments pays =
      let omap = build_index (scan_prefix eng.db (codes "IDX:ORDER:")) in
      let rmap = build_index (scan_prefix eng.db (codes "IDX:REF:")) in
      let tmap = build_settle (scan_prefix eng.db (codes "IDX:TXN:")) in
      let procs = scan_prefix eng.db (codes "REC:PROCESSOR:") in
      do
        st1 ← order_loop (some omap) (some tmap) moments 0 pays fresh_state
        st2 ← processor_loop omap moments (length pays) procs st1
        batch_loop rmap moments (length pays + length procs)
            (scan_prefix eng.db (codes "REC:BATCH:")) st2

  -- max(t_end - t_start, 1e-6)
  duration : F → F → F
  duration t_start t_end = let x = sub t_end t_start in if lt x (lit 1 6) then lit 1 6 else x

  unfoldable pub report_of : F → F → ℕ → RunState F → MatcherReport F
  unfolding duration
  report_of t_start t_end total st = record {
    total_evaluated = total;
    matched_count = length st.matches;
    exception_count = length st.exceptions;
    matches = st.matches;
    exceptions = st.exceptions;
    order_matches = st.order_matches;
    batch_matches = st.batch_matches;
    duration_sec = duration t_start t_end;
    throughput_records_per_sec = round (div (of_int (pos total)) (duration t_start t_end)) 2;
  }

  -- `reconcile_all`, with the two readings of the performance counter.
  unfoldable pub reconcile_all :
      F → F → (ℕ → Moment F) → Option (List (PaymentRecord F)) → Result (MatcherReport F)
  unfolding payments_of run_loops report_of scan_prefix
  reconcile_all t_start t_end moments payments = do
    pays ← payments_of payments
    st ← run_loops moments pays
    ok (report_of t_start t_end (length pays + length (scan_prefix eng.db (codes "REC:BATCH:"))) st)
