-- ===== src/Matcher/Answers/Whole.antt =====
-- recon/matcher.py: the report of a whole run of `reconcile_all`.
use mathlib.Core.List.{append_assoc}
use mathlib.Core.Path.{subst}
use vault_recon_ai.Prelude.{All, List, Option, length, refl, some, ℕ, ◌++◌, ◌+◌, ◌∙◌, ◌≡◌}
use vault_recon_ai.Exceptions.{FinancialException, Moment}
use vault_recon_ai.Float.{Float}
use vault_recon_ai.Matcher.{Engine}
use vault_recon_ai.Matcher.Answers.{
  Answers, BatchExcepted, BatchMatched, IsProcessorOnly, OrderExcepted, OrderMatched,
}
use vault_recon_ai.Matcher.Answers.Loops.{
  batch_loop-BatchesAdded, order_loop-OrdersAdded, processor_loop-ProcessorsAdded,
}
use vault_recon_ai.Matcher.Counts.{run_loops-IsTallied}
use vault_recon_ai.Matcher.Index.{build_index, build_settle}
use vault_recon_ai.Matcher.Run.{
  MatcherReport, fresh_state, order_loop, payments_of, processor_loop, reconcile_all, report_of,
  run_loops,
}
use vault_recon_ai.Result.{>>=-eq-ok, ok, ok-injective}
use vault_recon_ai.Schemas.{PaymentRecord}
use vault_recon_ai.Text.{codes}
use vault_recon_ai.Vault.{scan_prefix}

module _ {F : Type 0} ⦃d : Float F⦄ (eng : Engine F) where
  -- What a report says of each input of its run: the exceptions are those of the payments, then
  -- those of processor records alone, then those of the batches.
  pub record IsAnswered (pays : List (PaymentRecord F)) (report : MatcherReport F) : Type 0 where
    pub counts :
        (report.total_evaluated ≡ length pays + length (scan_prefix eng.db (codes "REC:BATCH:")))
        × (report.matched_count ≡ length report.order_matches + length report.batch_matches)
        × (report.exception_count ≡ length report.exceptions)
    pub of_orders : List (FinancialException F)
    pub of_processors : List (FinancialException F)
    pub of_batches : List (FinancialException F)
    pub exceptions : report.exceptions ≡ of_orders ++ (of_processors ++ of_batches)
    pub orders :
        Answers
          (OrderMatched eng
            (build_index (scan_prefix eng.db (codes "IDX:ORDER:")))
            (build_settle (scan_prefix eng.db (codes "IDX:TXN:"))))
          (OrderExcepted eng
            (build_index (scan_prefix eng.db (codes "IDX:ORDER:")))
            (build_settle (scan_prefix eng.db (codes "IDX:TXN:"))))
          pays
          report.order_matches
          of_orders
    pub processors : All IsProcessorOnly of_processors
    pub batches :
        Answers
          (BatchMatched eng (build_index (scan_prefix eng.db (codes "IDX:REF:"))))
          (BatchExcepted eng (build_index (scan_prefix eng.db (codes "IDX:REF:"))))
          (scan_prefix eng.db (codes "REC:BATCH:"))
          report.batch_matches
          of_batches

  -- In a run that returns, each of its payments in order has the next order match, which its call
  -- gave and which names it, or the next exception of the report, which its call gave and which is
  -- open for its merchant; behind those stand exceptions of processor records alone; and each
  -- stored batch in order has the next batch match or the next of the exceptions behind them, as
  -- its call gave it. The report counts the payments and batches, its matches and its exceptions.
  pub reconcile_all-IsAnswered :
      (t_start t_end : F) (moments : ℕ → Moment F) (payments : Option (List (PaymentRecord F)))
      {report : MatcherReport F}
      → reconcile_all eng t_start t_end moments payments ≡ ok report
      → (pays : List (PaymentRecord F)) × (payments_of eng payments ≡ ok pays)
        × IsAnswered pays report
  unfolding reconcile_all report_of run_loops
  reconcile_all-IsAnswered t_start t_end moments payments {report} h =
      let omap = build_index (scan_prefix eng.db (codes "IDX:ORDER:")) in
      let rmap = build_index (scan_prefix eng.db (codes "IDX:REF:")) in
      let tmap = build_settle (scan_prefix eng.db (codes "IDX:TXN:")) in
      let procs = scan_prefix eng.db (codes "REC:PROCESSOR:") in
      let batches = scan_prefix eng.db (codes "REC:BATCH:") in
      let (pays, given, h1) = >>=-eq-ok (payments_of eng payments) _ h in
      let (st, e, h2) = >>=-eq-ok (run_loops eng moments pays) _ h1 in
      let (st1, e1, k1) =
        >>=-eq-ok (order_loop eng (some omap) (some tmap) moments 0 pays fresh_state) _ e in
      let (st2, e2, k2) =
        >>=-eq-ok (processor_loop eng omap moments (length pays) procs st1) _ k1 in
      let os = order_loop-OrdersAdded eng omap tmap moments 0 pays fresh_state e1 in
      let ps = processor_loop-ProcessorsAdded eng omap moments (length pays) procs st1 e2 in
      let bs =
        batch_loop-BatchesAdded eng rmap moments (length pays + length procs) batches st2 k2 in
      (
        pays,
        given,
        subst (IsAnswered pays) (ok-injective h2) (record {
          counts = (refl, (run_loops-IsTallied eng moments pays e).0, refl);
          of_orders = os.new_exceptions;
          of_processors = ps.new_exceptions;
          of_batches = bs.new_exceptions;
          exceptions =
              bs.exceptions
              ∙ rw (ps.exceptions, os.exceptions)
                  (append_assoc os.new_exceptions ps.new_exceptions bs.new_exceptions);
          orders = rw (bs.orders, ps.orders, os.orders) os.answers;
          processors = ps.alone;
          batches = rw (bs.batches, ps.batches, os.batches) bs.answers;
        }),
      )
