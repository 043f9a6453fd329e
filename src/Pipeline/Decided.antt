-- ===== src/Pipeline/Decided.antt =====
-- stress_test/runner.py: the decisions on the exceptions of a run.
use vault_recon_ai.Prelude.{
  All, List, Option, [], arith, inl, inr, length, refl, some, suc, take, ℕ, ◌+◌, ◌∙◌, ◌∷◌, ◌≡◌, ◌⊎◌,
}
use vault_recon_ai.Ai.Agent.{AiController, Times, investigate, log_started}
use vault_recon_ai.Ai.Agent.Audit.{IsClosed, investigate-IsClosed}
use vault_recon_ai.Ai.Agent.Safety.{IsJustified, investigate-IsJustified}
use vault_recon_ai.Ai.Decision.{AiDecisionResult}
use vault_recon_ai.Exceptions.{FinancialException, Moment}
use vault_recon_ai.Float.{Float}
use vault_recon_ai.Ingestion.{NormalizedDataset}
use vault_recon_ai.Matcher.{Engine}
use vault_recon_ai.Matcher.Run.{MatcherReport, payments_of, reconcile_all, report_of, run_loops}
use vault_recon_ai.Pipeline.{
  Setting, StressTestRunResult, count_status, investigate_all, loaded_store, lookup_all,
  run_controller, run_engine, run_pipeline, run_result,
}
use vault_recon_ai.Result.{>>=-eq-ok, Result, ok, ok-injective, raised}
use vault_recon_ai.Schemas.{PaymentRecord}

-- An exception that is closed counts once.
abbrev pub IsDecided : {F : Type 0} → FinancialException F → Type 0
IsDecided e = (e.status ≡ "AI_RESOLVED") ⊎ (e.status ≡ "HUMAN_REVIEW")

pub count_status-decided :
    {F : Type 0} (es : List (FinancialException F))
    → All IsDecided es
    → count_status "AI_RESOLVED" es + count_status "HUMAN_REVIEW" es ≡ length es
unfolding count_status
count_status-decided [] h = refl
count_status-decided (e ∷ es) (inl h, hs) = rw h (omega (arith, count_status-decided es hs))
count_status-decided (e ∷ es) (inr h, hs) = rw h (omega (arith, count_status-decided es hs))

module _ {F : Type 0} ⦃d : Float F⦄ where
  -- An exception is left to a human, or its resolution is justified by the gathered evidence.
  abbrev pub Verdicts :
      AiController F → Times F → FinancialException F → AiDecisionResult F → Type 0
  Verdicts ctl times e r =
      (r.decision ≡ "HUMAN_REVIEW")
      ⊎ ((r.decision ≡ "AI_RESOLVED") × IsJustified ctl (log_started times e) r)

  -- What the loop gives from the n-th call on: a result for each exception, justified where it
  -- resolves, and each exception under its id with the status that the result says.
  abbrev pub Agree :
      AiController F
      → (ℕ → Times F)
      → ℕ
      → List (FinancialException F)
      → List (AiDecisionResult F)
      → List (FinancialException F)
      → Type 0
  Agree ctl times n [] [] [] = Unit
  Agree ctl times n (e ∷ es) (r ∷ rs) (f ∷ fs) =
      (f.exception_id ≡ e.exception_id)
      × (f.status ≡ r.decision)
      × Verdicts ctl (times n) e r
      × Agree ctl times (suc n) es rs fs
  Agree ctl times n _ _ _ = ⊥

  -- What a closed exception says of the decision.
  abbrev Says : FinancialException F → FinancialException F → AiDecisionResult F → Type 0
  Says e f r =
      (f.exception_id ≡ e.exception_id)
      × (f.status ≡ r.decision)
      × ((r.decision ≡ "AI_RESOLVED") ⊎ (r.decision ≡ "HUMAN_REVIEW"))

  closed-Says :
      (e : FinancialException F) (p : Result (AiDecisionResult F) × FinancialException F)
      {r : AiDecisionResult F}
      → IsClosed e p
      → p.0 ≡ ok r
      → Says e p.1 r
  closed-Says e (raised, f) c h = cc
  closed-Says e (ok r', f) (status, decided, conf, why, id, trail) h =
      rw (← ok-injective h) (id, status, decided)

  investigate-Verdicts :
      (ctl : AiController F) (times : Times F) (e : FinancialException F) {r : AiDecisionResult F}
      → (investigate ctl times e).0 ≡ ok r
      → (r.decision ≡ "AI_RESOLVED") ⊎ (r.decision ≡ "HUMAN_REVIEW")
      → Verdicts ctl times e r
  investigate-Verdicts ctl times e h (inr human) = inl human
  investigate-Verdicts ctl times e h (inl resolved) =
      inr (resolved, investigate-IsJustified ctl times e h resolved)

  pub investigate_all-Agree :
      (ctl : AiController F) (times : ℕ → Times F) (n : ℕ) (es : List (FinancialException F))
      (done : List (AiDecisionResult F) × List (FinancialException F))
      → investigate_all ctl times n es ≡ ok done
      → Agree ctl times n es done.0 done.1
  unfolding investigate_all
  investigate_all-Agree ctl times n [] done h = rw (← ok-injective h) tt
  investigate_all-Agree ctl times n (e ∷ es) done h =
      let (r, reply_given, h1) = >>=-eq-ok (investigate ctl (times n) e).0 _ h in
      let (rest, later, h2) = >>=-eq-ok (investigate_all ctl times (suc n) es) _ h1 in
      let (id, status, decided) =
        closed-Says e (investigate ctl (times n) e) (investigate-IsClosed ctl (times n) e)
          reply_given in
      rw (← ok-injective h2) (
        id,
        status,
        investigate-Verdicts ctl (times n) e reply_given decided,
        investigate_all-Agree ctl times (suc n) es rest later,
      )

  pub Verdicts-IsDecided :
      (ctl : AiController F) (times : Times F) (e f : FinancialException F) (r : AiDecisionResult F)
      → f.status ≡ r.decision
      → Verdicts ctl times e r
      → IsDecided f
  Verdicts-IsDecided ctl times e f r status (inl human) = inr (status ∙ human)
  Verdicts-IsDecided ctl times e f r status (inr (resolved, why)) = inl (status ∙ resolved)

  pub Agree-IsDecided :
      (ctl : AiController F) (times : ℕ → Times F) (n : ℕ) (es : List (FinancialException F))
      (rs : List (AiDecisionResult F)) (fs : List (FinancialException F))
      → Agree ctl times n es rs fs
      → All IsDecided fs × (length rs ≡ length es) × (length fs ≡ length es)
  Agree-IsDecided ctl times n [] [] [] h = (tt, refl, refl)
  Agree-IsDecided ctl times n (e ∷ es) (r ∷ rs) (f ∷ fs) (id, status, verdict, later) =
      let (ds, m, k) = Agree-IsDecided ctl times (suc n) es rs fs later in
      (
        (Verdicts-IsDecided ctl (times n) e f r status verdict, ds),
        omega (arith, m),
        omega (arith, k),
      )
  Agree-IsDecided ctl times n (e ∷ es) [] fs h = absurd h
  Agree-IsDecided ctl times n (e ∷ es) (r ∷ rs) [] h = absurd h
  Agree-IsDecided ctl times n [] (r ∷ rs) fs h = absurd h
  Agree-IsDecided ctl times n [] [] (f ∷ fs) h = absurd h

  exception_count_lem :
      (eng : Engine F) (t_start t_end : F) (moments : ℕ → Moment F)
      (payments : Option (List (PaymentRecord F))) {report : MatcherReport F}
      → reconcile_all eng t_start t_end moments payments ≡ ok report
      → report.exception_count ≡ length report.exceptions
  unfolding reconcile_all report_of
  exception_count_lem eng t_start t_end moments payments h =
      let (pays, _, h1) = >>=-eq-ok (payments_of eng payments) _ h in
      let (st, _, h2) = >>=-eq-ok (run_loops eng moments pays) _ h1 in rw (← ok-injective h2) refl

  -- The result of a run whose exceptions are decided.
  run_result-Agree :
      (set : Setting F) (ds : NormalizedDataset F) (report : MatcherReport F)
      (done : List (AiDecisionResult F) × List (FinancialException F))
      → report.exception_count ≡ length report.exceptions
      → Agree (run_controller set ds) set.times 0 report.exceptions done.0 done.1
      → Agree
          (run_controller set ds)
          set.times
          0
          report.exceptions
          (run_result set ds report done).ai_results
          (run_result set ds report done).exceptions
        × ((run_result set ds report done).ai_resolved_count
              + (run_result set ds report done).human_review_count
            ≡ (run_result set ds report done).exception_count)
  unfolding run_result
  run_result-Agree set ds report (rs, fs) counted agree =
      let (decided, _, all) =
        Agree-IsDecided (run_controller set ds) set.times 0 report.exceptions rs fs agree in
      (agree, omega (arith, counted, all, count_status-decided fs decided))

  -- In a run that returns, each exception of the reconciliation has a result of the controller and
  -- keeps its id; its status is the result's decision, which is HUMAN_REVIEW, or AI_RESOLVED with
  -- an answer of the model that meets the decision policy on the gathered evidence; and those
  -- resolved and those left to a human are all of them.
  pub run_pipeline-Agree :
      (set : Setting F) (ds : NormalizedDataset F) {res : StressTestRunResult F}
      → run_pipeline set ds ≡ ok res
      → (report : MatcherReport F) × (reconcile_all
            (run_engine set ds)
            set.readings.recon_inner.0
            set.readings.recon_inner.1
            set.moments
            (some ds.payments)
          ≡ ok report)
        × Agree (run_controller set ds) set.times 0 report.exceptions res.ai_results res.exceptions
        × (res.ai_resolved_count + res.human_review_count ≡ res.exception_count)
  unfolding run_pipeline
  run_pipeline-Agree set ds h =
      let (report, reported, h1) =
        >>=-eq-ok
          (reconcile_all (run_engine set ds) set.readings.recon_inner.0 set.readings.recon_inner.1
            set.moments (some ds.payments))
          _ h in
      let (looked, _, h2) =
        >>=-eq-ok (lookup_all set.codec (loaded_store set ds) (take 500 ds.payments)) _ h1 in
      let (done, investigated, h3) =
        >>=-eq-ok (investigate_all (run_controller set ds) set.times 0 report.exceptions) _ h2 in
      let counted =
        exception_count_lem (run_engine set ds) set.readings.recon_inner.0
          set.readings.recon_inner.1 set.moments (some ds.payments) reported in
      let agree =
        investigate_all-Agree (run_controller set ds) set.times 0 report.exceptions done
          investigated in
      let both = run_result-Agree set ds report done counted agree in
      (report, reported, rw (← ok-injective h3) both.0, rw (← ok-injective h3) both.1)
