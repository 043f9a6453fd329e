-- ===== src/Pipeline/Returns.antt =====
-- stress_test/runner.py: when the loop over the exceptions returns.
use vault_recon_ai.Prelude.{
  All, List, [], arith, inl, inr, length, refl, some, suc, sym, ℕ, ◌+◌, ◌∙◌, ◌∷◌, ◌≡◌, ◌≢◌, ◌⊎◌,
}
use vault_recon_ai.Ai.Agent.{AiController, Times, generated, investigate, log_started}
use vault_recon_ai.Ai.Agent.Answer.{ill_typed, parse_json_response}
use vault_recon_ai.Ai.Agent.Audit.{investigate-raised}
use vault_recon_ai.Ai.Agent.Gather.{Gathered, gather}
use vault_recon_ai.Ai.Decision.{AiDecisionResult}
use vault_recon_ai.Ai.Evidence.{EvidenceSet}
use vault_recon_ai.Exceptions.{FinancialException}
use vault_recon_ai.Float.{Float}
use vault_recon_ai.Pipeline.{count_status, investigate_all}
use vault_recon_ai.Pipeline.Decided.{
  Agree, Agree-IsDecided, count_status-decided, investigate_all-Agree,
}
use vault_recon_ai.Result.{Result, ok, raised}
use vault_recon_ai.Text.{Text}

raised_ne_ok : {A : Type 0} {a : A} → raised ≡ ok a → ⊥
raised_ne_ok h = cc

Result-cases : {A : Type 0} (x : Result A) → (x ≡ raised) ⊎ ((a : A) × (x ≡ ok a))
Result-cases raised = inl refl
Result-cases (ok a) = inr (a, refl)

module _ {F : Type 0} ⦃d : Float F⦄ where
  -- The tools return on an exception.
  abbrev pub Gathers : AiController F → FinancialException F → Type 0
  Gathers ctl e =
      (times : Times F) → (got : Gathered F) × (gather ctl.toolkit (log_started times e) ≡ ok got)

  -- No answer that the provider gives parses to a value whose fields have other types.
  abbrev pub WellTyped : AiController F → Type 0
  WellTyped ctl =
      (s : EvidenceSet F) (e : FinancialException F) (raw : Text)
      → ctl.generate s e ≡ generated raw
      → parse_json_response ctl.loads raw ≢ some ill_typed

  investigate-Returns :
      (ctl : AiController F) (times : Times F) (e : FinancialException F)
      → WellTyped ctl
      → Gathers ctl e
      → (r : AiDecisionResult F) × ((investigate ctl times e).0 ≡ ok r)
  investigate-Returns ctl times e typed gathers = elim (Result-cases (investigate ctl times e).0) [
    | inr found ↦ found
    | inl failed ↦ elim (investigate-raised ctl times e failed) [
      | inl none_gathered ↦ absurd (raised_ne_ok (sym none_gathered ∙ (gathers times).1))
      | inr (got, gathered, (raw, asked, wrong)) ↦ absurd (typed _ _ raw asked wrong)
    ]
  ]

  investigate_all_returns :
      (ctl : AiController F) (times : ℕ → Times F) (n : ℕ) (es : List (FinancialException F))
      → WellTyped ctl
      → All (Gathers ctl) es
      → (done : List (AiDecisionResult F) × List (FinancialException F)) × (investigate_all ctl
            times n es
          ≡ ok done)
  unfolding investigate_all
  investigate_all_returns ctl times n [] typed gathers = (_, refl)
  investigate_all_returns ctl times n (e ∷ es) typed (g, gs) =
      let (r, answered) = investigate-Returns ctl (times n) e typed g in
      let (rest, later) = investigate_all_returns ctl times (suc n) es typed gs in
      ((r ∷ rest.0, (investigate ctl (times n) e).1 ∷ rest.1), rw (answered, later) refl)

  -- Where the tools return on every exception and no answer of the provider parses to a value of
  -- other types, the loop over the exceptions ends, also where the provider fails or answers what is
  -- no JSON, and each of them comes to HUMAN_REVIEW, or to AI_RESOLVED with a justified answer.
  pub investigate_all-Returns :
      (ctl : AiController F) (times : ℕ → Times F) (n : ℕ) (es : List (FinancialException F))
      → WellTyped ctl
      → All (Gathers ctl) es
      → (done : List (AiDecisionResult F) × List (FinancialException F)) × (investigate_all ctl
            times n es
          ≡ ok done)
        × Agree ctl times n es done.0 done.1
        × (count_status "AI_RESOLVED" done.1 + count_status "HUMAN_REVIEW" done.1 ≡ length es)
  investigate_all-Returns ctl times n es typed gathers =
      let (done, returned) = investigate_all_returns ctl times n es typed gathers in
      let agree = investigate_all-Agree ctl times n es done returned in
      let (decided, _, all) = Agree-IsDecided ctl times n es done.0 done.1 agree in
      (done, returned, agree, omega (arith, all, count_status-decided done.1 decided))
