-- ===== src/Ai/Agent/Safety.antt =====
-- ai/agent.py: when an investigation resolves an exception.
use text.Mathlib.TextEquality.{eq_iff}
use vault_recon_ai.Prelude.{
  Bool, List, Option, String, ap, arith, false, if◌then◌else◌, none, or_default, or_else, refl,
  some, sym, true, ◌&&◌, ◌∙◌, ◌≡◌,
}
use vault_recon_ai.Ai.Agent.{
  AiController, LlmResult, Times, decide, escalate, generated, generation_failed, investigate,
  judge, judge_gathered, judge_parsed, log_started, malformed,
}
use vault_recon_ai.Ai.Agent.Answer.{
  Parsed, Reply, empty_value, ill_typed, object, parse_json_response,
}
use vault_recon_ai.Ai.Agent.Gather.{Gathered, gather}
use vault_recon_ai.Ai.Decision.{AiDecisionResult}
use vault_recon_ai.Ai.Evidence.{EvidenceSet}
use vault_recon_ai.Ai.Guardrails.{evaluate_decision, is_resolution, verify_citations}
use vault_recon_ai.Ai.Guardrails.Safety.{IsSafe, evaluate_decision-IsSafe}
use vault_recon_ai.Dict.{list_or_empty}
use vault_recon_ai.Exceptions.{FinancialException}
use vault_recon_ai.Float.{Float}
use vault_recon_ai.Result.{Result, ok, ok-injective, raised}
use vault_recon_ai.Text.{Text, codes, upper}
use vault_recon_ai.Value.{Value}

-- The two decisions are different texts.
human_ne_ai : ◌≡◌ {A = String} "HUMAN_REVIEW" "AI_RESOLVED" → ⊥
human_ne_ai h = ground (arith, eq_iff "HUMAN_REVIEW" "AI_RESOLVED")

-- The decision of an answer whose resolution passes, or not.
abbrev pub final_of : Bool → String
final_of b = if b then "AI_RESOLVED" else "HUMAN_REVIEW"

-- Both tests hold where that is a resolution.
both_hold : (a b : Bool) → final_of (a && b) ≡ "AI_RESOLVED" → (a ≡ true) × (b ≡ true)
both_hold true true h = (refl, refl)
both_hold true false h = absurd (human_ne_ai h)
both_hold false b h = absurd (human_ne_ai h)

module _ {F : Type 0} ⦃d : Float F⦄ where
  open d use {lit}

  -- The parts of an answer, with the defaults of the code.
  abbrev pub decision_of : Reply F → Text
  decision_of reply = upper (or_default reply.decision (codes "HUMAN_REVIEW"))

  abbrev pub cited_of : Reply F → List (Value F)
  cited_of reply = list_or_empty (or_else reply.evidence_ids reply.evidence)

  -- The model answered with an object that proposes a resolution, and the proposal is safe.
  pub record IsJustified (ctl : AiController F) (e : FinancialException F) (r : AiDecisionResult F)
      : Type 0 where
    pub got : Gathered F
    pub raw : Text
    pub reply : Reply F
    pub gathered : gather ctl.toolkit e ≡ ok got
    pub answered : ctl.generate got.evidence_set e ≡ generated raw
    pub parsed : parse_json_response ctl.loads raw ≡ some (object reply)
    pub proposes : is_resolution (decision_of reply) ≡ true
    pub safe :
        IsSafe ctl.confidence_threshold
          (decision_of reply)
          (or_default reply.confidence (lit 70 2))
          (or_default reply.reason (codes "No detailed rationale provided."))
          (cited_of reply)
          got.evidence_set
    pub quoted : r.evidence_ids ≡ (verify_citations (cited_of reply) got.evidence_set).0

  abbrev Resolves :
      AiController F → FinancialException F → Gathered F → Reply F → AiDecisionResult F → Type 0
  Resolves ctl e got reply r =
      (is_resolution (decision_of reply) ≡ true)
      × IsSafe ctl.confidence_threshold (decision_of reply) (or_default reply.confidence (lit 70 2))
          (or_default reply.reason (codes "No detailed rationale provided.")) (cited_of reply)
          got.evidence_set
      × (r.evidence_ids ≡ (verify_citations (cited_of reply) got.evidence_set).0)

  verified_of_passed :
      (threshold : F) (decision : Text) (confidence : F) (reason : Text) (cited : List (Value F))
      (s : EvidenceSet F)
      → (evaluate_decision threshold decision confidence reason cited s).passed ≡ true
      → (evaluate_decision threshold decision confidence reason cited s).verified_ids
        ≡ (verify_citations cited s).0
  unfolding evaluate_decision
  verified_of_passed threshold decision confidence reason cited s h = ground arith

  decide-Resolves :
      (ctl : AiController F) (times : Times F) (e : FinancialException F) (got : Gathered F)
      (raw : Text) (reply : Reply F) {r : AiDecisionResult F}
      → (decide ctl times e got raw reply).0 ≡ ok r
      → r.decision ≡ "AI_RESOLVED"
      → Resolves ctl e got reply r
  unfolding decide
  decide-Resolves ctl times e got raw reply {r} h resolved =
      let same_result = ok-injective h in
      let tests = both_hold _ _ (ap (λ x. x.decision) same_result ∙ resolved) in
      let confidence = or_default reply.confidence (lit 70 2) in
      let proposal = or_default reply.reason (codes "No detailed rationale provided.") in
      (
        tests.0,
        (evaluate_decision-IsSafe ctl.confidence_threshold (decision_of reply) confidence proposal
              (cited_of reply) got.evidence_set).0
            tests.1,
        sym (ap (λ x. x.evidence_ids) same_result)
            ∙ verified_of_passed ctl.confidence_threshold (decision_of reply) confidence proposal
                (cited_of reply) got.evidence_set tests.1,
      )

  -- An escalation resolves nothing.
  escalate-absurd :
      (times : Times F) (e : FinancialException F) (result : AiDecisionResult F)
      {r : AiDecisionResult F}
      → result.decision ≡ "HUMAN_REVIEW"
      → (escalate times e result).0 ≡ ok r
      → r.decision ≡ "AI_RESOLVED"
      → ⊥
  unfolding escalate
  escalate-absurd times e result human h resolved =
      human_ne_ai (sym human ∙ ap (λ x. x.decision) (ok-injective h) ∙ resolved)

  judge_parsed-Resolves :
      (ctl : AiController F) (times : Times F) (e : FinancialException F) (got : Gathered F)
      (raw : Text) (p : Option (Parsed F)) {r : AiDecisionResult F}
      → (judge_parsed ctl times e got raw p).0 ≡ ok r
      → r.decision ≡ "AI_RESOLVED"
      → (reply : Reply F) × (p ≡ some (object reply)) × Resolves ctl e got reply r
  unfolding judge_parsed malformed
  judge_parsed-Resolves ctl times e got raw none h resolved =
      absurd (escalate-absurd times e _ refl h resolved)
  judge_parsed-Resolves ctl times e got raw (some empty_value) h resolved =
      absurd (escalate-absurd times e _ refl h resolved)
  judge_parsed-Resolves ctl times e got raw (some ill_typed) h resolved = cc
  judge_parsed-Resolves ctl times e got raw (some (object reply)) h resolved =
      (reply, refl, decide-Resolves ctl times e got raw reply h resolved)

  judge-IsJustified :
      (ctl : AiController F) (times : Times F) (e : FinancialException F) (got : Gathered F)
      (answer : LlmResult) {r : AiDecisionResult F}
      → gather ctl.toolkit e ≡ ok got
      → ctl.generate got.evidence_set e ≡ answer
      → (judge ctl times e got answer).0 ≡ ok r
      → r.decision ≡ "AI_RESOLVED"
      → IsJustified ctl e r
  unfolding judge
  judge-IsJustified ctl times e got (generation_failed message) g a h resolved =
      absurd (escalate-absurd times e _ refl h resolved)
  judge-IsJustified ctl times e got (generated raw) g a h resolved =
      let (reply, p, (proposes, safe, quoted)) =
        judge_parsed-Resolves ctl times e got raw (parse_json_response ctl.loads raw) h resolved in
      record {
        got = got;
        raw = raw;
        reply = reply;
        gathered = g;
        answered = a;
        parsed = p;
        proposes = proposes;
        safe = safe;
        quoted = quoted;
      }

  judge_gathered-IsJustified :
      (ctl : AiController F) (times : Times F) (e : FinancialException F) (g : Result (Gathered F))
      {r : AiDecisionResult F}
      → gather ctl.toolkit e ≡ g
      → (judge_gathered ctl times e g).0 ≡ ok r
      → r.decision ≡ "AI_RESOLVED"
      → IsJustified ctl e r
  unfolding judge_gathered
  judge_gathered-IsJustified ctl times e raised g h resolved = cc
  judge_gathered-IsJustified ctl times e (ok got) g h resolved =
      judge-IsJustified ctl times e got (ctl.generate got.evidence_set e) g refl h resolved

  -- If an investigation returns the decision AI_RESOLVED, the evidence was gathered, the model
  -- answered with an object that proposes a resolution, the proposal meets the decision policy on
  -- that evidence, and the ids that the result cites are the proposal's verified citations.
  pub investigate-IsJustified :
      (ctl : AiController F) (times : Times F) (e : FinancialException F) {r : AiDecisionResult F}
      → (investigate ctl times e).0 ≡ ok r
      → r.decision ≡ "AI_RESOLVED"
      → IsJustified ctl (log_started times e) r
  unfolding investigate
  investigate-IsJustified ctl times e h resolved =
      judge_gathered-IsJustified ctl times (log_started times e)
        (gather ctl.toolkit (log_started times e)) refl h resolved
