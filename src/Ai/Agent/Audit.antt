-- ===== src/Ai/Agent/Audit.antt =====
-- ai/agent.py: what an investigation leaves in the exception.
use vault_recon_ai.Prelude.{Bool, Option, false, inl, inr, none, refl, some, sym, true, ◌≡◌, ◌⊎◌}
use vault_recon_ai.Ai.Agent.{
  AiController, LlmResult, Times, decide, escalate, generated, generation_failed, investigate,
  judge, judge_gathered, judge_parsed, log_started, malformed,
}
use vault_recon_ai.Ai.Agent.Answer.{
  Parsed, Reply, empty_value, ill_typed, object, parse_json_response,
}
use vault_recon_ai.Ai.Agent.Gather.{Gathered, gather}
use vault_recon_ai.Ai.Agent.Safety.{final_of}
use vault_recon_ai.Ai.Decision.{AiDecisionResult}
use vault_recon_ai.Exceptions.{FinancialException, log_event}
use vault_recon_ai.Exceptions.Trail.{Extends, more, same}
use vault_recon_ai.Float.{Float}
use vault_recon_ai.Result.{Result, ok, raised}
use vault_recon_ai.Text.{Text}

one_of_two : (b : Bool) → (final_of b ≡ "AI_RESOLVED") ⊎ (final_of b ≡ "HUMAN_REVIEW")
one_of_two true = inl refl
one_of_two false = inr refl

module _ {F : Type 0} ⦃d : Float F⦄ where
  -- An investigation that returns closes the exception with its decision and adds two events to
  -- the audit trail. One that raises adds the opening event, and changes nothing else of these.
  abbrev pub IsClosed :
      FinancialException F → Result (AiDecisionResult F) × FinancialException F → Type 0
  IsClosed e (ok r, e') =
      (e'.status ≡ r.decision)
      × ((r.decision ≡ "AI_RESOLVED") ⊎ (r.decision ≡ "HUMAN_REVIEW"))
      × (e'.ai_confidence ≡ some r.confidence)
      × (e'.resolution_reason ≡ some r.reason)
      × (e'.exception_id ≡ e.exception_id)
      × Extends e.audit_trail 2 e'.audit_trail
  IsClosed e (raised, e') =
      (e'.status ≡ e.status)
      × (e'.ai_confidence ≡ e.ai_confidence)
      × (e'.resolution_reason ≡ e.resolution_reason)
      × Extends e.audit_trail 1 e'.audit_trail

  escalate-IsClosed :
      (times : Times F) (e : FinancialException F) (r : AiDecisionResult F)
      → r.decision ≡ "HUMAN_REVIEW"
      → IsClosed e (escalate times (log_started times e) r)
  unfolding escalate log_started log_event
  escalate-IsClosed times e r human = (sym human, inr human, refl, refl, refl, more _ (more _ same))

  decide-IsClosed :
      (ctl : AiController F) (times : Times F) (e : FinancialException F) (got : Gathered F)
      (raw : Text) (reply : Reply F)
      → IsClosed e (decide ctl times (log_started times e) got raw reply)
  unfolding decide log_started log_event
  decide-IsClosed ctl times e got raw reply =
      (refl, one_of_two _, refl, refl, refl, more _ (more _ same))

  judge_parsed-IsClosed :
      (ctl : AiController F) (times : Times F) (e : FinancialException F) (got : Gathered F)
      (raw : Text) (parsed : Option (Parsed F))
      → IsClosed e (judge_parsed ctl times (log_started times e) got raw parsed)
  unfolding judge_parsed malformed
  judge_parsed-IsClosed ctl times e got raw none = escalate-IsClosed times e _ refl
  judge_parsed-IsClosed ctl times e got raw (some empty_value) = escalate-IsClosed times e _ refl
  judge_parsed-IsClosed ctl times e got raw (some ill_typed) =
      unfold log_started in (refl, refl, refl, more _ same)
  judge_parsed-IsClosed ctl times e got raw (some (object reply)) =
      decide-IsClosed ctl times e got raw reply

  judge-IsClosed :
      (ctl : AiController F) (times : Times F) (e : FinancialException F) (got : Gathered F)
      (answer : LlmResult)
      → IsClosed e (judge ctl times (log_started times e) got answer)
  unfolding judge
  judge-IsClosed ctl times e got (generation_failed message) = escalate-IsClosed times e _ refl
  judge-IsClosed ctl times e got (generated raw) =
      judge_parsed-IsClosed ctl times e got raw (parse_json_response ctl.loads raw)

  judge_gathered-IsClosed :
      (ctl : AiController F) (times : Times F) (e : FinancialException F) (g : Result (Gathered F))
      → IsClosed e (judge_gathered ctl times (log_started times e) g)
  unfolding judge_gathered
  judge_gathered-IsClosed ctl times e raised = unfold log_started in (refl, refl, refl, more _ same)
  judge_gathered-IsClosed ctl times e (ok got) =
      judge-IsClosed ctl times e got (ctl.generate got.evidence_set (log_started times e))

  -- An investigation that returns gives the exception the status of its decision, which is
  -- AI_RESOLVED or HUMAN_REVIEW, with its confidence and its reason, keeps the exception's id, and
  -- adds two events behind the old audit trail. One that raises leaves status, confidence and
  -- reason, and adds one event.
  pub investigate-IsClosed :
      (ctl : AiController F) (times : Times F) (e : FinancialException F)
      → IsClosed e (investigate ctl times e)
  unfolding investigate
  investigate-IsClosed ctl times e =
      judge_gathered-IsClosed ctl times e (gather ctl.toolkit (log_started times e))

  judge_parsed-raised :
      (ctl : AiController F) (times : Times F) (e : FinancialException F) (got : Gathered F)
      (raw : Text) (p : Option (Parsed F))
      → (judge_parsed ctl times e got raw p).0 ≡ raised
      → p ≡ some ill_typed
  unfolding judge_parsed malformed escalate decide
  judge_parsed-raised ctl times e got raw none h = cc
  judge_parsed-raised ctl times e got raw (some empty_value) h = cc
  judge_parsed-raised ctl times e got raw (some ill_typed) h = refl
  judge_parsed-raised ctl times e got raw (some (object reply)) h = cc

  -- The answer that a controller gets on evidence is a text that parses to a value of other types.
  abbrev pub IsIllTyped : AiController F → FinancialException F → Gathered F → Type 0
  IsIllTyped ctl e got =
      (raw : Text) × (ctl.generate got.evidence_set e ≡ generated raw)
      × (parse_json_response ctl.loads raw ≡ some ill_typed)

  judge-raised :
      (ctl : AiController F) (times : Times F) (e : FinancialException F) (got : Gathered F)
      (answer : LlmResult)
      → ctl.generate got.evidence_set e ≡ answer
      → (judge ctl times e got answer).0 ≡ raised
      → IsIllTyped ctl e got
  unfolding judge escalate
  judge-raised ctl times e got (generation_failed message) a h = absurd (cc)
  judge-raised ctl times e got (generated raw) a h =
      (raw, a, judge_parsed-raised ctl times e got raw (parse_json_response ctl.loads raw) h)

  judge_gathered-raised :
      (ctl : AiController F) (times : Times F) (e : FinancialException F) (g : Result (Gathered F))
      → gather ctl.toolkit e ≡ g
      → (judge_gathered ctl times e g).0 ≡ raised
      → (gather ctl.toolkit e ≡ raised)
        ⊎ ((got : Gathered F) × (gather ctl.toolkit e ≡ ok got) × IsIllTyped ctl e got)
  unfolding judge_gathered
  judge_gathered-raised ctl times e raised g h = inl g
  judge_gathered-raised ctl times e (ok got) g h =
      inr (got, g, judge-raised ctl times e got (ctl.generate got.evidence_set e) refl h)

  -- An investigation raises only where a tool raises on a stored text, or the model's answer
  -- parses to a value whose fields have other types than the controller reads.
  pub investigate-raised :
      (ctl : AiController F) (times : Times F) (e : FinancialException F)
      → (investigate ctl times e).0 ≡ raised
      → (gather ctl.toolkit (log_started times e) ≡ raised)
        ⊎ ((got : Gathered F) × (gather ctl.toolkit (log_started times e) ≡ ok got)
            × IsIllTyped ctl (log_started times e) got)
  unfolding investigate
  investigate-raised ctl times e h =
      judge_gathered-raised ctl times (log_started times e)
        (gather ctl.toolkit (log_started times e)) refl h
