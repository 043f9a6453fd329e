-- ===== src/Ai/Decision.antt =====
-- ai/agent.py's `AIDecisionResult`, and the reasons in it. A reason that the code composes is kept
-- as its template and the values that the text shows.
-- `ValidationResult.reason` of ai/guardrails.py, by the rule that gave it. A contradiction is kept
-- as the amount that its text names.
use vault_recon_ai.Prelude.{Bool, List, Option, String}
use vault_recon_ai.Text.{Text}

pub data Verdict (F : Type 0) : Type 0 where
  unverified_evidence : List Text → Verdict F
  factual_contradiction : List F → Verdict F
  low_confidence : F → F → Verdict F
  insufficient_evidence : Verdict F
  all_passed : Verdict F

pub data Rationale (F : Type 0) : Type 0 where
  execution_failed : Text → Rationale F
  malformed_output : Rationale F
  proposed : Text → Rationale F
  guardrail_escalation : Verdict F → Text → Rationale F

-- "LLM_EXECUTION_ERROR", "MALFORMED_JSON_RESPONSE", or the verdict's text.
pub data ValidationReason (F : Type 0) : Type 0 where
  llm_execution_error : ValidationReason F
  malformed_json_response : ValidationReason F
  verdict_reason : Verdict F → ValidationReason F

pub record AiDecisionResult (F : Type 0) : Type 0 where
  pub decision : String
  pub exception_type : Text
  pub confidence : F
  pub reason : Rationale F
  pub evidence_ids : List Text
  pub recommended_action : Text
  pub findings : List Text
  pub raw_response : Option Text
  pub verification_passed : Bool
  pub validation_reason : ValidationReason F
  pub investigation_duration_ms : F
