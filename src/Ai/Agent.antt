-- ===== src/Ai/Agent.antt =====
-- ai/agent.py: `AiController.investigate`, with the evidence that it gathers in Gather.antt and the
-- parsing of the model's answer in Answer.antt. The language model
-- is a parameter: it may answer anything to the evidence and the exception.
pub mod Answer
pub mod Gather
pub mod Safety
pub mod Audit
use vault_recon_ai.Prelude.{
  Option, String, [], false, if◌then◌else◌, none, or_default, or_else, some, ◌&&◌, ◌∷◌,
}
use vault_recon_ai.Ai.Agent.Answer.{
  Parsed, Reply, empty_value, ill_typed, object, parse_json_response,
}
use vault_recon_ai.Ai.Agent.Gather.{Gathered, gather}
use vault_recon_ai.Ai.Decision.{
  AiDecisionResult, Rationale, ValidationReason, execution_failed, guardrail_escalation,
  llm_execution_error, malformed_json_response, malformed_output, proposed, verdict_reason,
}
use vault_recon_ai.Ai.Evidence.{EvidenceSet}
use vault_recon_ai.Ai.Guardrails.{evaluate_decision, is_resolution}
use vault_recon_ai.Ai.Toolkit.{InvestigationToolkit}
use vault_recon_ai.Dict.{list_or_empty}
use vault_recon_ai.Exceptions.{Details, FinancialException, log_event}
use vault_recon_ai.Float.{Float}
use vault_recon_ai.Matcher.Order.Passes.{passed}
use vault_recon_ai.Result.{Result, ok, raised}
use vault_recon_ai.Text.{Text, codes, upper}

-- `self.llm.generate`: a text, or an exception with its message.
pub data LlmResult : Type 0 where
  generated : Text → LlmResult
  generation_failed : Text → LlmResult

pub record AiController (F : Type 0) : Type 0 where
  pub toolkit : InvestigationToolkit F
  pub generate : EvidenceSet F → FinancialException F → LlmResult
  -- json.loads
  pub loads : Text → Option (Parsed F)
  pub confidence_threshold : F

-- What one investigation reads from the clocks: its duration, and the times of its two events.
pub record Times (F : Type 0) : Type 0 where
  pub duration_ms : F
  pub started : F
  pub started_updated : F
  pub decided : F
  pub decided_updated : F

module _ {F : Type 0} ⦃d : Float F⦄ where
  open d use {lit, lt}

  -- min(confidence, 0.75): the second where it is smaller.
  capped : F → F
  capped c = if lt (lit 75 2) c then lit 75 2 else c

  -- The decision of the two failures that end an investigation.
  escalation :
      Times F
      → FinancialException F
      → Rationale F
      → Text
      → Option Text
      → ValidationReason F
      → AiDecisionResult F
  escalation times e why finding raw reason = record {
    decision = "HUMAN_REVIEW";
    exception_type = e.exception_type;
    confidence = lit 50 2;
    reason = why;
    evidence_ids = [];
    recommended_action = codes "escalate_to_finance_controller";
    findings = finding ∷ [];
    raw_response = raw;
    verification_passed = false;
    validation_reason = reason;
    investigation_duration_ms = times.duration_ms;
  }

  -- The updates that both failures make, with the event "AI_DECISION".
  unfoldable pub escalate :
      Times F
      → FinancialException F
      → AiDecisionResult F
      → Result (AiDecisionResult F) × FinancialException F
  unfolding log_event
  escalate times e result = (
    ok result,
    log_event times.decided times.decided_updated "AI_DECISION" "AI_CONTROLLER"
        (Details.decision_result result) (some result.reason)
        (record e {
          status = "HUMAN_REVIEW";
          resolution_reason = some result.reason;
          ai_confidence = some result.confidence;
        }),
  )

  -- Steps 5 and 6, at a parsed answer.
  unfoldable pub decide :
      AiController F
      → Times F
      → FinancialException F
      → Gathered F
      → Text
      → Reply F
      → Result (AiDecisionResult F) × FinancialException F
  unfolding evaluate_decision capped log_event is_resolution upper
  decide ctl times e got raw reply =
      let raw_dec = upper (or_default reply.decision (codes "HUMAN_REVIEW")) in
      let confidence = or_default reply.confidence (lit 70 2) in
      let proposal = or_default reply.reason (codes "No detailed rationale provided.") in
      let cited = list_or_empty (or_else reply.evidence_ids reply.evidence) in
      let val =
        evaluate_decision ctl.confidence_threshold raw_dec confidence proposal cited
          got.evidence_set in
      let final : String =
        if is_resolution raw_dec && val.passed then "AI_RESOLVED" else "HUMAN_REVIEW" in
      let reason : Rationale F =
        if val.passed then proposed proposal else guardrail_escalation val.verdict proposal in
      let confidence' = if val.passed then confidence else capped confidence in
      (
        ok (record {
          decision = final;
          exception_type = or_default reply.exception_type e.exception_type;
          confidence = confidence';
          reason = reason;
          evidence_ids = val.verified_ids;
          recommended_action =
              or_default reply.recommended_action (codes "escalate_to_finance_controller");
          findings = list_or_empty reply.findings;
          raw_response = some raw;
          verification_passed = val.passed;
          validation_reason = verdict_reason val.verdict;
          investigation_duration_ms = times.duration_ms;
        }),
        log_event times.decided times.decided_updated "AI_INVESTIGATION_COMPLETED" "AI_CONTROLLER"
            (Details.completed final confidence' val.verified_ids val.unverified_ids
              got.tools_called times.duration_ms val.passed)
            (some reason)
            (record e {
              status = final;
              resolution_reason = some reason;
              ai_confidence = some confidence';
              evidence = val.verified_ids;
            }),
      )

  -- "Malformed JSON response."
  unfoldable pub malformed :
      Times F → FinancialException F → Text → Result (AiDecisionResult F) × FinancialException F
  unfolding escalation escalate
  malformed times e raw = escalate times e (
      escalation times e malformed_output (codes "Malformed JSON response.") (some raw)
        malformed_json_response)

  -- Step 4, at the parsed answer. One of another type raises where its fields are read.
  unfoldable pub judge_parsed :
      AiController F
      → Times F
      → FinancialException F
      → Gathered F
      → Text
      → Option (Parsed F)
      → Result (AiDecisionResult F) × FinancialException F
  unfolding malformed decide
  judge_parsed ctl times e got raw none = malformed times e raw
  judge_parsed ctl times e got raw (some empty_value) = malformed times e raw
  judge_parsed ctl times e got raw (some ill_typed) = (raised, e)
  judge_parsed ctl times e got raw (some (object reply)) = decide ctl times e got raw reply

  -- Steps 3 and 4, at the model's answer.
  unfoldable pub judge :
      AiController F
      → Times F
      → FinancialException F
      → Gathered F
      → LlmResult
      → Result (AiDecisionResult F) × FinancialException F
  unfolding escalation escalate judge_parsed parse_json_response
  judge ctl times e got (generation_failed message) = escalate times e (
      escalation times e (execution_failed message) (codes "LLM provider invocation failure.") none
        llm_execution_error)
  judge ctl times e got (generated raw) =
      judge_parsed ctl times e got raw (parse_json_response ctl.loads raw)

  -- On from the evidence, where it was gathered.
  unfoldable pub judge_gathered :
      AiController F
      → Times F
      → FinancialException F
      → Result (Gathered F)
      → Result (AiDecisionResult F) × FinancialException F
  unfolding judge
  judge_gathered ctl times e raised = (raised, e)
  judge_gathered ctl times e (ok got) = judge ctl times e got (ctl.generate got.evidence_set e)

  -- The event that opens an investigation.
  unfoldable pub log_started : Times F → FinancialException F → FinancialException F
  unfolding log_event
  log_started times e =
      log_event times.started times.started_updated "AI_INVESTIGATION_STARTED" "AI_CONTROLLER"
        (Details.investigation e.exception_id e.exception_type e.primary_record_id) none e

  -- `investigate`: its result, and the exception as it leaves it, also where it raises.
  unfoldable pub investigate :
      AiController F
      → Times F
      → FinancialException F
      → Result (AiDecisionResult F) × FinancialException F
  unfolding log_started gather judge_gathered
  investigate ctl times e =
      let e' = log_started times e in judge_gathered ctl times e' (gather ctl.toolkit e')
