-- ===== src/Ai/Tests.antt =====
-- ai/ on an exception at the sample vault, with a model that cites the processor's record.
use vault_recon_ai.Prelude.{
  List, [], filter, if◌then◌else◌, none, not, refl, some, true, ◌++◌, ◌||◌, ◌↔◌, ◌∷◌, ◌≡◌, ◌⊎◌,
}
use vault_recon_ai.Ai.Agent.{AiController, generated, investigate, log_started}
use vault_recon_ai.Ai.Agent.Answer.{Reply, ill_typed, object}
use vault_recon_ai.Ai.Agent.Audit.{IsClosed, IsIllTyped, investigate-IsClosed, investigate-raised}
use vault_recon_ai.Ai.Agent.Gather.{Gathered, gather}
use vault_recon_ai.Ai.Agent.Safety.{IsJustified, investigate-IsJustified}
use vault_recon_ai.Ai.Decision.{AiDecisionResult, all_passed, proposed, verdict_reason}
use vault_recon_ai.Ai.Evidence.{
  Evidence, EvidenceSet, add_evidence, contains_id, empty_set, get_by_record_id, get_evidence,
}
use vault_recon_ai.Ai.Evidence.Laws.{add_evidence_lem}
use vault_recon_ai.Ai.Guardrails.{evaluate_decision, verify_citations}
use vault_recon_ai.Ai.Guardrails.Facts.{claimed_texts}
use vault_recon_ai.Ai.Guardrails.Safety.{
  IsSafe, cited_ids, evaluate_decision-IsSafe, verify_citations-filter,
}
use vault_recon_ai.Ai.Sample.{sample_mismatch, sample_times}
use vault_recon_ai.Float.Micro.{Micro, micro_float}
use vault_recon_ai.Prelude.Int.{pos}
use vault_recon_ai.Result.{ok, raised}
use vault_recon_ai.Sample.{empty_registry, sample_codec, sample_vault}
use vault_recon_ai.Text.{codes, text_eq}
use vault_recon_ai.Value.{Value}

abbrev reply_x1 : Reply Micro
reply_x1 = record {
  decision = some (codes "resolved");
  exception_type = none;
  confidence = some (pos 900_000);
  reason = some (codes "late");
  evidence_ids = some (Value.str (codes " X1 ") ∷ []);
  evidence = none;
  recommended_action = some (codes "close");
  findings = none;
}

abbrev controller : AiController Micro
controller = record {
  toolkit = record { db = sample_vault; codec = sample_codec; fee_registry = empty_registry };
  generate = λ s e. generated (codes "{}");
  loads = λ raw. some (object reply_x1);
  confidence_threshold = pos 850_000;
}

abbrev expected_result : AiDecisionResult Micro
expected_result = record {
  decision = "AI_RESOLVED";
  exception_type = codes "TIMING";
  confidence = pos 900_000;
  reason = proposed (codes "late");
  evidence_ids = codes "X1" ∷ [];
  recommended_action = codes "close";
  findings = [];
  raw_response = some (codes "{}");
  verification_passed = true;
  validation_reason = verdict_reason all_passed;
  investigation_duration_ms = pos 7;
}

investigated : (investigate controller sample_times sample_mismatch).0 ≡ ok expected_result
unfolding investigate micro_float
investigated = refl

investigate-IsJustified_example :
    IsJustified controller (log_started sample_times sample_mismatch) expected_result
investigate-IsJustified_example =
    investigate-IsJustified controller sample_times sample_mismatch investigated refl

investigate-IsClosed_example :
    IsClosed sample_mismatch (investigate controller sample_times sample_mismatch)
investigate-IsClosed_example = investigate-IsClosed controller sample_times sample_mismatch

abbrev evidence_x1 : Evidence Micro
evidence_x1 = record {
  evidence_id = codes "EV1";
  record_id = codes "X1";
  evidence_type = codes "PROCESSOR";
  source = "MiniVaultDB";
  relevant_fields = [];
  provenance = codes "REC:PROCESSOR:X1";
}

add_evidence_lem_example :
    (contains_id (add_evidence evidence_x1 empty_set) (codes "X1") ≡ (
      text_eq (codes "EV1") (codes "X1")
      || (text_eq (codes "X1") (codes "X1") || contains_id (empty_set {F = Micro}) (codes "X1"))))
    × (get_evidence (add_evidence evidence_x1 empty_set) (codes "X1") ≡ (
        if text_eq (codes "EV1") (codes "X1")
        then some evidence_x1
        else get_evidence empty_set (codes "X1")))
    × (get_by_record_id (add_evidence evidence_x1 empty_set) (codes "X1") ≡ (
        if text_eq (codes "X1") (codes "X1")
        then get_by_record_id empty_set (codes "X1") ++ evidence_x1 ∷ []
        else get_by_record_id empty_set (codes "X1")))
add_evidence_lem_example = add_evidence_lem evidence_x1 empty_set (codes "X1")

abbrev set_x1 : EvidenceSet Micro
set_x1 = record {
  by_id = (codes "EV1", evidence_x1) ∷ [];
  by_record_id = (codes "X1", evidence_x1 ∷ []) ∷ [];
}

abbrev cited_x1 : List (Value Micro)
cited_x1 = Value.str (codes "X1") ∷ Value.str (codes "Z9") ∷ []

verify_citations-filter_example :
    ((verify_citations cited_x1 set_x1).0 ≡ filter (contains_id set_x1) (cited_ids cited_x1))
    × ((verify_citations cited_x1 set_x1).1
        ≡ filter (λ i. not (contains_id set_x1 i)) (cited_ids cited_x1))
verify_citations-filter_example = verify_citations-filter cited_x1 set_x1

evaluate_decision-IsSafe_example :
    ((evaluate_decision
        (pos 850_000)
        (codes "RESOLVED")
        (pos 900_000)
        (codes "late")
        cited_x1
        set_x1).passed
      ≡ true)
    ↔ IsSafe (pos 850_000) (codes "RESOLVED") (pos 900_000) (codes "late") cited_x1 set_x1
evaluate_decision-IsSafe_example =
    evaluate_decision-IsSafe (pos 850_000) (codes "RESOLVED") (pos 900_000) (codes "late") cited_x1
      set_x1

abbrev list_controller : AiController Micro
list_controller = record controller { loads = λ raw. some ill_typed }

investigation_raises : (investigate list_controller sample_times sample_mismatch).0 ≡ raised
unfolding investigate micro_float
investigation_raises = refl

investigate-raised_example :
    (gather list_controller.toolkit (log_started sample_times sample_mismatch) ≡ raised)
    ⊎ ((got : Gathered Micro) × (gather list_controller.toolkit
            (log_started sample_times sample_mismatch)
          ≡ ok got)
        × IsIllTyped list_controller (log_started sample_times sample_mismatch) got)
investigate-raised_example =
    investigate-raised list_controller sample_times sample_mismatch investigation_raises

-- What the example finds.
amounts_found : claimed_texts (codes "paid $1,500.00 of $6") ≡ codes "1,500.00" ∷ codes "6" ∷ []
unfolding claimed_texts
amounts_found = refl
