-- ===== src/Pipeline/Tests.antt =====
-- stress_test/runner.py on a data set with a payment that no processor has.
use vault_recon_ai.Prelude.{
  List, Option, [], if◌then◌else◌, none, refl, some, sym, ◌+◌, ◌∙◌, ◌∷◌, ◌≡◌,
}
use vault_recon_ai.Ai.Agent.{AiController, generated, log_started}
use vault_recon_ai.Ai.Agent.Answer.{Parsed, Reply, ill_typed, object, parse_json_response}
use vault_recon_ai.Ai.Agent.Gather.{gather}
use vault_recon_ai.Ai.Decision.{AiDecisionResult}
use vault_recon_ai.Ai.Sample.{sample_mismatch, sample_times}
use vault_recon_ai.Exceptions.{FinancialException}
use vault_recon_ai.Float.Micro.{Micro, micro_float}
use vault_recon_ai.Matcher.Order.{reconcile_order}
use vault_recon_ai.Matcher.Run.{MatcherReport, reconcile_all}
use vault_recon_ai.Pipeline.{
  StressTestRunResult, count_status, investigate_all, run_controller, run_engine, run_pipeline,
}
use vault_recon_ai.Pipeline.Decided.{Agree, run_pipeline-Agree}
use vault_recon_ai.Pipeline.Returns.{Gathers, WellTyped, investigate_all-Returns}
use vault_recon_ai.Pipeline.Sample.{sample_setting, unmatched_dataset}
use vault_recon_ai.Prelude.Int.{pos}
use vault_recon_ai.Result.{ok}
use vault_recon_ai.Sample.{empty_registry, moment, payment_p1, sample_codec, sample_vault}
use vault_recon_ai.Schemas.Keys.{payment_order_key, to_key, to_merchant_temporal_key}
use vault_recon_ai.Text.{Text, codes, text_eq}

ran : (res : StressTestRunResult Micro) × (run_pipeline sample_setting unmatched_dataset ≡ ok res)
unfolding run_pipeline micro_float reconcile_order to_key to_merchant_temporal_key payment_order_key
ran = (_, refl)

run_pipeline-Agree_example :
    (report : MatcherReport Micro) × (reconcile_all
        (run_engine sample_setting unmatched_dataset)
        (pos 0)
        (pos 1_000_000)
        (λ n. moment)
        (some (payment_p1 ∷ []))
      ≡ ok report)
    × Agree
        (run_controller sample_setting unmatched_dataset)
        (λ n. sample_times)
        0
        report.exceptions
        ran.0.ai_results
        ran.0.exceptions
    × (ran.0.ai_resolved_count + ran.0.human_review_count ≡ ran.0.exception_count)
run_pipeline-Agree_example = run_pipeline-Agree sample_setting unmatched_dataset ran.1

generated-injective : (a b : Text) → generated a ≡ generated b → a ≡ b
generated-injective a b h = cc

object_ne_ill_typed :
    {r : Reply Micro} → ◌≡◌ {A = Option (Parsed Micro)} (some (object r)) (some ill_typed) → ⊥
object_ne_ill_typed h = cc

-- A provider that answers with an object; other texts may load as anything.
abbrev reply : Reply Micro
reply = record {
  decision = some (codes "RESOLVED");
  exception_type = none;
  confidence = some (pos 900_000);
  reason = some (codes "late");
  evidence_ids = some [];
  evidence = none;
  recommended_action = none;
  findings = none;
}

abbrev answering_controller : AiController Micro
answering_controller = record {
  toolkit = record { db = sample_vault; codec = sample_codec; fee_registry = empty_registry };
  generate = λ s e. generated (codes "{}");
  loads = λ raw. if text_eq raw (codes "{}") then some (object reply) else some ill_typed;
  confidence_threshold = pos 850_000;
}

mismatch-Gathers : Gathers answering_controller sample_mismatch
unfolding gather log_started micro_float
mismatch-Gathers t = (_, refl)

answer_parsed : parse_json_response answering_controller.loads (codes "{}") ≡ some (object reply)
unfolding parse_json_response text_eq
answer_parsed = refl

answering-WellTyped : WellTyped answering_controller
answering-WellTyped s e raw asked wrong =
    let same : codes "{}" ≡ raw = generated-injective _ _ asked in
    object_ne_ill_typed (sym answer_parsed ∙ rw (← same) at wrong)

investigate_all-Returns_example :
    (done : List (AiDecisionResult Micro) × List (FinancialException Micro)) × (investigate_all
        answering_controller
        (λ n. sample_times)
        0
        (sample_mismatch ∷ [])
      ≡ ok done)
    × Agree answering_controller (λ n. sample_times) 0 (sample_mismatch ∷ []) done.0 done.1
    × (count_status "AI_RESOLVED" done.1 + count_status "HUMAN_REVIEW" done.1 ≡ 1)
investigate_all-Returns_example =
    investigate_all-Returns answering_controller (λ n. sample_times) 0 (sample_mismatch ∷ [])
      answering-WellTyped (mismatch-Gathers, tt)
