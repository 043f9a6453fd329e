-- ===== src/Ai/Guardrails.antt =====
-- ai/guardrails.py: citations, facts, and the decision policy.
pub mod Facts
pub mod Safety
use vault_recon_ai.Prelude.{
  Bool, List, [], false, if◌then◌else◌, is_empty, not, true, ◌&&◌, ◌==◌, ◌∷◌,
}
use vault_recon_ai.Ai.Decision.{
  Verdict, all_passed, factual_contradiction, insufficient_evidence, low_confidence,
  unverified_evidence,
}
use vault_recon_ai.Ai.Evidence.{EvidenceSet, contains_id, evidence_count}
use vault_recon_ai.Ai.Guardrails.Facts.{validate_facts}
use vault_recon_ai.Float.{Float}
use vault_recon_ai.Text.{Text, codes, contains, strip, upper}
use vault_recon_ai.Value.{Value}

-- A contradiction is kept as the amount that its text names.
pub record ValidationResult (F : Type 0) : Type 0 where
  pub passed : Bool
  pub verdict : Verdict F
  pub verified_ids : List Text
  pub unverified_ids : List Text
  pub contradictions : List F

module _ {F : Type 0} where
  -- `EvidenceGuardrail.verify_citations`; blank ids and what is no text are skipped.
  unfoldable pub verify_citations : List (Value F) → EvidenceSet F → List Text × List Text
  unfolding strip contains_id
  verify_citations [] s = ([], [])
  verify_citations (Value.str cid ∷ cids) s =
      let (valid, invalid) = verify_citations cids s in
      let clean_id = strip cid in
      if is_empty clean_id
      then (valid, invalid)
      else if contains_id s clean_id
      then (clean_id ∷ valid, invalid)
      else (valid, clean_id ∷ invalid)
  verify_citations (_ ∷ cids) s = verify_citations cids s

-- raw_decision.upper() in ("RESOLVED", "AI_RESOLVED")
unfoldable pub is_resolution : Text → Bool
unfolding contains
is_resolution decision = contains (codes "RESOLVED" ∷ codes "AI_RESOLVED" ∷ []) decision

module _ {F : Type 0} ⦃d : Float F⦄ where
  open d use {lt}

  -- `DecisionPolicy.evaluate_decision`, by its four rules in order.
  unfoldable pub evaluate_decision :
      F → Text → F → Text → List (Value F) → EvidenceSet F → ValidationResult F
  unfolding verify_citations validate_facts is_resolution upper evidence_count
  evaluate_decision threshold raw_decision confidence reason cited evidence_set =
      let (verified, unverified) = verify_citations cited evidence_set in
      let contradictions = validate_facts reason evidence_set in
      let refused : Verdict F → ValidationResult F = λ v. record {
        passed = false;
        verdict = v;
        verified_ids = verified;
        unverified_ids = unverified;
        contradictions = contradictions;
      } in
      if not (is_empty unverified)
      then refused (unverified_evidence unverified)
      else if not (is_empty contradictions)
      then refused (factual_contradiction contradictions)
      else if lt confidence threshold
      then refused (low_confidence confidence threshold)
      else if is_resolution (upper raw_decision)
          && (is_empty verified && evidence_count evidence_set == 0)
      then record {
        passed = false;
        verdict = insufficient_evidence;
        verified_ids = [];
        unverified_ids = [];
        contradictions = [];
      }
      else record {
        passed = true;
        verdict = all_passed;
        verified_ids = verified;
        unverified_ids = [];
        contradictions = [];
      }
