-- ===== src/Ai/Guardrails/Safety.antt =====
-- ai/guardrails.py: what the decision policy lets pass.
use vault_recon_ai.Prelude.{
  All, List, [], arith, false, filter, if◌then◌else◌, is_empty, not, refl, true, ◌&&◌, ◌==◌, ◌↔◌,
  ◌∷◌, ◌≡◌, ◌⊎◌,
}
use vault_recon_ai.Ai.Evidence.{EvidenceSet, contains_id, evidence_count}
use vault_recon_ai.Ai.Guardrails.{evaluate_decision, is_resolution, verify_citations}
use vault_recon_ai.Ai.Guardrails.Facts.{validate_facts}
use vault_recon_ai.Float.{Float}
use vault_recon_ai.Text.{Text, strip, upper}
use vault_recon_ai.Value.{Value}

module _ {F : Type 0} where
  -- A citation that the guardrail looks at: a text that is not blank.
  abbrev pub IsVerified : EvidenceSet F → Value F → Type 0
  IsVerified s (Value.str cid) = (is_empty (strip cid) ≡ true) ⊎ (contains_id s (strip cid) ≡ true)
  IsVerified s _ = Unit

  -- The ids that are cited: the texts that are not blank, stripped.
  abbrev pub cited_ids : List (Value F) → List Text
  cited_ids [] = []
  cited_ids (Value.str cid ∷ cids) =
      if is_empty (strip cid) then cited_ids cids else strip cid ∷ cited_ids cids
  cited_ids (_ ∷ cids) = cited_ids cids

  -- The verified ids are those cited ids that are in the set, and the unverified ones those that are
  -- not, each in the order of the citations.
  pub verify_citations-filter :
      (cited : List (Value F)) (s : EvidenceSet F)
      → ((verify_citations cited s).0 ≡ filter (contains_id s) (cited_ids cited))
        × ((verify_citations cited s).1 ≡ filter (λ i. not (contains_id s i)) (cited_ids cited))
  unfolding verify_citations
  verify_citations-filter [] s = (refl, refl)
  verify_citations-filter (Value.str cid ∷ cids) s =
      let (valid, invalid) = verify_citations-filter cids s in ground arith
  verify_citations-filter (Value.null ∷ cids) s = verify_citations-filter cids s
  verify_citations-filter (Value.bool b ∷ cids) s = verify_citations-filter cids s
  verify_citations-filter (Value.int n ∷ cids) s = verify_citations-filter cids s
  verify_citations-filter (Value.float x ∷ cids) s = verify_citations-filter cids s
  verify_citations-filter (Value.container t e ∷ cids) s = verify_citations-filter cids s

  -- No citation is unverified exactly when every one is blank, no text, or in the set.
  pub verify_citations-nil :
      (cited : List (Value F)) (s : EvidenceSet F)
      → ((verify_citations cited s).1 ≡ []) ↔ All (IsVerified s) cited
  unfolding verify_citations
  verify_citations-nil [] s = (λ _. tt, λ _. refl)
  verify_citations-nil (Value.str cid ∷ cids) s = ground (arith, verify_citations-nil cids s)
  verify_citations-nil (Value.null ∷ cids) s = ground (arith, verify_citations-nil cids s)
  verify_citations-nil (Value.bool b ∷ cids) s = ground (arith, verify_citations-nil cids s)
  verify_citations-nil (Value.int n ∷ cids) s = ground (arith, verify_citations-nil cids s)
  verify_citations-nil (Value.float x ∷ cids) s = ground (arith, verify_citations-nil cids s)
  verify_citations-nil (Value.container t e ∷ cids) s = ground (arith, verify_citations-nil cids s)

module _ {F : Type 0} ⦃d : Float F⦄ where
  open d use {lt}

  -- What the policy asks of a proposal.
  pub record IsSafe (threshold : F) (raw_decision : Text) (confidence : F) (reason : Text)
      (cited : List (Value F)) (s : EvidenceSet F) : Type 0 where
    pub cites_evidence : All (IsVerified s) cited
    pub facts_agree : validate_facts reason s ≡ []
    pub confident : lt confidence threshold ≡ false
    pub has_evidence :
        is_resolution (upper raw_decision)
          && (is_empty (verify_citations cited s).0 && evidence_count s == 0)
        ≡ false

  -- A proposal passes exactly when its citations are verified, no claimed amount is unsupported, its
  -- confidence is not below the threshold, and, if it is a resolution, it has a verified citation
  -- or the evidence set is not empty.
  pub evaluate_decision-IsSafe :
      (threshold : F) (raw_decision : Text) (confidence : F) (reason : Text)
      (cited : List (Value F)) (s : EvidenceSet F)
      → ((evaluate_decision threshold raw_decision confidence reason cited s).passed ≡ true)
        ↔ IsSafe threshold raw_decision confidence reason cited s
  unfolding evaluate_decision
  evaluate_decision-IsSafe threshold raw_decision confidence reason cited s =
      ground (arith, verify_citations-nil cited s)
