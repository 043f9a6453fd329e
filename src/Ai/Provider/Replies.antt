-- ===== src/Ai/Provider/Replies.antt =====
-- ai/llm.py: the answers of the offline provider, as the dictionaries that it dumps.
use vault_recon_ai.Prelude.{List, [], length, map, none, some, ◌++◌, ◌∷◌}
use vault_recon_ai.Ai.Agent.Answer.{Reply}
use vault_recon_ai.Float.{Float}
use vault_recon_ai.Text.{Text, codes, show_nat}
use vault_recon_ai.Value.{Value}

-- A list of ids in an f-string.
quoted_ids : List Text → Text
quoted_ids [] = []
quoted_ids (i ∷ []) = b'\'' ∷ (i ++ b'\'' ∷ [])
quoted_ids (i ∷ j ∷ ids) = b'\'' ∷ (i ++ (codes "', " ++ quoted_ids (j ∷ ids)))

show_ids : List Text → Text
unfolding quoted_ids
show_ids ids = b'[' ∷ (quoted_ids ids ++ b']' ∷ [])

module _ {F : Type 0} ⦃d : Float F⦄ where
  open d use {lit}

  answer : Text → Text → F → Text → List Text → Text → List Text → Reply F
  answer decision exception_type confidence why ids action findings = record {
    decision = some decision;
    exception_type = some exception_type;
    confidence = some confidence;
    reason = some why;
    evidence_ids = some (map Value.str ids);
    evidence = none;
    recommended_action = some action;
    findings = some findings;
  }

  unfoldable pub injection_reply : Reply F
  unfolding answer
  injection_reply =
      answer (codes "HUMAN_REVIEW") (codes "SUSPICIOUS_PROMPT_INJECTION") (lit 99 2)
        (codes
          "Untrusted narrative text contains adversarial prompt injection string. Suspicious activity flagged.")
        ([]) (codes "escalate_to_security_team")
        (codes "Adversarial instruction detected in bank narrative." ∷ [])

  unfoldable pub hallucinated_reply : Reply F
  unfolding answer
  hallucinated_reply =
      answer (codes "AI_RESOLVED") (codes "FEE_MISMATCH") (lit 95 2)
        (codes "Fee difference is explained by fabricated policy ID.")
        (codes "EVID_POLICY_HALLUCINATED_9999" ∷ []) (codes "mark_reconciled")
        (codes "Fabricated policy cited." ∷ [])

  unfoldable pub uncertain_reply : Reply F
  unfolding answer
  uncertain_reply =
      answer (codes "AI_RESOLVED") (codes "AMOUNT_MISMATCH") (lit 55 2)
        (codes "Uncertain resolution.") ([]) (codes "mark_reconciled") ([])

  unfoldable pub contradicting_reply : Reply F
  unfolding answer
  contradicting_reply =
      answer (codes "AI_RESOLVED") (codes "FEE_MISMATCH") (lit 95 2)
        (codes "Processor fee was claimed to be $9999.88 which contradicts database.") ([])
        (codes "mark_reconciled") ([])

  unfoldable pub surcharge_reply : Text → Reply F
  unfolding answer
  surcharge_reply ev_id =
      answer (codes "AI_RESOLVED") (codes "FEE_MISMATCH") (lit 94 2)
        (codes
          "Difference in settlement fee is verified against contractual international card surcharge rule (3.5%).")
        (ev_id ∷ []) (codes "mark_reconciled") (codes "Contractual 3.5% fee policy verified." ∷ [])

  unfoldable pub volume_reply : Text → Reply F
  unfolding answer
  volume_reply ev_id =
      answer (codes "AI_RESOLVED") (codes "FEE_MISMATCH") (lit 92 2)
        (codes "Discrepancy is verified against Tier 1 volume discount schedule (1.2%).")
        (ev_id ∷ []) (codes "mark_reconciled") (codes "Tier 1 volume discount verified." ∷ [])

  unfoldable pub unexplained_fee_reply : Reply F
  unfolding answer
  unexplained_fee_reply =
      answer (codes "HUMAN_REVIEW") (codes "FEE_MISMATCH") (lit 88 2)
        (codes
          "Fee difference does not match any registered merchant policy or contractual exception.")
        ([]) (codes "request_gateway_proof") (codes "Unexplained fee discrepancy." ∷ [])

  unfoldable pub bundle_reply : List Text → Reply F
  unfolding answer show_ids show_nat
  bundle_reply ids =
      answer (codes "AI_RESOLVED") (codes "BUNDLED_PAYMENT") (lit 91 2)
        (codes "Bank deposit covers a verified bundle of "
          ++ (show_nat (length ids)
              ++ codes " outstanding invoices for the same customer within clearing window."))
        (ids) (codes "mark_reconciled")
        ((codes "Invoices " ++ (show_ids ids ++ codes " sum exactly to deposit total.")) ∷ [])

  unfoldable pub no_bundle_reply : Reply F
  unfolding answer
  no_bundle_reply =
      answer (codes "HUMAN_REVIEW") (codes "BUNDLED_PAYMENT") (lit 85 2)
        (codes "Insufficient invoice evidence to prove bundled deposit combination.") ([])
        (codes "request_remittance_advice")
        (codes "Cannot confirm invoice bundle without remittance advice." ∷ [])

  unfoldable pub amount_reply : Reply F
  unfolding answer
  amount_reply =
      answer (codes "HUMAN_REVIEW") (codes "AMOUNT_MISMATCH") (lit 95 2)
        (codes
          "Payment amount differs from invoice total with no recorded discount, coupon, or credit note.")
        ([]) (codes "escalate_to_billing") (codes "Unexplained gross variance." ∷ [])

  unfoldable pub duplicate_reply : Reply F
  unfolding answer
  duplicate_reply =
      answer (codes "HUMAN_REVIEW") (codes "DUPLICATE_RECORD") (lit 92 2)
        (codes "Multiple conflicting transactions exist for the same order/document reference.")
        ([]) (codes "escalate_to_treasury") (codes "Duplicate posting detected." ∷ [])

  unfoldable pub missing_reply : Reply F
  unfolding answer
  missing_reply =
      answer (codes "HUMAN_REVIEW") (codes "MISSING_RECORD") (lit 95 2)
        (codes
          "Counterparty transaction missing from internal books or external settlement statement.")
        ([]) (codes "escalate_to_treasury") (codes "Missing counterpart line." ∷ [])

  unfoldable pub default_reply : Reply F
  unfolding answer
  default_reply =
      answer (codes "HUMAN_REVIEW") (codes "UNRESOLVED_EXCEPTION") (lit 80 2)
        (codes "Ambiguity cannot be reliably resolved with available database evidence.") ([])
        (codes "escalate_to_finance_controller") (codes "Requires manual controller review." ∷ [])
