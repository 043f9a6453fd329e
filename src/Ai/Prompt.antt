-- ===== src/Ai/Prompt.antt =====
-- ai/prompts.py, and step 2 of `AIController.investigate`: the prompt's text. The texts that Python
-- makes of nested values, `str()` of a list or dictionary and the evidence's JSON, are parameters.
pub mod Infix
use vault_recon_ai.Prelude.{List, [], ◌++◌, ◌∷◌}
use vault_recon_ai.Ai.Evidence.{EvidenceSet}
use vault_recon_ai.Exceptions.{Details, ExceptionMetadata, FinancialException}
use vault_recon_ai.Float.{Float}
use vault_recon_ai.Text.{Text, codes}
use vault_recon_ai.Value.{Fields, show_value}

pub record PromptTexts (F : Type 0) : Type 0 where
  -- details.get("reason", "") of an audit event
  pub details_reason : Details F → Text
  -- str(metadata.get("findings", "")) and str(candidate_records)
  pub findings_text : ExceptionMetadata F → Text
  pub candidates_text : List (Fields F) → Text
  -- EvidenceSet.to_prompt_context()
  pub prompt_context : EvidenceSet F → Text

newline : Text
newline = 10 ∷ []

-- ", ".join(ids)
join_comma : List Text → Text
join_comma [] = []
join_comma (i ∷ []) = i
join_comma (i ∷ j ∷ ids) = i ++ (b',' ∷ 32 ∷ join_comma (j ∷ ids))

unfoldable pub concat : List Text → Text
concat [] = []
concat (s ∷ ss) = s ++ concat ss

module _ {F : Type 0} where
  -- The reason in the first event of the audit trail.
  reason_text : PromptTexts F → FinancialException F → Text
  reason_text texts e = elim e.audit_trail [
    | [] ↦ []
    | first ∷ later ↦ texts.details_reason first.details
  ]

  -- The untrusted block's text.
  unfoldable pub raw_metadata : PromptTexts F → FinancialException F → Text
  raw_metadata texts e =
      texts.findings_text e.metadata ++ 32 ∷ texts.candidates_text e.candidate_records

-- Between the untrusted block and the evidence, and behind the evidence.
unfoldable pub evidence_heading : List Text
unfolding newline
evidence_heading =
    newline
    ∷ codes "<<<END_UNTRUSTED_FINANCIAL_DATA>>>"
    ∷ newline
    ∷ newline
    ∷ codes "VERIFIED EVIDENCE COLLECTED FROM MINIVAULTDB & POLICIES:"
    ∷ newline
    ∷ []

unfoldable pub closing_lines : List Text
unfolding newline
closing_lines =
    newline
    ∷ newline
    ∷ codes
        "Conduct a thorough forensic audit based ONLY on the verified evidence above. Produce your decision in the required JSON format."
    ∷ newline
    ∷ []

module _ {F : Type 0} ⦃d : Float F⦄ where
  open d use {show}

  -- The fields that the database holds, up to the untrusted block.
  unfoldable pub context_lines : PromptTexts F → FinancialException F → List Text
  unfolding newline join_comma show_value reason_text
  context_lines texts e =
      codes "INVESTIGATION ASSIGNMENT"
      ∷ newline
      ∷ newline
      ∷ codes "EXCEPTION CONTEXT:"
      ∷ newline
      ∷ codes "Case ID: "
      ∷ e.exception_id
      ∷ newline
      ∷ codes "Exception Type: "
      ∷ e.exception_type
      ∷ newline
      ∷ codes "Merchant ID: "
      ∷ e.merchant_id
      ∷ newline
      ∷ codes "Primary Record: "
      ∷ e.primary_record_type
      ∷ codes " ("
      ∷ e.primary_record_id
      ∷ codes ")"
      ∷ newline
      ∷ codes "Related Record IDs: "
      ∷ join_comma e.related_record_ids
      ∷ newline
      ∷ codes "Expected Value: "
      ∷ show_value e.expected_value
      ∷ newline
      ∷ codes "Actual Value: "
      ∷ show_value e.actual_value
      ∷ newline
      ∷ codes "Difference: "
      ∷ show e.difference
      ∷ newline
      ∷ codes "Initial Reason: "
      ∷ reason_text texts e
      ∷ newline
      ∷ newline
      ∷ codes "<<<UNTRUSTED_FINANCIAL_DATA>>>"
      ∷ newline
      ∷ codes "Narrative / Metadata: "
      ∷ []

  -- INVESTIGATION_PROMPT_TEMPLATE.format(...)
  unfoldable pub user_prompt : PromptTexts F → EvidenceSet F → FinancialException F → Text
  unfolding context_lines raw_metadata evidence_heading closing_lines concat
  user_prompt texts s e =
      concat (context_lines texts e)
      ++ (raw_metadata texts e
          ++ (concat evidence_heading ++ (texts.prompt_context s ++ concat closing_lines)))
