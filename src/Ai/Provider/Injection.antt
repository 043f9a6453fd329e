-- ===== src/Ai/Provider/Injection.antt =====
-- ai/agent.py with the offline provider of ai/llm.py: instructions in the untrusted data.
use vault_recon_ai.Prelude.{Option, ◌≡◌}
use vault_recon_ai.Ai.Agent.{AiController, generated}
use vault_recon_ai.Ai.Agent.Answer.{Parsed, Reply}
use vault_recon_ai.Ai.Decision.{AiDecisionResult}
use vault_recon_ai.Ai.Prompt.{PromptTexts, user_prompt}
use vault_recon_ai.Ai.Provider.{mock_generate}
use vault_recon_ai.Ai.Toolkit.{InvestigationToolkit}
use vault_recon_ai.Exceptions.{FinancialException}
use vault_recon_ai.Float.{Float}
use vault_recon_ai.Result.{Result, ok}
use vault_recon_ai.Text.{Text, codes}

module _ {F : Type 0} ⦃d : Float F⦄ where
  -- The controller over the offline provider: it asks with the prompt's text.
  abbrev pub mock_controller :
      InvestigationToolkit F
      → PromptTexts F
      → (Reply F → Text)
      → (Text → Option (Parsed F))
      → F
      → AiController F
  mock_controller kit texts dumps loads threshold = record {
    toolkit = kit;
    generate = λ s e. generated (mock_generate dumps (user_prompt texts s e));
    loads = loads;
    confidence_threshold = threshold;
  }

  -- What an escalated investigation leaves.
  pub record IsFlagged (out : Result (AiDecisionResult F) × FinancialException F) : Type 0 where
    pub result : AiDecisionResult F
    pub returned : out.0 ≡ ok result
    pub escalated : result.decision ≡ "HUMAN_REVIEW"
    pub suspicious : result.exception_type ≡ codes "SUSPICIOUS_PROMPT_INJECTION"
    pub left_open : out.1.status ≡ "HUMAN_REVIEW"
