-- ===== src/Ai/Provider/Remote.antt =====
-- ai/llm.py: the providers that ask a service over HTTP, and the choice of a provider. The request
-- is what varies in it: the constants of the payload (temperature, response format, headers) are
-- left out. `post` is requests.post, with `response.json()` and the path to the text behind it.
use vault_recon_ai.Prelude.{
  Bool, Option, [], false, if◌then◌else◌, is_empty, none, not, or_default, some, ℕ, ◌&&◌, ◌++◌,
  ◌==◌,
}
use vault_recon_ai.Ai.Agent.{LlmResult, generation_failed}
use vault_recon_ai.Text.{Text, codes, lower, show_nat, text_eq}

pub data HttpOutcome : Type 0 where
  -- requests.post raised
  request_failed : Text → HttpOutcome
  response : ℕ → Text → LlmResult → HttpOutcome

pub record Request : Type 0 where
  pub url : Text
  pub bearer : Option Text
  pub model : Option Text
  pub system_prompt : Text
  pub user_prompt : Text

-- os.environ.get
abbrev pub Environ : Type 0
Environ = Text → Option Text

-- `a or b` of optional texts.
unfoldable pub or_text : Option Text → Option Text → Option Text
or_text none b = b
or_text (some s) b = if is_empty s then b else some s

unfoldable pub is_set : Option Text → Bool
is_set none = false
is_set (some s) = not (is_empty s)

-- An answer but for its status.
unfoldable pub content_of : Text → HttpOutcome → LlmResult
unfolding show_nat
content_of name (request_failed message) = generation_failed message
content_of name (response status body content) =
    if status == 200
    then content
    else generation_failed
        (name ++ (codes " API Error " ++ (show_nat status ++ (codes ": " ++ body))))

module _ (environ : Environ) (post : Request → HttpOutcome) where
  -- `GeminiProvider.generate`, of a provider that is built with no arguments.
  unfoldable pub gemini_generate : Text → Text → LlmResult
  unfolding or_text is_set content_of
  gemini_generate system_prompt user_prompt =
      let api_key = environ (codes "GEMINI_API_KEY") in
      let model =
        or_default (or_text (environ (codes "LLM_MODEL")) none) (codes "gemini-flash-latest") in
      if not (is_set api_key)
      then generation_failed (codes "GEMINI_API_KEY environment variable is not set.")
      else content_of (codes "Gemini") (
          post (record {
            url =
                codes "https://generativelanguage.googleapis.com/v1beta/models/"
                ++ (model ++ (codes ":generateContent?key=" ++ or_default api_key []));
            bearer = none;
            model = none;
            system_prompt = system_prompt;
            user_prompt = user_prompt;
          }))

  -- `OpenAIProvider.generate`
  unfoldable pub openai_generate : Text → Text → LlmResult
  unfolding is_set content_of
  openai_generate system_prompt user_prompt =
      let api_key = environ (codes "OPENAI_API_KEY") in
      if not (is_set api_key)
      then generation_failed (codes "OPENAI_API_KEY environment variable is not set.")
      else content_of (codes "OpenAI") (
          post (record {
            url = codes "https://api.openai.com/v1/chat/completions";
            bearer = api_key;
            model = some (codes "gpt-4o-mini");
            system_prompt = system_prompt;
            user_prompt = user_prompt;
          }))

pub data LlmProvider : Type 0 where
  mock_provider gemini_provider openai_provider : LlmProvider

-- `get_llm_provider`
unfoldable pub get_llm_provider : Environ → Option Text → LlmProvider
unfolding or_text is_set lower text_eq
get_llm_provider environ provider_type =
    let from_environ = or_default (environ (codes "LLM_PROVIDER")) (codes "mock") in
    let ptype = lower (or_default (or_text provider_type none) from_environ) in
    if text_eq ptype (codes "gemini") && is_set (environ (codes "GEMINI_API_KEY"))
    then gemini_provider
    else if text_eq ptype (codes "openai") && is_set (environ (codes "OPENAI_API_KEY"))
    then openai_provider
    else mock_provider
