-- ===== src/Ai/Client.antt =====
-- The client of crates/ai/src/openrouter.rs that the settings ask for, as the model of the agent.
use andy.Base.{ℕ, Bool, Option, none, some, List, ◌++◌, Text, codes}
use andy.Ai.Model.{ModelConfig, ModelConfigError, ModelConfigResult, resolve_model_config}
use andy.Ai.Agent.{ChatMessage, ModelAnswer, ChatModel}
use andy.Ai.OpenRouter.{OpenRouterError, Response, Turn, chat_turn}
use andy.Shared.Env.{Env}

pub record OpenRouterClient : Type 0 where
  pub base_url : Option Text
  pub api_key : Text
  pub config : ModelConfig

pub data ClientResult : Type 0 where
  err : ModelConfigError → ClientResult
  ok : Option OpenRouterClient → ClientResult

abbrev pub with_config : Text → Option Text → ModelConfigResult → ClientResult
with_config api_key base_url (ModelConfigResult.err e) = ClientResult.err e
with_config api_key base_url (ModelConfigResult.ok config) =
    ClientResult.ok (some (record { base_url = base_url; api_key = api_key; config = config }))

abbrev pub client_for : Option Text → Option Text → Option Text → ClientResult
client_for none model base_url = ClientResult.ok none
client_for (some api_key) model base_url =
    with_config api_key base_url (resolve_model_config model none)

unfoldable pub openrouter_from_env : Env → ClientResult
openrouter_from_env env =
    client_for env.openrouter_api_key env.openrouter_model env.openrouter_base_url

-- The provider: what the n-th request for a turn of a conversation gets, and the texts of a status
-- and of a request that broke.
pub record Provider : Type 0 where
  pub respond : OpenRouterClient → List ChatMessage → Bool → ℕ → Response
  pub status_text : ℕ → Text
  pub request_text : Text

module _ (provider : Provider) where
  -- `to_string` of an `OpenRouterError`
  abbrev pub error_text : OpenRouterError → Text
  error_text OpenRouterError.missing_api_key =
      codes "OPENROUTER_API_KEY is required for a live model run"
  error_text (OpenRouterError.http status body) =
      codes "OpenRouter " ++ provider.status_text status ++ codes ": " ++ body
  error_text OpenRouterError.request = provider.request_text
  error_text OpenRouterError.empty_response = codes "OpenRouter response had no assistant message"

  abbrev pub turn_answer : Turn → ModelAnswer
  turn_answer (Turn.ok turn) = ModelAnswer.turn turn
  turn_answer (Turn.err e) = ModelAnswer.broken (error_text e)

  unfoldable pub chat_model : OpenRouterClient → ChatModel
  chat_model client messages offered =
      turn_answer (chat_turn (provider.respond client messages offered) client.api_key).0
