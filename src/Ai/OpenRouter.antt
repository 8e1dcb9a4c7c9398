-- ===== src/Ai/OpenRouter.antt =====
-- The client of crates/ai/src/openrouter.rs: one request, its retries and what it tells of an error.
-- The HTTP request is a parameter: what the n-th one gets.
pub mod Retries
use andy.Base.{
  ℕ, zero, suc, Bool, true, false, not, ◌&&◌, ◌||◌, Option, List, [], ◌∷◌, all, keep, length,
  map_some, take, leb, Text, codes, trim, is_empty, to_ascii_lowercase, starts_with, contains,
  split_whitespace, join, is_ascii_alphanumeric, ◌==◌, if◌then◌else◌,
}
use andy.Ai.Fields.{only_if}
use andy.Ai.Tools.{ToolCall}
use andy.Ai.Agent.{AssistantTurn}

-- `MAX_ATTEMPTS`
abbrev pub max_attempts : ℕ
max_attempts = 3

pub data OpenRouterError : Type 0 where
  missing_api_key : OpenRouterError
  http : ℕ → Text → OpenRouterError
  request empty_response : OpenRouterError

pub record AssistantMessage : Type 0 where
  pub content : Option Text
  pub tool_calls : List ToolCall

-- A response: it was not had or not decoded, an error status with its body, or the choices.
pub data Response : Type 0 where
  broken : Response
  status : ℕ → Text → Response
  choices : List AssistantMessage → Response

pub data Turn : Type 0 where
  err : OpenRouterError → Turn
  ok : AssistantTurn → Turn

unfoldable pub is_retryable : OpenRouterError → Bool
is_retryable OpenRouterError.request = true
is_retryable (OpenRouterError.http code body) = code == 429 || (leb 500 code && leb code 599)
is_retryable OpenRouterError.missing_api_key = false
is_retryable OpenRouterError.empty_response = false

unfoldable pub looks_secret : Text → Bool
looks_secret token =
    let lower = to_ascii_lowercase token in
    starts_with (codes "sk-") lower
    || (starts_with (codes "sk_") lower
        || (starts_with (codes "bearer") lower
            || (contains (codes "key") lower
                || (contains (codes "token") lower
                    || (contains (codes "secret") lower
                        || (leb 32 (length token) && all is_ascii_alphanumeric token))))))

unfoldable pub redact_excerpt : Text → Text
unfolding looks_secret
redact_excerpt body =
    take 120 (join (codes " ") (keep (λ tok. not (looks_secret tok)) (split_whitespace body)))

-- What `chat_turn_once` makes of the response.
unfoldable pub chat_turn_once : Response → Turn
unfolding redact_excerpt
chat_turn_once Response.broken = Turn.err OpenRouterError.request
chat_turn_once (Response.status code raw) =
    Turn.err (OpenRouterError.http code (redact_excerpt raw))
chat_turn_once (Response.choices []) = Turn.err OpenRouterError.empty_response
chat_turn_once (Response.choices (message ∷ rest)) = Turn.ok (record {
  content = only_if (λ text. not (is_empty text)) (map_some trim message.content);
  tool_calls = message.tool_calls;
})

module _ (respond : ℕ → Response) where
  -- The loop from `attempt` on, with the number of attempts that may follow. It gives the number of
  -- requests made too.
  unfoldable pub attempts : ℕ → ℕ → Turn × ℕ
  unfolding chat_turn_once is_retryable
  attempts zero attempt = (chat_turn_once (respond attempt), attempt)
  attempts (suc left) attempt =
      let again = attempts left (suc attempt) in
      elim (chat_turn_once (respond attempt)) [
        | Turn.ok turn ↦ (Turn.ok turn, attempt)
        | Turn.err e ↦ if is_retryable e then again else (Turn.err e, attempt)
      ]

  unfoldable pub chat_turn : Text → Turn × ℕ
  unfolding attempts
  chat_turn api_key =
      if is_empty (trim api_key)
      then (Turn.err OpenRouterError.missing_api_key, 0)
      else attempts 2 1
