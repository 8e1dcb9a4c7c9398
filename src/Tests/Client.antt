-- ===== src/Tests/Client.antt =====
-- Requests of crates/ai/src/openrouter.rs at concrete answers of the provider.
use andy.Base.{
  ℕ, zero, suc, split_whitespace, lower_char, contains, ◌≡◌, refl, some, [], ◌∷◌, codes, trim,
  is_empty, false,
}
use andy.Ai.OpenRouter.{
  OpenRouterError, Response, Turn, chat_turn, attempts, chat_turn_once, redact_excerpt,
  looks_secret, is_retryable, max_attempts,
}
use andy.Ai.OpenRouter.Retries.{Settles, chat_turn-Settles}

-- The first request is turned away, the second does not arrive, the third is answered.
abbrev third_time : ℕ → Response
third_time (suc zero) = Response.status 503 (codes "try sk-123 later")
third_time (suc (suc zero)) = Response.broken
third_time n = Response.choices (record { content = some (codes " hi "); tool_calls = [] } ∷ [])

key_given : is_empty (trim (codes "sk-key")) ≡ false
unfolding trim
key_given = refl

chat_turn-Settles_example :
    Settles third_time 1 max_attempts (chat_turn third_time (codes "sk-key"))
chat_turn-Settles_example = chat_turn-Settles third_time (codes "sk-key") key_given

answered :
    chat_turn third_time (codes "sk-key")
    ≡ (Turn.ok (record { content = some (codes "hi"); tool_calls = [] }), 3)
unfolding chat_turn attempts chat_turn_once redact_excerpt looks_secret is_retryable trim
    split_whitespace lower_char contains
answered = refl

-- A refused key is not tried again, and is not told.
refused :
    chat_turn (λ n. Response.status 401 (codes "bad key sk-123 given")) (codes "sk-key")
    ≡ (Turn.err (OpenRouterError.http 401 (codes "bad given")), 1)
unfolding chat_turn attempts chat_turn_once redact_excerpt looks_secret is_retryable trim
    split_whitespace lower_char contains
refused = refl
