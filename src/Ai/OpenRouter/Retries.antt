-- ===== src/Ai/OpenRouter/Retries.antt =====
-- The retries of `chat_turn` in crates/ai/src/openrouter.rs.
use Prim.Native.Nat.{◌+◌}
use andy.Base.{
  ℕ, zero, suc, Bool, true, false, ◌≡◌, ◌≤◌, ◌⊎◌, inl, inr, refl, ◌∙◌, ap, Text, trim, is_empty,
  arith, Bool-cases, if◌then◌else◌,
}
use mathlib.Core.Path.{subst}
use native.Mathlib.Nat.{eq-or-lt_of_le}
use andy.Ai.OpenRouter.{
  OpenRouterError, Response, Turn, is_retryable, chat_turn_once, attempts, chat_turn, max_attempts,
}

-- Whether a turn is an error that another attempt may mend.
abbrev pub may_retry : Turn → Bool
may_retry (Turn.ok turn) = false
may_retry (Turn.err e) = is_retryable e

-- A run from the attempt `first` on made its last request at `last`, of at most `most`: every one
-- before failed in a way that may be mended, and the last did not or was the last one allowed.
abbrev pub Settles : (ℕ → Response) → ℕ → ℕ → Turn × ℕ → Type 0
Settles respond first most r =
    (first ≤ r.1)
    × (r.1 ≤ most)
    × (r.0 ≡ chat_turn_once (respond r.1))
    × ((k : ℕ) → first ≤ k → suc k ≤ r.1 → may_retry (chat_turn_once (respond k)) ≡ true)
    × ((r.1 ≡ most) ⊎ (may_retry r.0 ≡ false))

shift : (a b : ℕ) → suc a + b ≡ a + suc b
shift a b = omega arith

module _ (respond : ℕ → Response) where
  stops :
      (first most : ℕ)
      → first ≤ most
      → (first ≡ most) ⊎ (may_retry (chat_turn_once (respond first)) ≡ false)
      → Settles respond first most (chat_turn_once (respond first), first)
  stops first most low h = (omega arith, low, refl, λ k l r. absurd (omega (arith, l, r)), h)

  goes_on :
      (first most : ℕ) (r : Turn × ℕ)
      → may_retry (chat_turn_once (respond first)) ≡ true
      → Settles respond (suc first) most r
      → Settles respond first most r
  goes_on first most r e (low, high, answer, before, end) = (
    omega (arith, low),
    high,
    answer,
    λ k l u. elim (eq-or-lt_of_le l) [
      | inl q ↦ subst (λ i. may_retry (chat_turn_once (respond i)) ≡ true) q e
      | inr q ↦ before k (omega (arith, q)) u
    ],
    end,
  )

  retried :
      (first most : ℕ) (e : OpenRouterError) (again : Turn × ℕ)
      → suc first ≤ most
      → chat_turn_once (respond first) ≡ Turn.err e
      → Settles respond (suc first) most again
      → Settles respond first most (if is_retryable e then again else (Turn.err e, first))
  retried first most e again low q h = elim (Bool-cases (is_retryable e)) [
    | inl t ↦ rw t (goes_on first most again (ap may_retry q ∙ t) h)
    | inr t ↦ rw t (
        subst (λ x. Settles respond first most (x, first)) q
          (stops first most (omega (arith, low)) (inr (ap may_retry q ∙ t))))
  ]

  settled :
      (first most : ℕ) (t : Turn) (again : Turn × ℕ)
      → suc first ≤ most
      → chat_turn_once (respond first) ≡ t
      → Settles respond (suc first) most again
      → Settles respond first most (elim t [
        | Turn.ok turn ↦ (Turn.ok turn, first)
        | Turn.err e ↦ if is_retryable e then again else (Turn.err e, first)
      ])
  settled first most (Turn.ok turn) again low q h =
      subst (λ x. Settles respond first most (x, first)) q
        (stops first most (omega (arith, low)) (inr (ap may_retry q)))
  settled first most (Turn.err e) again low q h = retried first most e again low q h

  attempts-Settles :
      (left first : ℕ) → Settles respond first (first + left) (attempts respond left first)
  unfolding attempts
  attempts-Settles zero first = stops first (first + 0) (omega arith) (inl (omega arith))
  attempts-Settles (suc left) first =
      settled first (first + suc left) (chat_turn_once (respond first))
        (attempts respond left (suc first)) (omega arith) refl
        (subst (λ m. Settles respond (suc first) m (attempts respond left (suc first)))
          (shift first left) (attempts-Settles left (suc first)))

  -- A request with a key ends after at most three attempts with the answer of the last of them.
  -- Every attempt before failed in a way that another may mend; the last did not, or was the third.
  pub chat_turn-Settles :
      (api_key : Text)
      → is_empty (trim api_key) ≡ false
      → Settles respond 1 max_attempts (chat_turn respond api_key)
  unfolding chat_turn
  chat_turn-Settles api_key h = rw h (attempts-Settles 2 1)
