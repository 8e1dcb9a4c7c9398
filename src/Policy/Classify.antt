-- ===== src/Policy/Classify.antt =====
-- What `classify_writes` decides, against a description that does not mention its order of tests.
use andy.Base.{
  ◌≤◌, ◌≡◌, refl, ◌↔◌, true, false, none, List, [], ◌∷◌, length, keep, any, All, ℤ, pos, ◌≤ℤ◌, ◌<ℤ◌,
  i64_max, ◌≢◌, codes, Text, arith, Bool-cases, inl, inr,
}
use andy.Domain.{WriteIntent}
use andy.Policy.{
  PolicySettings, WriteRisk, classify_writes, ledger_writes, is_destructive, is_bookkeeping,
  is_one_off_memory, amount_of, max_writes_per_turn,
}
use andy.Policy.Total.{
  exact_total, AmountsFit, total_amount_centavos-eq-min, has_large_amount-total,
}

-- A write that removes nothing and is no transaction dressed as a memory.
pub record IsOrdinary (w : WriteIntent) : Type 0 where
  pub keeps : is_destructive w ≡ false
  pub durable : is_one_off_memory w ≡ false

bookkeeping-IsOrdinary : (w : WriteIntent) → is_bookkeeping w ≡ true → IsOrdinary w
unfolding is_bookkeeping is_destructive is_one_off_memory
bookkeeping-IsOrdinary w h = ground arith

bookkeeping-no_amount : (w : WriteIntent) → is_bookkeeping w ≡ true → amount_of w ≡ none
unfolding is_bookkeeping amount_of
bookkeeping-no_amount w h = ground arith

any_nonempty :
    (ws : List WriteIntent)
    → any is_one_off_memory (ledger_writes ws) ≡ true
    → length (ledger_writes ws) ≢ 0
any_nonempty [] h e = cc
any_nonempty (w ∷ ws) h e = elim (Bool-cases (is_bookkeeping w)) [
  | inl b ↦ ground (arith, any_nonempty ws)
  | inr b ↦ ground arith
]

-- The counts over the ledger writes see every write that is not ordinary.
ledger-IsOrdinary :
    (ws : List WriteIntent)
    → any is_one_off_memory (ledger_writes ws) ≡ false
    → length (keep is_destructive (ledger_writes ws)) ≤ 0
    → All IsOrdinary ws
ledger-IsOrdinary [] h k = tt
ledger-IsOrdinary (w ∷ ws) h k = elim (Bool-cases (is_bookkeeping w)) [
  | inl e ↦ ground (arith, bookkeeping-IsOrdinary w e, ledger-IsOrdinary ws)
  | inr e ↦ ground (arith, ledger-IsOrdinary ws)
]

IsOrdinary-ledger :
    (ws : List WriteIntent)
    → All IsOrdinary ws
    → (any is_one_off_memory (ledger_writes ws) ≡ false)
      × (length (keep is_destructive (ledger_writes ws)) ≤ 0)
IsOrdinary-ledger [] h = (refl, omega arith)
IsOrdinary-ledger (w ∷ ws) h = ground (arith, IsOrdinary-ledger ws h.1, h.0.keeps, h.0.durable)

-- A turn of bookkeeping alone is ordinary and moves no money.
bookkeeping_turn :
    (ws : List WriteIntent)
    → length (ledger_writes ws) ≡ 0
    → All IsOrdinary ws × (exact_total ws ≡ 0)
bookkeeping_turn [] h = (tt, refl)
bookkeeping_turn (w ∷ ws) h = elim (Bool-cases (is_bookkeeping w)) [
  | inl e ↦
      ground (arith, bookkeeping-IsOrdinary w e, bookkeeping-no_amount w e, bookkeeping_turn ws)
  | inr e ↦ ground arith
]

-- A turn that the gate lets through unasked.
pub record IsSafeTurn (writes : List WriteIntent) (threshold : ℤ) : Type 0 where
  pub ordinary : All IsOrdinary writes
  pub few : length (ledger_writes writes) ≤ max_writes_per_turn
  pub small : pos (exact_total writes) <ℤ threshold

-- `classify_writes` lets a turn through exactly when it removes nothing, stores no transaction as
-- a memory, has at most five ledger writes and moves in total less than the threshold, where the
-- total is exact (the code's total saturates), the amounts are `i64` values and the threshold is
-- a positive one.
pub classify_writes-safe_iff :
    (text : Text) (writes : List WriteIntent) (settings : PolicySettings)
    → AmountsFit writes
    → pos 0 <ℤ settings.confirm_threshold_centavos
    → settings.confirm_threshold_centavos ≤ℤ i64_max
    → (classify_writes text writes settings ≡ WriteRisk.safe)
      ↔ IsSafeTurn writes settings.confirm_threshold_centavos
unfolding classify_writes
classify_writes-safe_iff text writes settings fit positive fits = (
  λ h. ground (
    arith,
    ledger-IsOrdinary writes,
    bookkeeping_turn writes,
    total_amount_centavos-eq-min writes fit,
  ),
  λ h. ground (
    arith,
    IsOrdinary-ledger writes h.ordinary,
    total_amount_centavos-eq-min writes fit,
    has_large_amount-total writes settings.confirm_threshold_centavos,
  ),
)

any-ledger :
    (ws : List WriteIntent) → any is_one_off_memory (ledger_writes ws) ≡ any is_one_off_memory ws
unfolding is_bookkeeping is_one_off_memory
any-ledger [] = refl
any-ledger (w ∷ ws) = ground (arith, any-ledger ws)

refusal : Text
refusal = codes "refusing to store a one-off transaction as durable memory"

-- A turn is refused exactly when one of its writes would store a transaction as a memory.
pub classify_writes-reject_iff :
    (text : Text) (writes : List WriteIntent) (settings : PolicySettings)
    → ((reason : Text) × (classify_writes text writes settings ≡ WriteRisk.reject reason))
      ↔ (any is_one_off_memory writes ≡ true)
unfolding classify_writes refusal
classify_writes-reject_iff text writes settings = (
  λ h. ground (arith, any-ledger writes),
  λ h. (refusal, ground (arith, any-ledger writes, any_nonempty writes)),
)
