-- ===== src/Base/Lists.antt =====
-- Lists measured by native numbers, filtered by Boolean tests, and predicates on their elements.
use Prim.Native.Nat.{ℕ, zero, suc, ◌+◌, ◌≤◌}
use mathlib.Core.Path.{◌≡◌, refl}
use mathlib.Core.Bool.{Bool, true, false, ◌&&◌, ◌||◌}
use mathlib.Core.List.{map, List, [], ◌∷◌, ◌++◌}
use mathlib.Core.Option.{Option, none, some, some-injective}
use mathlib.Core.Path.{subst}
use mathlib.Core.Logic.{inl, inr}
use native.Mathlib.Omega.{arith}
use andy.Base.Tests.{if◌then◌else◌, Bool-cases}

module _ {ℓ} {A : Type ℓ} where
  abbrev pub length : List A → ℕ
  length [] = 0
  length (x ∷ xs) = suc (length xs)

  -- `Iterator::filter`.
  abbrev pub keep : (A → Bool) → List A → List A
  keep p [] = []
  keep p (x ∷ xs) = if p x then x ∷ keep p xs else keep p xs

  -- `Iterator::any` and `Iterator::all`.
  abbrev pub any : (A → Bool) → List A → Bool
  any p [] = false
  any p (x ∷ xs) = p x || any p xs

  abbrev pub all : (A → Bool) → List A → Bool
  all p [] = true
  all p (x ∷ xs) = p x && all p xs

  -- `Iterator::find`.
  abbrev pub find : (A → Bool) → List A → Option A
  find p [] = none
  find p (x ∷ xs) = if p x then some x else find p xs

  -- An `update … where`: the rows that pass the test are rewritten.
  abbrev pub update_where : (A → Bool) → (A → A) → List A → List A
  update_where p f [] = []
  update_where p f (x ∷ xs) = (if p x then f x else x) ∷ update_where p f xs

  -- `Iterator::take` by a number.
  abbrev pub take : ℕ → List A → List A
  take zero xs = []
  take (suc n) [] = []
  take (suc n) (x ∷ xs) = x ∷ take n xs

  -- `Iterator::skip` by a number.
  abbrev pub drop : ℕ → List A → List A
  drop zero xs = xs
  drop (suc n) [] = []
  drop (suc n) (x ∷ xs) = drop n xs

  abbrev pub All {κ} : (A → Type κ) → List A → Type κ
  All P [] = Unit
  All P (x ∷ xs) = P x × All P xs

  pub length-append : (xs ys : List A) → length (xs ++ ys) ≡ length xs + length ys
  length-append [] ys = omega arith
  length-append (x ∷ xs) ys = omega (arith, length-append xs ys)

  pub length-take-le : (n : ℕ) (xs : List A) → length (take n xs) ≤ n
  length-take-le zero xs = omega arith
  length-take-le (suc n) [] = omega arith
  length-take-le (suc n) (x ∷ xs) = omega (arith, length-take-le n xs)

  pub length-update_where :
      (p : A → Bool) (f : A → A) (xs : List A) → length (update_where p f xs) ≡ length xs
  length-update_where p f [] = refl
  length-update_where p f (x ∷ xs) = omega (arith, length-update_where p f xs)

-- `Iterator::filter_map`.
module _ {ℓ κ} {A : Type ℓ} {B : Type κ} where
  abbrev pub filter_map : (A → Option B) → List A → List B
  filter_map f [] = []
  filter_map f (x ∷ xs) = elim (f x) [ none ↦ filter_map f xs | some b ↦ b ∷ filter_map f xs ]

module _ {ℓ κ} {A : Type ℓ} (P : A → Type κ) where
  pub All-insert : (xs : List A) (x : A) → All P xs → P x → All P (xs ++ x ∷ [])
  All-insert [] x h p = (p, tt)
  All-insert (y ∷ xs) x h p = (h.0, All-insert xs x h.1 p)

  All-if : (b : Bool) (xs ys : List A) → All P xs → All P ys → All P (if b then xs else ys)
  All-if true xs ys h k = h
  All-if false xs ys h k = k

  pub All-keep : (p : A → Bool) (xs : List A) → All P xs → All P (keep p xs)
  All-keep p [] h = tt
  All-keep p (x ∷ xs) h = All-if (p x) _ _ (h.0, All-keep p xs h.1) (All-keep p xs h.1)

  if-either : (b : Bool) (x y : A) → P x → P y → P (if b then x else y)
  if-either true x y h k = h
  if-either false x y h k = k

  pub All-update_where :
      (p : A → Bool) (f : A → A) (xs : List A)
      → ((x : A) → P x → P (f x))
      → All P xs
      → All P (update_where p f xs)
  All-update_where p f [] step h = tt
  All-update_where p f (x ∷ xs) step h =
      (if-either (p x) _ _ (step x h.0) h.0, All-update_where p f xs step h.1)

  pub All-find : (p : A → Bool) (xs : List A) {x : A} → All P xs → find p xs ≡ some x → P x
  All-find p [] h e = cc
  All-find p (y ∷ xs) {x} h e = elim (Bool-cases (p y)) [
    | inl hit ↦ subst P (some-injective _ _ (rw hit at e)) h.0
    | inr miss ↦ All-find p xs h.1 (rw miss at e)
  ]

pub length-map {ℓ κ} :
    {A : Type ℓ} {B : Type κ} (f : A → B) (xs : List A) → length (map f xs) ≡ length xs
length-map f [] = omega arith
length-map f (x ∷ xs) = omega (arith, length-map f xs)
