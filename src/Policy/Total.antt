-- ===== src/Policy/Total.antt =====
-- The saturating total of a turn's amounts against the exact sum of their absolute values.
use Prim.Native.Nat.{min}
use andy.Base.{
  ℕ, ◌+◌, ◌≤◌, ◌≡◌, true, some, List, [], ◌∷◌, All, filter_map, arith, ℤ, pos, negsuc, ◌≤ℤ◌, IsI64,
  abs_ℕ, saturating_add, saturating_sub, ◌-ℤ◌, ◌+ℤ◌, Option-cases, inl, inr, ◌∙◌,
}
use andy.Domain.{WriteIntent}
use andy.Policy.{
  amount_of, fold_total, saturating_abs, total_amount_centavos, maximum, max_amount_centavos,
  has_large_amount,
}

-- The largest `i64`.
abbrev pub cap : ℕ
cap = 9223372036854775807

abbrev pub sum_abs : List ℤ → ℕ
sum_abs [] = 0
sum_abs (a ∷ as') = abs_ℕ a + sum_abs as'

-- The exact total of the amounts of a turn.
abbrev pub exact_total : List WriteIntent → ℕ
exact_total writes = sum_abs (filter_map amount_of writes)

-- Every amount of the turn is an `i64`.
abbrev pub AmountsFit : List WriteIntent → Type 0
AmountsFit writes = All IsI64 (filter_map amount_of writes)

saturating_step :
    (n : ℕ) (a : ℤ)
    → n ≤ cap
    → IsI64 a
    → saturating_add (pos n) (saturating_abs a) ≡ pos (min cap (n + abs_ℕ a))
unfolding saturating_add saturating_abs saturating_sub ◌-ℤ◌ ◌+ℤ◌
saturating_step n (pos a) h fit = ground arith
saturating_step n (negsuc a) h fit = ground arith

min_again : (n a b : ℕ) → min cap (min cap (n + a) + b) ≡ min cap (n + (a + b))
min_again n a b = omega arith

fold_total-eq-min :
    (n : ℕ) (as' : List ℤ)
    → n ≤ cap
    → All IsI64 as'
    → fold_total (pos n) as' ≡ pos (min cap (n + sum_abs as'))
unfolding fold_total
fold_total-eq-min n [] h fit = ap' (omega arith)
  where
    ap' : {a b : ℕ} → a ≡ b → pos a ≡ pos b
    ap' e = cc
fold_total-eq-min n (a ∷ as') h fit = rw (saturating_step n a h fit.0) (
    rw (fold_total-eq-min (min cap (n + abs_ℕ a)) as' (omega arith) fit.1)
      (ground (arith, min_again n (abs_ℕ a) (sum_abs as'))))

-- The saturating total is the exact one, cut off at the largest `i64`.
pub total_amount_centavos-eq-min :
    (writes : List WriteIntent)
    → AmountsFit writes
    → total_amount_centavos writes ≡ pos (min cap (exact_total writes))
unfolding total_amount_centavos
total_amount_centavos-eq-min writes fit =
    fold_total-eq-min 0 (filter_map amount_of writes) (omega arith) fit
    ∙ ground (arith, zero_add (exact_total writes))
  where
    zero_add : (n : ℕ) → 0 + n ≡ n
    zero_add n = omega arith

maximum-le : (as' : List ℤ) {m : ℤ} → maximum as' ≡ some m → m ≤ℤ pos (sum_abs as')
maximum-le [] h = cc
maximum-le (a ∷ as') h = elim (Option-cases (maximum as')) [
  | inl e ↦ ground arith
  | inr (b, e) ↦ ground (arith, maximum-le as' e)
]

-- No single amount exceeds the exact total.
pub has_large_amount-total :
    (writes : List WriteIntent) (threshold : ℤ)
    → has_large_amount writes threshold ≡ true
    → threshold ≤ℤ pos (exact_total writes)
unfolding has_large_amount max_amount_centavos
has_large_amount-total writes threshold h =
    elim (Option-cases (maximum (filter_map amount_of writes))) [
      | inl e ↦ ground arith
      | inr (m, e) ↦ ground (arith, maximum-le (filter_map amount_of writes) e)
    ]
