-- ===== src/Shared/Percent/Rounding.antt =====
-- How far crates/shared/src/percent.rs rounds.
use Prim.Native.Nat.{◌/◌}
use native.Mathlib.Omega.{div_fact, mod_fact}
use mathlib.Core.Path.{subst}
use andy.Base.{
  ℕ, suc, ◌+◌, ◌*◌, ◌≤◌, ◌≡◌, some, ℤ, pos, negsuc, ◌+ℤ◌, ◌-ℤ◌, sub_ℕ, pos_part, neg_part, ◌*ℤ◌,
  ◌/ℤ◌, ◌≤ℤ◌, to_i64, arith, int_laws,
}
use andy.Shared.Percent.{rounded_quotient, percent_rounded}

-- The quotient of a sum with half the divisor is the nearest one.
half_up :
    (n k : ℕ)
    → (2 * n ≤ 2 * (suc k * ((n + suc k / 2) / suc k)) + suc k)
      × (2 * (suc k * ((n + suc k / 2) / suc k)) ≤ 2 * n + suc k)
half_up n k =
    (let f = div_fact (n + suc k / 2) k in
      let m = mod_fact (n + suc k / 2) k in (omega (arith, f, m), omega (arith, f, m)))

-- Within half a divisor: `2 |num - den * q| ≤ den`.
abbrev pub IsNearest : ℤ → ℕ → ℤ → Type 0
IsNearest num den q =
    (num +ℤ num ≤ℤ pos den *ℤ q +ℤ pos den *ℤ q +ℤ pos den)
    × (pos den *ℤ q +ℤ pos den *ℤ q ≤ℤ num +ℤ num +ℤ pos den)

scaled : (k q : ℕ) → pos (suc k) *ℤ pos q ≡ pos (suc k * q)
unfolding ◌*ℤ◌
scaled k q = ground arith

scaled_down : (k q : ℕ) → pos (suc k) *ℤ sub_ℕ 0 q ≡ sub_ℕ 0 (suc k * q)
unfolding ◌*ℤ◌
scaled_down k q = ground arith

negated_parts : (a : ℕ) → pos_part (sub_ℕ 0 a) + a ≡ neg_part (sub_ℕ 0 a)
negated_parts a = ground arith

pos_plus : (a b : ℕ) → pos a +ℤ pos b ≡ pos (a + b)
unfolding ◌+ℤ◌
pos_plus a b = ground arith

neg_minus : (a b : ℕ) → negsuc a -ℤ pos b ≡ negsuc (a + b)
unfolding ◌-ℤ◌
neg_minus a b = ground arith

rounded_up : (n k : ℕ) → rounded_quotient (pos n) (pos (suc k)) ≡ pos ((n + suc k / 2) / suc k)
unfolding rounded_quotient ◌/ℤ◌
rounded_up n k = ground (arith, pos_plus n (suc k / 2))

rounded_down :
    (n k : ℕ) → rounded_quotient (negsuc n) (pos (suc k)) ≡ sub_ℕ 0 ((suc n + suc k / 2) / suc k)
unfolding rounded_quotient ◌/ℤ◌
rounded_down n k = ground (arith, neg_minus n (suc k / 2))

IsNearest-up : (n k : ℕ) → IsNearest (pos n) (suc k) (rounded_quotient (pos n) (pos (suc k)))
IsNearest-up n k = rw (rounded_up n k) (
    rw (scaled k ((n + suc k / 2) / suc k))
      (let h = half_up n k in (omega (int_laws, h.0, h.1), omega (int_laws, h.0, h.1))))

IsNearest-down :
    (n k : ℕ) → IsNearest (negsuc n) (suc k) (rounded_quotient (negsuc n) (pos (suc k)))
IsNearest-down n k = rw (rounded_down n k) (
    rw (scaled_down k ((suc n + suc k / 2) / suc k)) (
      let h = half_up (suc n) k in
      let p = negated_parts (suc k * ((suc n + suc k / 2) / suc k)) in
      (omega (int_laws, h.0, h.1, p), omega (int_laws, h.0, h.1, p))))

rounded_quotient-IsNearest :
    (num : ℤ) (k : ℕ) → IsNearest num (suc k) (rounded_quotient num (pos (suc k)))
rounded_quotient-IsNearest (pos n) k = IsNearest-up n k
rounded_quotient-IsNearest (negsuc n) k = IsNearest-down n k

-- A percentage that is given is the nearest whole percent of the exact ratio: twice the distance of
-- `denominator * percent` from `100 * numerator` is at most the denominator.
pub percent_rounded-IsNearest :
    (numerator : ℤ) (k : ℕ) (percent : ℤ)
    → percent_rounded numerator (pos (suc k)) ≡ some percent
    → IsNearest (numerator *ℤ pos 100) (suc k) percent
unfolding percent_rounded
percent_rounded-IsNearest numerator k percent e =
    subst (IsNearest (numerator *ℤ pos 100) (suc k))
      (to_i64-some (rounded_quotient (numerator *ℤ pos 100) (pos (suc k))) (ground (arith, e)))
      (rounded_quotient-IsNearest (numerator *ℤ pos 100) k)
  where
    to_i64-some : (a : ℤ) {b : ℤ} → to_i64 a ≡ some b → a ≡ b
    to_i64-some a h = ground arith
