-- ===== src/Base/Int.antt =====
-- Signed integers over the native numbers, and the bounds of the machine type `i64`.
use Prim.Native.Nat.{ℕ, suc, ◌+◌, ◌-◌, ◌*◌, ◌/◌, ◌%◌, ◌≤◌}
use mathlib.Core.Path.{◌≡◌}
use mathlib.Core.Bool.{Bool, true, ◌&&◌}
use mathlib.Core.Logic.{◌↔◌}
use mathlib.Core.Option.{Option, none, some}
use native.Mathlib.Omega.{arith}
use andy.Base.Tests.{ltb, leb, ◌==◌, if◌then◌else◌}

-- `negsuc n` is -(n + 1).
pub data ℤ : Type 0 where
  pos : ℕ → ℤ
  negsuc : ℕ → ℤ

abbrev pub pos_part : ℤ → ℕ
pos_part (pos n) = n
pos_part (negsuc n) = 0

abbrev pub neg_part : ℤ → ℕ
neg_part (pos n) = 0
neg_part (negsuc n) = suc n

abbrev pub sub_ℕ : ℕ → ℕ → ℤ
sub_ℕ a b = if leb b a then pos (a - b) else negsuc (b - a - 1)

infixl 65 ◌+ℤ◌ ◌-ℤ◌
infixl 70 ◌*ℤ◌ ◌/ℤ◌
infix 50 ◌≤ℤ◌ ◌<ℤ◌
unfoldable pub ◌+ℤ◌ : ℤ → ℤ → ℤ
a +ℤ b = sub_ℕ (pos_part a + pos_part b) (neg_part a + neg_part b)

unfoldable pub ◌-ℤ◌ : ℤ → ℤ → ℤ
a -ℤ b = sub_ℕ (pos_part a + neg_part b) (neg_part a + pos_part b)

unfoldable pub ◌*ℤ◌ : ℤ → ℤ → ℤ
a *ℤ b =
    sub_ℕ (pos_part a * pos_part b + neg_part a * neg_part b)
      (pos_part a * neg_part b + neg_part a * pos_part b)

abbrev pub ◌≤ℤ◌ : ℤ → ℤ → Type 0
a ≤ℤ b = pos_part a + neg_part b ≤ pos_part b + neg_part a

abbrev pub ◌<ℤ◌ : ℤ → ℤ → Type 0
a <ℤ b = suc (pos_part a + neg_part b) ≤ pos_part b + neg_part a

abbrev pub ltb_ℤ : ℤ → ℤ → Bool
ltb_ℤ a b = ltb (pos_part a + neg_part b) (pos_part b + neg_part a)

abbrev pub leb_ℤ : ℤ → ℤ → Bool
leb_ℤ a b = leb (pos_part a + neg_part b) (pos_part b + neg_part a)

abbrev pub eqb_ℤ : ℤ → ℤ → Bool
eqb_ℤ a b = (pos_part a + neg_part b) == (pos_part b + neg_part a)

-- Rust's `/` on integers, which rounds towards zero.
unfoldable pub ◌/ℤ◌ : ℤ → ℤ → ℤ
pos a /ℤ pos b = pos (a / b)
pos a /ℤ negsuc b = sub_ℕ 0 (a / suc b)
negsuc a /ℤ pos b = sub_ℕ 0 (suc a / b)
negsuc a /ℤ negsuc b = pos (suc a / suc b)

-- Rust's `rem_euclid` by a positive divisor.
unfoldable pub rem_euclid : ℤ → ℕ → ℕ
rem_euclid (pos a) m = a % m
rem_euclid (negsuc a) m = m - 1 - a % m

-- Rust's `div_euclid` by a positive divisor.
unfoldable pub div_euclid : ℤ → ℕ → ℤ
div_euclid (pos a) m = pos (a / m)
div_euclid (negsuc a) m = negsuc (a / m)

-- Rust's `max`.
abbrev pub max_ℤ : ℤ → ℤ → ℤ
max_ℤ a b = if leb_ℤ a b then b else a

abbrev pub abs_ℕ : ℤ → ℕ
abs_ℕ (pos n) = n
abs_ℕ (negsuc n) = suc n

abbrev pub i64_max : ℤ
i64_max = pos 9223372036854775807

abbrev pub i64_min : ℤ
i64_min = negsuc 9223372036854775807

-- The values of an `i64`.
abbrev pub IsI64 : ℤ → Type 0
IsI64 a = (i64_min ≤ℤ a) × (a ≤ℤ i64_max)

abbrev pub fits_i64 : ℤ → Bool
fits_i64 a = leb_ℤ i64_min a && leb_ℤ a i64_max

-- `i64::try_from(..).ok()`.
abbrev pub to_i64 : ℤ → Option ℤ
to_i64 a = if fits_i64 a then some a else none

abbrev pub clamp_i64 : ℤ → ℤ
clamp_i64 a = if ltb_ℤ a i64_min then i64_min else if ltb_ℤ i64_max a then i64_max else a

unfoldable pub saturating_add : ℤ → ℤ → ℤ
saturating_add a b = clamp_i64 (a +ℤ b)

unfoldable pub saturating_sub : ℤ → ℤ → ℤ
saturating_sub a b = clamp_i64 (a -ℤ b)

-- One lemma for each operation lets `omega` work with the operations shut.
pub +ℤ_parts :
    (a b : ℤ)
    → pos_part (a +ℤ b) + neg_part a + neg_part b ≡ neg_part (a +ℤ b) + pos_part a + pos_part b
unfolding ◌+ℤ◌
+ℤ_parts a b = ground arith

pub -ℤ_parts :
    (a b : ℤ)
    → pos_part (a -ℤ b) + neg_part a + pos_part b ≡ neg_part (a -ℤ b) + pos_part a + neg_part b
unfolding ◌-ℤ◌
-ℤ_parts a b = ground arith

pub eq_of_parts : (a b : ℤ) → pos_part a + neg_part b ≡ pos_part b + neg_part a → a ≡ b
eq_of_parts a b h = ground arith

pub ruleset int_laws = (arith, +ℤ_parts, -ℤ_parts, eq_of_parts)

pub +ℤ_comm : (a b : ℤ) → a +ℤ b ≡ b +ℤ a
+ℤ_comm a b = omega int_laws

pub +ℤ_assoc : (a b c : ℤ) → a +ℤ b +ℤ c ≡ a +ℤ (b +ℤ c)
+ℤ_assoc a b c = omega int_laws

pub +ℤ_zero : (a : ℤ) → a +ℤ pos 0 ≡ a
+ℤ_zero a = omega int_laws

-- An equation of sums under one more summand.
pub +ℤ_under : (e a b c d : ℤ) → a +ℤ b ≡ c +ℤ d → e +ℤ a +ℤ b ≡ e +ℤ c +ℤ d
+ℤ_under e a b c d h = rw (+ℤ_assoc e a b, h) (omega int_laws)

pub saturating_add-IsI64 : (a b : ℤ) → IsI64 (saturating_add a b)
unfolding saturating_add
saturating_add-IsI64 a b = ground arith

pub saturating_sub-IsI64 : (a b : ℤ) → IsI64 (saturating_sub a b)
unfolding saturating_sub
saturating_sub-IsI64 a b = ground arith

-- Saturation keeps the sign of the exact difference.
pub saturating_sub_exact : (a b : ℤ) → IsI64 (a -ℤ b) → saturating_sub a b ≡ a -ℤ b
unfolding saturating_sub
saturating_sub_exact a b h = ground arith

pub saturating_add_exact : (a b : ℤ) → IsI64 (a +ℤ b) → saturating_add a b ≡ a +ℤ b
unfolding saturating_add
saturating_add_exact a b h = ground arith

pub eqb_ℤ_iff : (a b : ℤ) → (eqb_ℤ a b ≡ true) ↔ (a ≡ b)
eqb_ℤ_iff a b = ground arith
