-- ===== src/Shared/Dedup/Printed.antt =====
-- Numbers that print alike are the same: `i64::to_string` as crates/shared/src/dedup.rs uses it.
use mathlib.Core.List.{reverse, reverse-reverse}
use mathlib.Core.List.Permᴰ
use andy.Base.{
  ℕ, zero, suc, ◌+◌, ◌-◌, ◌*◌, ◌/◌, ◌<◌, ◌≡◌, sym, ◌∙◌, ap, false, [], ◌∷◌, All, All-Permᴰ, Text,
  ◌==◌, ltb, decimal, decimal_rev, ℤ, pos, negsuc, inl, inr, Bool-cases, arith,
}
use andy.Shared.Budget.{signed_decimal}

pub head-injective : {c d : ℕ} {s t : Text} → c ∷ s ≡ d ∷ t → c ≡ d
head-injective e = cc

pub tail-injective : {c d : ℕ} {s t : Text} → c ∷ s ≡ d ∷ t → s ≡ t
tail-injective e = cc

-- The value of digits, the lowest first.
abbrev value_rev : Text → ℕ
value_rev [] = 0
value_rev (c ∷ s) = (c - b'0') + 10 * value_rev s

value_rev-decimal_rev : (f n : ℕ) → n < f → value_rev (decimal_rev f n) ≡ n
unfolding decimal_rev
value_rev-decimal_rev zero n h = omega arith
value_rev-decimal_rev (suc f) n h = elim (Bool-cases (ltb n 10)) [
  | inl e ↦ ground (arith, e)
  | inr e ↦
      (let lower : n / 10 < f = ground (arith, e, h) in
        ground (arith, e, value_rev-decimal_rev f (n / 10) lower))
]

printed-value : (n : ℕ) → value_rev (reverse (decimal n)) ≡ n
unfolding decimal
printed-value n =
    ap value_rev (reverse-reverse (decimal_rev (suc n) n))
    ∙ value_rev-decimal_rev (suc n) n (omega arith)

decimal-injective : (m n : ℕ) → decimal m ≡ decimal n → m ≡ n
decimal-injective m n e =
    sym (printed-value m) ∙ ap (λ s. value_rev (reverse s)) e ∙ printed-value n

-- A character that is not the sign.
abbrev IsUnsigned : Text → Type 0
IsUnsigned s = All (λ c. (c == b'-') ≡ false) s

decimal_rev-IsUnsigned : (f n : ℕ) → IsUnsigned (decimal_rev f n)
unfolding decimal_rev
decimal_rev-IsUnsigned zero n = tt
decimal_rev-IsUnsigned (suc f) n = elim (Bool-cases (ltb n 10)) [
  | inl e ↦ rw e (ground (arith, e), tt)
  | inr e ↦ rw e (ground (arith, e), decimal_rev-IsUnsigned f (n / 10))
]

decimal-IsUnsigned : (n : ℕ) → IsUnsigned (decimal n)
unfolding decimal
decimal-IsUnsigned n =
    All-Permᴰ _ (Permᴰ.symm (Permᴰ.reverse (decimal_rev (suc n) n)))
      (decimal_rev-IsUnsigned (suc n) n)

unsigned-neq : (s t : Text) → IsUnsigned s → s ≡ b'-' ∷ t → ⊥
unsigned-neq [] t h e = cc
unsigned-neq (c ∷ s) t h e = (let sign : c ≡ b'-' = head-injective e in ground (arith, sign, h.0))

signed-pos : (n : ℕ) → signed_decimal (pos n) ≡ decimal n
signed-pos n = ground arith

signed-negsuc : (n : ℕ) → signed_decimal (negsuc n) ≡ b'-' ∷ decimal (suc n)
signed-negsuc n = ground arith

pub signed_decimal-injective : (a b : ℤ) → signed_decimal a ≡ signed_decimal b → a ≡ b
signed_decimal-injective (pos m) (pos n) e =
    ap pos (decimal-injective m n (sym (signed-pos m) ∙ e ∙ signed-pos n))
signed_decimal-injective (pos m) (negsuc n) e = absurd (
    unsigned-neq (decimal m) (decimal (suc n)) (decimal-IsUnsigned m)
      (sym (signed-pos m) ∙ e ∙ signed-negsuc n))
signed_decimal-injective (negsuc m) (pos n) e = absurd (
    unsigned-neq (decimal n) (decimal (suc m)) (decimal-IsUnsigned n)
      (sym (signed-pos n) ∙ sym e ∙ signed-negsuc m))
signed_decimal-injective (negsuc m) (negsuc n) e =
    (let same : suc m ≡ suc n =
        decimal-injective (suc m) (suc n)
          (tail-injective (sym (signed-negsuc m) ∙ e ∙ signed-negsuc n)) in
      ap negsuc (omega arith))
