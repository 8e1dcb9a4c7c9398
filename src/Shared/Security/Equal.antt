-- ===== src/Shared/Security/Equal.antt =====
-- What crates/shared/src/security.rs compares.
use Prim.Native.Nat.{
  zero, max, bit_or, bit_xor, bit_or-bitwise, bit_xor-bitwise, digits, differ, ◌/◌, ◌%◌,
}
use mathlib.Core.Path.{subst}
use andy.Base.{
  ℕ, suc, ◌+◌, ◌≤◌, ◌≡◌, refl, sym, ◌∙◌, ap, ◌↔◌, true, List, [], ◌∷◌, length, ◌==◌, ==_iff, arith,
  Bool-cases, inl, inr,
}
use andy.Shared.Security.{byte_at, diff_from, constant_time_equal}

-- The digits of an `or` vanish with both numbers, those of an exclusive `or` when the two are equal.
or_digits-zero : (n a b : ℕ) → a ≤ n → digits (λ d. d) max n a b ≡ 0 → (a ≡ 0) × (b ≡ 0)
or_digits-zero zero zero b h e = (refl, e)
or_digits-zero zero (suc a) b h e = absurd (omega (arith, h))
or_digits-zero (suc n) zero b h e = (refl, e)
or_digits-zero (suc n) (suc a) b h e =
    (let k = or_digits-zero n (suc a / 2) (b / 2) (omega (arith, h)) (omega (arith, e)) in
      (omega (arith, k.0, k.1, e), omega (arith, k.0, k.1, e)))

differ-zero : (x y : ℕ) → differ x y ≡ 0 → x ≡ y
differ-zero zero y e = sym e
differ-zero (suc x) zero e = e
differ-zero (suc x) (suc y) e = omega (arith, differ-zero x y e)

differ-same : (x : ℕ) → differ x x ≡ 0
differ-same zero = refl
differ-same (suc x) = differ-same x

xor_digits-zero : (n a b : ℕ) → a ≤ n → digits (λ d. d) differ n a b ≡ 0 → a ≡ b
xor_digits-zero zero zero b h e = sym e
xor_digits-zero zero (suc a) b h e = absurd (omega (arith, h))
xor_digits-zero (suc n) zero b h e = sym e
xor_digits-zero (suc n) (suc a) b h e =
    (let k = xor_digits-zero n (suc a / 2) (b / 2) (omega (arith, h)) (omega (arith, e)) in
      let d = differ-zero (suc a % 2) (b % 2) (omega (arith, e)) in omega (arith, k, d))

xor_digits-same : (n a : ℕ) → a ≤ n → digits (λ d. d) differ n a a ≡ 0
xor_digits-same zero zero h = refl
xor_digits-same zero (suc a) h = absurd (omega (arith, h))
xor_digits-same (suc n) zero h = refl
xor_digits-same (suc n) (suc a) h =
    omega (arith, xor_digits-same n (suc a / 2) (omega (arith, h)), differ-same (suc a % 2))

bit_or-zero : (a b : ℕ) → bit_or a b ≡ 0 → (a ≡ 0) × (b ≡ 0)
bit_or-zero a b e = or_digits-zero a a b (omega arith) (sym (bit_or-bitwise a b) ∙ e)

bit_xor-zero : (a b : ℕ) → bit_xor a b ≡ 0 → a ≡ b
bit_xor-zero a b e = xor_digits-zero a a b (omega arith) (sym (bit_xor-bitwise a b) ∙ e)

bit_xor-same : (a : ℕ) → bit_xor a a ≡ 0
bit_xor-same a = bit_xor-bitwise a a ∙ xor_digits-same a a (omega arith)

-- The loop leaves zero only if every byte it saw was the same in both.
diff_from-zero :
    (a b : List ℕ) (n idx diff : ℕ)
    → diff_from a b n idx diff ≡ 0
    → (diff ≡ 0) × ((i : ℕ) → idx ≤ i → suc i ≤ idx + n → byte_at a i ≡ byte_at b i)
unfolding diff_from
diff_from-zero a b zero idx diff e = (e, λ i h k. absurd (omega (arith, h, k)))
diff_from-zero a b (suc n) idx diff e =
    (let r =
        diff_from-zero a b n (suc idx) (bit_or diff (bit_xor (byte_at a idx) (byte_at b idx))) e in
      let z = bit_or-zero diff (bit_xor (byte_at a idx) (byte_at b idx)) r.0 in
      (
        z.0,
        λ i h k. elim (Bool-cases (idx == i)) [
          | inl here ↦
              subst (λ j. byte_at a j ≡ byte_at b j) ((==_iff idx i).0 here) (bit_xor-zero _ _ z.1)
          | inr later ↦ r.1 i (ground (arith, h, later)) (omega (arith, k))
        ],
      ))

diff_from-same : (a : List ℕ) (n idx : ℕ) → diff_from a a n idx 0 ≡ 0
unfolding diff_from
diff_from-same a zero idx = refl
diff_from-same a (suc n) idx = rw (bit_xor-same (byte_at a idx)) (diff_from-same a n (suc idx))

-- Lists of one length whose bytes agree are equal.
same_bytes :
    (a b : List ℕ)
    → length a ≡ length b
    → ((i : ℕ) → suc i ≤ length a → byte_at a i ≡ byte_at b i)
    → a ≡ b
same_bytes [] [] l h = refl
same_bytes [] (y ∷ b) l h = absurd (omega (arith, l))
same_bytes (x ∷ a) [] l h = absurd (omega (arith, l))
same_bytes (x ∷ a) (y ∷ b) l h =
    rw (h 0 (omega arith))
      (ap (λ t. y ∷ t) (same_bytes a b (omega (arith, l)) λ i k. h (suc i) (omega (arith, k))))

self : (a : List ℕ) → constant_time_equal a a ≡ true
unfolding constant_time_equal
self a = (==_iff _ 0).1 (rw (bit_xor-same (length a)) (diff_from-same a _ 0))

-- The comparison without an early exit says what equality says.
pub constant_time_equal_iff : (a b : List ℕ) → (constant_time_equal a b ≡ true) ↔ (a ≡ b)
unfolding constant_time_equal
constant_time_equal_iff a b = (
  λ e.
      (let r = diff_from-zero a b _ 0 _ ((==_iff _ 0).0 e) in
        let l = bit_xor-zero (length a) (length b) r.0 in
        same_bytes a b l λ i k. r.1 i (omega arith) (omega (arith, k, l))),
  λ e. subst (λ t. constant_time_equal a t ≡ true) e (self a),
)
