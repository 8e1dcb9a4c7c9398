-- ===== src/Shared/Dedup/Injective.antt =====
-- What crates/shared/src/dedup.rs hashes tells its fields apart.
use andy.Base.{
  ◌≡◌, refl, false, [], ◌∷◌, ◌++◌, All, Text, trim, Bool-cases, inl, inr, arith, sym, ◌∙◌, ℤ, pos,
  negsuc, ◌+ℤ◌, ◌*ℤ◌, div_euclid, ap, pos_part, neg_part, +ℤ_parts, eq_of_parts,
}
use andy.Domain.{Instant}
use andy.Shared.Dedup.{is_control, strip_control, minute_bucket, key_input}
use andy.Shared.Dedup.Printed.{head-injective, tail-injective, signed_decimal-injective}

-- A text without the separator.
abbrev pub IsBare : Text → Type 0
IsBare s = All (λ c. is_control c ≡ false) s

strip_control-IsBare : (s : Text) → IsBare (strip_control s)
unfolding strip_control
strip_control-IsBare [] = tt
strip_control-IsBare (c ∷ s) = elim (Bool-cases (is_control c)) [
  | inl e ↦ rw e (strip_control-IsBare s)
  | inr e ↦ rw e (e, strip_control-IsBare s)
]

-- The first separator is where the first field ends.
first_field : (a b x y : Text) → IsBare a → IsBare b → a ++ 0 ∷ x ≡ b ++ 0 ∷ y → (a ≡ b) × (x ≡ y)
unfolding is_control
first_field [] [] x y h k e = (refl, tail-injective e)
first_field [] (d ∷ b) x y h k e =
    (let zero : 0 ≡ d = head-injective e in absurd (ground (arith, zero, k.0)))
first_field (c ∷ a) [] x y h k e =
    (let zero : c ≡ 0 = head-injective e in absurd (ground (arith, zero, h.0)))
first_field (c ∷ a) (d ∷ b) x y h k e =
    (let rest = first_field a b x y h.1 k.1 (tail-injective e) in
      (rw (head-injective e, rest.0) refl, rest.1))

-- Manila is whole minutes ahead, so its minutes are those of UTC.
minute_bucket-eq : (at : Instant) → minute_bucket at ≡ div_euclid at 60000000 +ℤ pos 480
unfolding minute_bucket div_euclid ◌+ℤ◌ ◌*ℤ◌
minute_bucket-eq (pos a) = ground arith
minute_bucket-eq (negsuc a) = ground arith

+ℤ-injective : (a b c : ℤ) → a +ℤ c ≡ b +ℤ c → a ≡ b
+ℤ-injective a b c e =
    (let positive = ap pos_part e in
      let negative = ap neg_part e in
      eq_of_parts a b (omega (arith, positive, negative, +ℤ_parts a c, +ℤ_parts b c)))

-- Two messages are hashed alike only if, without their control characters, their numbers and their
-- trimmed texts are the same, and they came in the same minute since the epoch.
pub key_input-injective :
    (phone phone' text text' : Text) (at at' : Instant)
    → key_input phone text at ≡ key_input phone' text' at'
    → (strip_control phone ≡ strip_control phone')
      × (strip_control (trim text) ≡ strip_control (trim text'))
      × (div_euclid at 60000000 ≡ div_euclid at' 60000000)
unfolding key_input
key_input-injective phone phone' text text' at at' e =
    (let first =
        first_field (strip_control phone) (strip_control phone') _ _ (strip_control-IsBare phone)
          (strip_control-IsBare phone') e in
      let second =
        first_field (strip_control (trim text)) (strip_control (trim text')) _ _
          (strip_control-IsBare (trim text)) (strip_control-IsBare (trim text')) first.1 in
      let minutes = signed_decimal-injective (minute_bucket at) (minute_bucket at') second.1 in
      (
        first.0,
        second.0,
        +ℤ-injective _ _ (pos 480) (sym (minute_bucket-eq at) ∙ minutes ∙ minute_bucket-eq at'),
      ))
