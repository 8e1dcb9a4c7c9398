-- ===== src/Shared/Money/Grouping.antt =====
-- The grouped digits of crates/shared/src/money.rs.
use mathlib.Core.List.{reverse}
use mathlib.Core.List.{reverse_aux}
use andy.Base.{
  ℕ, zero, suc, ◌+◌, ◌-◌, ◌/◌, ◌≡◌, refl, ◌∙◌, ap, not, [], ◌∷◌, keep, length, Text, decimal,
  decimal_rev, ◌==◌, arith,
}
use andy.Shared.Money.{group_from, group_thousands}

-- The text without its commas.
abbrev pub ungroup : Text → Text
ungroup = keep (λ c. not (c == b','))

ungroup-reverse_aux : (s r : Text) → ungroup (reverse_aux s r) ≡ reverse_aux (ungroup s) (ungroup r)
ungroup-reverse_aux [] r = refl
ungroup-reverse_aux (c ∷ s) r = ground (arith, ungroup-reverse_aux s (c ∷ r))

reverse_aux-reverse_aux : (s r : Text) → reverse_aux (reverse_aux s r) [] ≡ reverse_aux r s
reverse_aux-reverse_aux [] r = refl
reverse_aux-reverse_aux (c ∷ s) r = reverse_aux-reverse_aux s (c ∷ r)

length-reverse_aux : (s r : Text) → length (reverse_aux s r) ≡ length s + length r
length-reverse_aux [] r = omega arith
length-reverse_aux (c ∷ s) r = omega (arith, length-reverse_aux s (c ∷ r))

ungroup-group_from : (idx : ℕ) (s : Text) → ungroup (group_from idx s) ≡ ungroup s
unfolding group_from
ungroup-group_from idx [] = refl
ungroup-group_from idx (c ∷ s) = ground (arith, ungroup-group_from (suc idx) s)

-- A comma before every third digit from the right, but none at the end.
length-group_from :
    (idx : ℕ) (s : Text)
    → length (group_from (suc idx) s) + idx / 3 ≡ length s + (idx + length s) / 3
unfolding group_from
length-group_from idx [] = omega arith
length-group_from idx (c ∷ s) = ground (arith, length-group_from (suc idx) s)

length-grouped : (s : Text) → length (group_from 0 s) ≡ length s + (length s - 1) / 3
unfolding group_from
length-grouped [] = refl
length-grouped (c ∷ s) = ground (arith, length-group_from 0 s)

ungroup-decimal_rev : (fuel n : ℕ) → ungroup (decimal_rev fuel n) ≡ decimal_rev fuel n
unfolding decimal_rev
ungroup-decimal_rev zero n = refl
ungroup-decimal_rev (suc fuel) n = ground (arith, ungroup-decimal_rev fuel (n / 10))

-- Grouping only adds commas, one for every three digits after the first: without them the digits
-- are those of the number.
pub group_thousands-ungroup :
    (value : ℕ)
    → (ungroup (group_thousands value) ≡ decimal value)
      × (length (group_thousands value) ≡ length (decimal value) + (length (decimal value) - 1) / 3)
unfolding group_thousands decimal
group_thousands-ungroup value =
    (let digits = decimal_rev (suc value) value in
      let back = reverse_aux-reverse_aux digits [] in
      (
        ungroup-reverse_aux (group_from 0 (reverse (reverse digits))) []
            ∙ ap (λ s. reverse_aux s [])
                (ungroup-group_from 0 (reverse (reverse digits))
                  ∙ ap ungroup back
                  ∙ ungroup-decimal_rev (suc value) value),
        omega (
          arith,
          length-reverse_aux (group_from 0 (reverse (reverse digits))) [],
          length-grouped (reverse (reverse digits)),
          length-reverse_aux (reverse digits) [],
        ),
      ))
