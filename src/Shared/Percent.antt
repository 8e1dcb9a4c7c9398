-- ===== src/Shared/Percent.antt =====
-- crates/shared/src/percent.rs: percentages of whole centavos. The products are taken in `i128`,
-- which holds them exactly for every `i64`.
use andy.Base.{
  ℕ, suc, ◌+◌, ◌*◌, ◌≤◌, ◌≡◌, Bool, true, false, Option, none, some, ℤ, pos, negsuc, ◌+ℤ◌, ◌-ℤ◌,
  ◌*ℤ◌, ◌/ℤ◌, leb_ℤ, to_i64, if◌then◌else◌,
}
pub mod Rounding

-- The quotient, rounded half away from zero.
unfoldable pub rounded_quotient : ℤ → ℤ → ℤ
rounded_quotient num den =
    if leb_ℤ (pos 0) num then (num +ℤ (den /ℤ pos 2)) /ℤ den else (num -ℤ (den /ℤ pos 2)) /ℤ den

unfoldable pub percent_rounded : ℤ → ℤ → Option ℤ
percent_rounded numerator denominator =
    if leb_ℤ denominator (pos 0)
    then none
    else to_i64 (rounded_quotient (numerator *ℤ pos 100) denominator)

unfoldable pub ratio_crossed : ℤ → ℤ → ℤ → Bool
ratio_crossed numerator denominator threshold_percent =
    if leb_ℤ denominator (pos 0)
    then false
    else leb_ℤ (threshold_percent *ℤ denominator) (numerator *ℤ pos 100)
