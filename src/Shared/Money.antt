-- ===== src/Shared/Money.antt =====
-- crates/shared/src/money.rs: printing an amount. Reading one goes by regular expressions and a
-- decimal library.
pub mod Grouping
use mathlib.Core.List.{reverse}
use andy.Base.{
  ℕ, suc, ◌+◌, ◌/◌, ◌%◌, Bool, ◌&&◌, List, [], ◌∷◌, ◌++◌, ℤ, pos, abs_ℕ, ltb, ltb_ℤ, Text, codes,
  decimal, ◌==◌, if◌then◌else◌,
}

-- The loop over the digits from the right, at the index `idx`.
unfoldable pub group_from : ℕ → Text → Text
group_from idx [] = []
group_from idx (c ∷ s) =
    let rest = group_from (suc idx) s in
    if ltb 0 idx && idx % 3 == 0 then b',' ∷ (c ∷ rest) else c ∷ rest

unfoldable pub group_thousands : ℕ → Text
unfolding group_from
group_thousands value = reverse (group_from 0 (reverse (decimal value)))

-- `{cents:02}`
abbrev pub two_digits : ℕ → Text
two_digits n = if ltb n 10 then b'0' ∷ decimal n else decimal n

unfoldable pub format_php : ℤ → Text
unfolding group_thousands
format_php centavos =
    let sign = if ltb_ℤ centavos (pos 0) then codes "-" else [] in
    let abs = abs_ℕ centavos in
    sign ++ codes "₱" ++ group_thousands (abs / 100) ++ codes "." ++ two_digits (abs % 100)
