-- ===== src/Shared/Amounts/Bounds.antt =====
-- The amounts that `parse_amount` of crates/shared/src/money.rs lets through.
use andy.Base.{
  ◌≡◌, Option, none, some, ℤ, pos, ◌≤ℤ◌, Text, ◌^◌, ◌+◌, ℕ, remove_all, codes, arith, trim,
  to_ascii_lowercase,
}
use andy.Shared.Amounts.{
  AmountText, ParsedAmount, max_entry_centavos, check_entry, parse_plain, parse_digits,
  parse_amount, bare_amount, take_suffix, fix_point,
}

-- An amount that may be logged.
pub record IsEntry (c : ℤ) : Type 0 where
  pub positive : pos 1 ≤ℤ c
  pub capped : c ≤ℤ max_entry_centavos

check_entry-IsEntry : (o : Option ℤ) (c : ℤ) → check_entry o ≡ ParsedAmount.amount c → IsEntry c
unfolding check_entry
check_entry-IsEntry none c h = cc
check_entry-IsEntry (some d) c h = ground (arith, h)

module _ (lib : AmountText) (raw : Text) (e : ℕ) where
  parse_plain-IsEntry :
      (s : Text) (c : ℤ) → parse_plain lib raw e s ≡ ParsedAmount.amount c → IsEntry c
  unfolding parse_plain
  parse_plain-IsEntry s c h =
      ground (arith, h, check_entry-IsEntry (lib.centavos s (10 ^ (2 + e))) c)

  parse_digits-IsEntry :
      (s : Text) (c : ℤ) → parse_digits lib raw e s ≡ ParsedAmount.amount c → IsEntry c
  unfolding parse_digits
  parse_digits-IsEntry s c h =
      ground (arith, h, parse_plain-IsEntry (remove_all (codes ",") s) c, parse_plain-IsEntry s c)

-- Every amount that is parsed lies between one centavo and the cap of an entry, whatever the text.
pub parse_amount-IsEntry :
    (lib : AmountText) (raw : Text) (c : ℤ)
    → parse_amount lib raw ≡ ParsedAmount.amount c
    → IsEntry c
unfolding parse_amount
parse_amount-IsEntry lib raw c h =
    (let suffix = take_suffix (bare_amount (to_ascii_lowercase (trim raw))) in
      ground (arith, h, parse_digits-IsEntry lib raw suffix.0 (fix_point suffix.1) c))
