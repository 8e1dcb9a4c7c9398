-- ===== src/Shared/Amounts.antt =====
-- `parse_amount` of crates/shared/src/money.rs. Its regular expressions and the decimal arithmetic
-- are the record `AmountText`: they belong to the crates regex and rust_decimal.
pub mod Bounds
use andy.Base.{
  ◌++◌, ℕ, ◌+◌, ◌^◌, Bool, not, ◌||◌, Option, none, some, List, [], ◌∷◌, keep, any, ℤ, pos, leb_ℤ,
  ltb_ℤ, Text, codes, trim, to_ascii_lowercase, is_empty, is_whitespace, remove_all, last_char, pop,
  starts_with, ◌==◌, if◌then◌else◌,
}

pub record AmountText : Type 0 where
  -- `RANGE_RE`, `GROUPED_RE` and `DECIMAL_RE`, by `is_match`
  pub is_range : Text → Bool
  pub is_grouped : Text → Bool
  pub is_decimal : Text → Bool
  -- `Decimal::from_str`, times the multiplier if that does not overflow, rounded, as an `i64`
  pub centavos : Text → ℕ → Option ℤ

-- `MAX_ENTRY_CENTAVOS`
abbrev pub max_entry_centavos : ℤ
max_entry_centavos = pos 100000000000

pub data MoneyError : Type 0 where
  empty range grouping : MoneyError
  unparseable : Text → MoneyError
  not_finite non_positive exceeds_cap : MoneyError

pub data ParsedAmount : Type 0 where
  amount : ℤ → ParsedAmount
  bad : MoneyError → ParsedAmount

-- The text without the currency and the white space.
abbrev pub bare_amount : Text → Text
bare_amount s = trim (
    keep (λ c. not (is_whitespace c))
      (remove_all (codes "peso")
        (remove_all (codes "pesos") (remove_all (codes "php") (remove_all (codes "₱") s)))))

-- `suffix_exp`, and the text without the suffix.
abbrev pub take_suffix : Text → ℕ × Text
take_suffix s = elim (last_char s) [
  | none ↦ (0, s)
  | some c ↦ if c == b'k' then (3, pop s) else if c == b'm' then (6, pop s) else (0, s)
]

-- A point at the end goes, and one at the start gets a zero.
abbrev pub fix_point : Text → Text
fix_point s =
    let s' : Text = elim (last_char s) [ none ↦ s | some c ↦ if c == b'.' then pop s else s ] in
    if starts_with (codes ".") s' then b'0' ∷ s' else s'

-- `if centavos <= 0 … if centavos > MAX_ENTRY_CENTAVOS …`
unfoldable pub check_entry : Option ℤ → ParsedAmount
check_entry none = ParsedAmount.bad MoneyError.not_finite
check_entry (some c) =
    if leb_ℤ c (pos 0)
    then ParsedAmount.bad MoneyError.non_positive
    else if ltb_ℤ max_entry_centavos c
    then ParsedAmount.bad MoneyError.exceeds_cap
    else ParsedAmount.amount c

module _ (lib : AmountText) where
  unfoldable pub parse_plain : Text → ℕ → Text → ParsedAmount
  parse_plain original suffix_exp s =
      if is_empty s || not (lib.is_decimal s)
      then ParsedAmount.bad (MoneyError.unparseable original)
      else check_entry (lib.centavos s (10 ^ (2 + suffix_exp)))

  unfoldable pub parse_digits : Text → ℕ → Text → ParsedAmount
  parse_digits original suffix_exp s =
      if any (λ c. c == b',') s
      then if not (lib.is_grouped s)
        then ParsedAmount.bad MoneyError.grouping
        else parse_plain original suffix_exp (remove_all (codes ",") s)
      else parse_plain original suffix_exp s

  unfoldable pub parse_amount : Text → ParsedAmount
  parse_amount raw =
      let lowered = to_ascii_lowercase (trim raw) in
      let s = bare_amount lowered in
      let suffix = take_suffix s in
      if is_empty lowered
      then ParsedAmount.bad MoneyError.empty
      else if lib.is_range s
      then ParsedAmount.bad MoneyError.range
      else parse_digits raw suffix.0 (fix_point suffix.1)

-- `MoneyError`'s `Display`.
abbrev pub money_error_text : MoneyError → Text
money_error_text MoneyError.empty = codes "empty"
money_error_text MoneyError.range = codes "looks like a range - send one amount"
money_error_text MoneyError.grouping = codes "that grouping looks off - send the plain number"
money_error_text (MoneyError.unparseable raw) = codes "unparseable amount: \"" ++ raw ++ codes "\""
money_error_text MoneyError.not_finite = codes "not finite"
money_error_text MoneyError.non_positive = codes "must be positive"
money_error_text MoneyError.exceeds_cap = codes "exceeds per-entry cap"
