-- ===== src/Tests/Calendar.antt =====
-- Dates and amounts of crates/shared at concrete inputs.
use mathlib.Core.Path.{subst}
use andy.Base.{
  ◌≡◌, refl, some, ℤ, pos, ◌+ℤ◌, div_euclid, rem_euclid, codes, is_whitespace, trim, remove_all,
  lower_char, is_ascii_digit, arith, int_laws, negsuc, ◌<◌, ◌≤◌, ◌+◌, ◌-◌, ◌*◌, ◌/◌, ◌%◌, ◌<ℤ◌, ℕ,
  suc, ap, sym, ◌∙◌, +ℤ_parts, eq_of_parts,
}
use andy.Domain.{NaiveDate}
use andy.Shared.Time.{local_date, manila_offset_minutes}
use andy.Shared.Time.Laws.{IsCalendar}
use andy.Shared.DateValidation.{validate_log_date}
use andy.Shared.Amounts.{parse_amount, parse_digits, parse_plain, check_entry, ParsedAmount}
use andy.Shared.Amounts.Bounds.{IsEntry, parse_amount-IsEntry}
use andy.Ai.Fields.{log_date}
use andy.Ai.Fields.Laws.{result_of, log_date-validate_log_date}
use andy.Tests.Libraries.{libraries, plain_amounts, new_year, long_months}

log_date-validate_log_date_example :
    log_date libraries
      (some (codes "2025-01-02"))
      (local_date (pos 65000000000000000) manila_offset_minutes)
    ≡ result_of (validate_log_date long_months (codes "2025-01-02") (pos 65000000000000000))
unfolding trim is_whitespace
log_date-validate_log_date_example =
    log_date-validate_log_date libraries (codes "2025-01-02") (pos 65000000000000000) refl

twelve : parse_amount plain_amounts (codes "120") ≡ ParsedAmount.amount (pos 12000)
unfolding parse_amount trim parse_digits remove_all lower_char parse_plain is_ascii_digit
    check_entry is_whitespace
twelve = refl

parse_amount-IsEntry_example : IsEntry (pos 12000)
parse_amount-IsEntry_example = parse_amount-IsEntry plain_amounts (codes "120") (pos 12000) twelve

new_year-split : (d : ℤ) → new_year (div_euclid d 372) +ℤ pos (rem_euclid d 372) ≡ d
unfolding ◌+ℤ◌ div_euclid rem_euclid
new_year-split (pos n) = ground arith
new_year-split (negsuc n) = ground arith

rem_euclid-lt : (d : ℤ) → rem_euclid d 372 < 372
unfolding rem_euclid
rem_euclid-lt (pos n) = omega arith
rem_euclid-lt (negsuc n) = omega arith

-- The day of a month that is there.
made :
    (y : ℤ) (m k : ℕ) (x : NaiveDate)
    → long_months.from_ymd_opt y m k ≡ some x
    → (1 ≤ k) × (x ≡ new_year y +ℤ pos ((m - 1) * 31 + (k - 1)))
made y m k x e = ground (arith, e)

regroup :
    (n : ℤ) (r k : ℕ)
    → 1 ≤ k
    → n +ℤ pos ((r / 31 + 1 - 1) * 31 + (k - 1)) +ℤ pos (r % 31 + 1) ≡ n +ℤ pos r +ℤ pos k
regroup n r k h = eq_of_parts _ _ (
    omega (
      arith,
      +ℤ_parts (n +ℤ pos ((r / 31 + 1 - 1) * 31 + (k - 1))) (pos (r % 31 + 1)),
      +ℤ_parts n (pos ((r / 31 + 1 - 1) * 31 + (k - 1))),
      +ℤ_parts (n +ℤ pos r) (pos k),
      +ℤ_parts n (pos r),
    ))

same_month :
    (d x : NaiveDate) (k : ℕ)
    → long_months.from_ymd_opt (long_months.year d) (long_months.month d) k ≡ some x
    → x +ℤ pos (long_months.day d) ≡ d +ℤ pos k
same_month d x k e =
    (let f = made (long_months.year d) (long_months.month d) k x e in
      let r = rem_euclid d 372 in
      ap (λ z. z +ℤ pos (long_months.day d)) f.1
      ∙ regroup (new_year (div_euclid d 372)) r k f.0
      ∙ ap (λ z. z +ℤ pos k) (new_year-split d))

next_month :
    (d x : NaiveDate)
    → long_months.from_ymd_opt (long_months.year d) (suc (long_months.month d)) 1 ≡ some x
    → d <ℤ x
next_month d x e =
    (let f = made (long_months.year d) (suc (long_months.month d)) 1 x e in
      let r = rem_euclid d 372 in
      let n = new_year (div_euclid d 372) in
      let later : n +ℤ pos r <ℤ n +ℤ pos ((suc (r / 31 + 1) - 1) * 31 + (1 - 1)) =
        omega
          (arith, +ℤ_parts n (pos r), +ℤ_parts n (pos ((suc (r / 31 + 1) - 1) * 31 + (1 - 1)))) in
      subst (λ z. d <ℤ z) (sym f.1)
        (subst (λ z. z <ℤ n +ℤ pos ((suc (r / 31 + 1) - 1) * 31 + (1 - 1))) (new_year-split d)
          later))

rem_euclid-7 : (a : ℤ) → rem_euclid a 7 < 7
unfolding rem_euclid
rem_euclid-7 (pos n) = omega arith
rem_euclid-7 (negsuc n) = omega arith

rem_euclid-add :
    (a : ℤ) (k : ℕ) → rem_euclid a 7 + k < 7 → rem_euclid (a +ℤ pos k) 7 ≡ rem_euclid a 7 + k
unfolding ◌+ℤ◌ rem_euclid
rem_euclid-add (pos n) k h = ground (arith, h)
rem_euclid-add (negsuc n) k h = ground (arith, h)

swap_days : (d : ℤ) (k : ℕ) → d +ℤ pos k +ℤ pos 3 ≡ d +ℤ pos 3 +ℤ pos k
swap_days d k = omega int_laws

pub long_months-IsCalendar : IsCalendar long_months
long_months-IsCalendar = record {
  same_month = same_month;
  next_month = next_month;
  day_range = λ d. (omega arith, omega arith);
  month_range = λ d. (omega arith, omega (arith, rem_euclid-lt d));
  has_first = λ d. ground (arith, rem_euclid-lt d);
  has_next = λ d h. ground (arith, h);
  has_december = λ d. refl;
  has_day = λ d k low high. ground (arith, low, high, rem_euclid-lt d);
  weekdays = λ d. rem_euclid-7 (d +ℤ pos 3);
  later_weekday =
      λ d k h. ap (λ z. rem_euclid z 7) (swap_days d k) ∙ rem_euclid-add (d +ℤ pos 3) k h;
}
