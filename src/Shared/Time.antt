-- ===== src/Shared/Time.antt =====
-- crates/shared/src/time.rs. The calendar is that of the crate chrono and a parameter, `Calendar`.
-- A `NaiveDate` is the number of its days since 1970-01-01 and an instant that of its microseconds,
-- so a date moves by adding days. Instants beyond chrono's range do not occur.
pub mod Laws
use andy.Base.{
  ℕ, suc, ◌+◌, ◌-◌, ◌*◌, Bool, not, ◌&&◌, ◌||◌, Option, none, some, map_some, all, starts_with,
  drop, codes, ℤ, pos, ◌+ℤ◌, ◌-ℤ◌, ◌*ℤ◌, div_euclid, ltb_ℤ, leb_ℤ, leb, unwrap_or, Text, trim,
  is_empty, is_ascii_digit, split_once, digits_from, ◌==◌, if◌then◌else◌,
}
use andy.Domain.{NaiveDate, Instant}

pub record Calendar : Type 0 where
  -- `NaiveDate::from_ymd_opt`
  pub from_ymd_opt : ℤ → ℕ → ℕ → Option NaiveDate
  -- `Datelike::{year, month, day}`
  pub year : NaiveDate → ℤ
  pub month : NaiveDate → ℕ
  pub day : NaiveDate → ℕ
  -- `weekday().num_days_from_monday()`
  pub days_from_monday : NaiveDate → ℕ
  -- `NaiveDate`'s `Display` and its JSON
  pub date_text : NaiveDate → Text

-- `MANILA_OFFSET_MINUTES`
abbrev pub manila_offset_minutes : ℤ
manila_offset_minutes = pos 480

abbrev pub minute : ℤ
minute = pos 60000000

-- The microseconds of a day.
abbrev pub day_length : ℕ
day_length = 86400000000

unfoldable pub local_date : Instant → ℤ → NaiveDate
local_date at offset_minutes = div_euclid (at +ℤ offset_minutes *ℤ minute) day_length

-- `str::parse` into a number of at most 2147483647, with an optional plus sign. A text that only an
-- `i32` or only a `u32` accepts (a minus sign, a larger number) is out of range where this is used.
unfoldable pub parse_number : Text → Option ℕ
parse_number s =
    let digits = if starts_with (codes "+") s then drop 1 s else s in
    if not (is_empty digits) && all is_ascii_digit digits && leb (digits_from 0 digits) 2147483647
    then some (digits_from 0 digits)
    else none

abbrev pub in_range : Option ℕ → Option ℕ → Option (ℕ × ℕ)
in_range (some y) (some m) =
    if not (leb 2000 y && leb y 2100) || not (leb 1 m && leb m 12) then none else some (y, m)
in_range none m = none
in_range (some y) none = none

unfoldable pub parse_year_month : Text → Option (ℕ × ℕ)
unfolding parse_number
parse_year_month yyyymm = elim (split_once b'-' (trim yyyymm)) [
  | none ↦ none
  | some (y, m) ↦ in_range (parse_number y) (parse_number m)
]

module _ (calendar : Calendar) where
  open calendar use {from_ymd_opt, year, month, day, days_from_monday}

  -- The `expect`s are `unwrap_or` at the date itself: the laws of a calendar rule the default out.
  unfoldable pub month_bounds : NaiveDate → NaiveDate × NaiveDate
  month_bounds date =
      let first = unwrap_or date (from_ymd_opt (year date) (month date) 1) in
      let last =
        if month date == 12
        then unwrap_or date (from_ymd_opt (year date) 12 31)
        else unwrap_or date (from_ymd_opt (year date) (suc (month date)) 1) -ℤ pos 1 in
      (first, last)

  unfoldable pub month_range : Instant → ℤ → NaiveDate × NaiveDate
  unfolding month_bounds local_date
  month_range at offset_minutes = month_bounds (local_date at offset_minutes)

  unfoldable pub month_bounds_from_str : Text → Option (NaiveDate × NaiveDate)
  unfolding month_bounds parse_year_month
  month_bounds_from_str yyyymm = elim (parse_year_month yyyymm) [
    | none ↦ none
    | some (y, m) ↦ map_some month_bounds (from_ymd_opt (pos y) m 1)
  ]

  unfoldable pub current_week_start : Instant → ℤ → NaiveDate
  unfolding local_date
  current_week_start at offset_minutes =
      let d = local_date at offset_minutes in d -ℤ pos (days_from_monday d)

  unfoldable pub days_in_local_month : Instant → ℤ → ℕ
  unfolding month_range
  days_in_local_month at offset_minutes = day (month_range at offset_minutes).1

  unfoldable pub local_day_of_month : Instant → ℤ → ℕ
  unfolding local_date
  local_day_of_month at offset_minutes = day (local_date at offset_minutes)

  -- The 15th of the month before, at 4 o'clock. The `expect` is `unwrap_or` at the date itself.
  unfoldable pub prev_month_anchor : Instant → ℤ → Instant
  unfolding local_date
  prev_month_anchor at offset_minutes =
      let d = local_date at offset_minutes in
      let anchor =
        if month d == 1
        then from_ymd_opt (year d -ℤ pos 1) 12 15
        else from_ymd_opt (year d) (month d - 1) 15 in
      unwrap_or d anchor *ℤ pos day_length +ℤ pos 4 *ℤ pos 3600000000
