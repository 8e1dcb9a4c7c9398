-- ===== src/Shared/DateValidation.antt =====
-- crates/shared/src/date_validation.rs. Lengths are those of UTF-8 bytes.
use andy.Base.{
  ℕ, ◌+◌, not, ◌&&◌, ◌||◌, Option, none, some, List, [], ◌∷◌, all, pos, ◌-ℤ◌, ltb_ℤ, ltb, Text,
  codes, trim, split, is_ascii_digit, digits_from, ◌==◌, if◌then◌else◌,
}
use andy.Domain.{NaiveDate, Instant}
use andy.Shared.Time.{Calendar, local_date, manila_offset_minutes}

pub data DateResult : Type 0 where
  ok : NaiveDate → DateResult
  err : Text → DateResult

abbrev pub not_iso : DateResult
not_iso = DateResult.err (codes "date must be YYYY-MM-DD")

-- `str::len`
abbrev pub utf8_width : ℕ → ℕ
utf8_width c = if ltb c 0x80 then 1 else if ltb c 0x800 then 2 else if ltb c 0x10000 then 3 else 4

abbrev pub byte_length : Text → ℕ
byte_length [] = 0
byte_length (c ∷ s) = utf8_width c + byte_length s

module _ (calendar : Calendar) where
  abbrev pub real_date : Option NaiveDate → DateResult
  real_date (some date) = DateResult.ok date
  real_date none = DateResult.err (codes "not a real date")

  -- The parts have digits only and at most four, so that `parse` takes them all.
  unfoldable pub parse_parts : List Text → DateResult
  parse_parts (y ∷ (m ∷ (d ∷ []))) =
      if not (byte_length y == 4) || (not (byte_length m == 2) || not (byte_length d == 2))
      then not_iso
      else if not (all is_ascii_digit y && (all is_ascii_digit m && all is_ascii_digit d))
      then not_iso
      else real_date
          (calendar.from_ymd_opt (pos (digits_from 0 y)) (digits_from 0 m) (digits_from 0 d))
  parse_parts [] = not_iso
  parse_parts (y ∷ []) = not_iso
  parse_parts (y ∷ (m ∷ [])) = not_iso
  parse_parts (y ∷ (m ∷ (d ∷ (e ∷ r)))) = not_iso

  unfoldable pub parse_calendar_date : Text → DateResult
  unfolding parse_parts
  parse_calendar_date input = parse_parts (split (λ c. c == b'-') (trim input))

  unfoldable pub validate_calendar_date : Text → DateResult
  unfolding parse_calendar_date
  validate_calendar_date input = parse_calendar_date input

  unfoldable pub validate_log_date : Text → Instant → DateResult
  unfolding local_date
  validate_log_date input now =
      let today = local_date now manila_offset_minutes in
      elim (parse_calendar_date input) [
        | DateResult.err reason ↦ DateResult.err reason
        | DateResult.ok parsed ↦
            if ltb_ℤ today parsed
            then DateResult.err (codes "can't log a future date")
            else if ltb_ℤ (calendar.year parsed) (calendar.year today -ℤ pos 5)
            then DateResult.err (codes "that's too far back")
            else DateResult.ok parsed
      ]
