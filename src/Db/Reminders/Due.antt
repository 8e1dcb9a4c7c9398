-- ===== src/Db/Reminders/Due.antt =====
-- When a reminder of crates/db/src/ops.rs is due again.
use andy.Base.{
  ℕ, ◌≤◌, ◌≡◌, refl, ap, Bool, true, false, ◌&&◌, Option, none, some, is_some, unwrap_or, ℤ, pos,
  negsuc, ◌+ℤ◌, &&-true, rem_euclid, ◌-ℤ◌, leb_ℤ, eqb_ℤ, option_eq, Bool-cases, ◌==◌, inl, inr,
  arith, if◌then◌else◌,
}
use andy.Domain.{NaiveDate, Instant, Cadence}
use andy.Domain.Rows.{RecurringRow}
use andy.Shared.Time.{
  Calendar, local_date, month_bounds, month_range, days_in_local_month, manila_offset_minutes,
}
use andy.Shared.Time.Laws.{IsCalendar}
use andy.Db.Nudges.Weekly.{SameWeek, current_week_start-SameWeek}
use andy.Db.Reminders.{due_day, is_due, none_or_before, min_ℤ, rem_i64}
use andy.Db.Recurring.{between}

abbrev pub today_of : Instant → NaiveDate
today_of at = local_date at manila_offset_minutes

-- The week of a weekly item and the month of a monthly one.
abbrev pub SamePeriod : Calendar → Cadence → Instant → Instant → Type 0
SamePeriod calendar Cadence.weekly at later = SameWeek calendar at later
SamePeriod calendar Cadence.monthly at later =
    (calendar.year (today_of later) ≡ calendar.year (today_of at))
    × (calendar.month (today_of later) ≡ calendar.month (today_of at))

-- An item as `claim_reminder` leaves it.
abbrev pub with_reminder : Instant → RecurringRow → RecurringRow
with_reminder at item = record item { last_reminded_date = some (today_of at) }

same_default :
    (o : Option NaiveDate) (d e : NaiveDate) → is_some o ≡ true → unwrap_or d o ≡ unwrap_or e o
same_default none d e h = cc
same_default (some x) d e h = refl

-- The day that a reminder asks for, moved into a month of `n` days.
clamped :
    (d : ℤ) (n : ℕ)
    → leb_ℤ (pos 1) d ≡ true
    → 1 ≤ n
    → n ≤ 31
    → (1 ≤ rem_euclid (min_ℤ d (pos n)) 4294967296) × (rem_euclid (min_ℤ d (pos n)) 4294967296 ≤ n)
unfolding rem_euclid
clamped (pos k) n h low high = ground (arith, h, low, high)
clamped (negsuc k) n h low high = ground (arith, h)

-- The test of `is_due` on the day `due`.
abbrev pub due_on : Calendar → Option NaiveDate → Option NaiveDate → NaiveDate → Bool
due_on calendar due last today =
    if option_eq eqb_ℤ last (some today)
    then false
    else elim due [ none ↦ false | some d ↦ leb_ℤ d today && none_or_before calendar d last ]

never_again :
    (calendar : Calendar) (due last : Option NaiveDate) (today later : NaiveDate)
    → due_on calendar due last today ≡ true
    → due_on calendar due (some today) later ≡ false
never_again calendar none last today later h = ground (arith, h)
never_again calendar (some d) none today later h = ground (arith, h)
never_again calendar (some d) (some l) today later h = ground (arith, h)

module _ (calendar : Calendar) (laws : IsCalendar calendar) where
  open calendar use {from_ymd_opt, year, month, day, days_from_monday}

  -- Dates of one month have the same last date.
  same_last :
      (d e : NaiveDate)
      → year e ≡ year d
      → month e ≡ month d
      → (month_bounds calendar e).1 ≡ (month_bounds calendar d).1
  unfolding month_bounds
  same_last d e y m = elim (Bool-cases (month d == 12)) [
    | inl h ↦ rw (y, m, h) (same_default _ e d (laws.has_december d))
    | inr h ↦
        rw (y, m, h)
          (ap (λ x. x -ℤ pos 1)
            (same_default _ e d (laws.has_next d (ground (arith, h, laws.month_range d)))))
  ]

  same_days_in_month :
      (at later : Instant)
      → year (today_of later) ≡ year (today_of at)
      → month (today_of later) ≡ month (today_of at)
      → days_in_local_month calendar later manila_offset_minutes
        ≡ days_in_local_month calendar at manila_offset_minutes
  unfolding days_in_local_month month_range
  same_days_in_month at later y m = ap day (same_last (today_of at) (today_of later) y m)

  -- The day of a month that a reminder falls on is there.
  day_of_reminder :
      (at : Instant) (d : ℤ)
      → leb_ℤ (pos 1) d ≡ true
      → is_some (
          from_ymd_opt (year (today_of at)) (month (today_of at)) (
            rem_euclid
              (min_ℤ d (pos (days_in_local_month calendar at manila_offset_minutes)))
              4294967296))
        ≡ true
  unfolding days_in_local_month month_range
  day_of_reminder at d h =
      (let n = days_in_local_month calendar at manila_offset_minutes in
        let last = month_range calendar at manila_offset_minutes in
        let range : (1 ≤ n) × (n ≤ 31) = laws.day_range last.1 in
        let k = clamped d n h range.0 range.1 in laws.has_day (today_of at) _ k.0 k.1)

  -- The day on which an item is due is the same all through its period.
  due_day-SamePeriod :
      (at later : Instant) (cadence : Cadence) (dom dow : Option ℤ)
      → between (pos 1) (pos 31) dom ≡ true
      → SamePeriod calendar cadence at later
      → due_day calendar later cadence dom dow ≡ due_day calendar at cadence dom dow
  unfolding due_day
  due_day-SamePeriod at later Cadence.weekly dom none h same = refl
  due_day-SamePeriod at later Cadence.weekly dom (some d) h same =
      ap (λ x. some (x +ℤ rem_i64 (d +ℤ pos 6) 7))
        (current_week_start-SameWeek calendar laws at later same)
  due_day-SamePeriod at later Cadence.monthly none dow h same = refl
  due_day-SamePeriod at later Cadence.monthly (some d) dow h (y, m) =
      rw (y, m, same_days_in_month at later y m)
        (ap (λ x. some x)
          (same_default _ (today_of later) (today_of at)
            (day_of_reminder at d ((&&-true _ _ h).0))))

  -- A due item whose reminder is claimed is not due again in its week or, if it is monthly, in its
  -- month. Its day of the month, if it has one, is from 1 to 31, as the schema requires, and the
  -- calendar behaves as documented.
  pub is_due-once :
      (at later : Instant) (item : RecurringRow)
      → between (pos 1) (pos 31) item.day_of_month ≡ true
      → SamePeriod calendar item.cadence at later
      → is_due calendar at item ≡ true
      → is_due calendar later (with_reminder at item) ≡ false
  unfolding is_due
  is_due-once at later item h same e =
      rw (due_day-SamePeriod at later item.cadence item.day_of_month item.day_of_week h same) (
        never_again calendar (due_day calendar at item.cadence item.day_of_month item.day_of_week)
          item.last_reminded_date (today_of at) (today_of later) e)
