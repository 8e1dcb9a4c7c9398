-- ===== src/Shared/Time/Laws.antt =====
-- What crates/shared/src/time.rs relies on of a calendar, and the months and weeks that it computes.
use andy.Base.{
  ℕ, suc, ◌+◌, ◌≤◌, ◌<◌, ◌≡◌, ap, Bool, Option, none, some, some, is_some, pos_part, neg_part, refl,
  inl, inr, unwrap_or, pos, ◌+ℤ◌, ◌-ℤ◌, ◌≤ℤ◌, ◌<ℤ◌, ◌==◌, ==_iff, Bool-cases, arith, +ℤ_parts,
  -ℤ_parts,
}
use andy.Domain.{NaiveDate}
use andy.Shared.Time.{Calendar, month_bounds}

module _ (calendar : Calendar) where
  open calendar use {from_ymd_opt, year, month, day, days_from_monday}

  -- The documented behaviour of `NaiveDate`.
  pub record IsCalendar : Type 0 where
    -- The dates of a month follow one another.
    pub same_month :
        (d x : NaiveDate) (k : ℕ)
        → from_ymd_opt (year d) (month d) k ≡ some x
        → x +ℤ pos (day d) ≡ d +ℤ pos k
    -- The first of the next month comes after.
    pub next_month : (d x : NaiveDate) → from_ymd_opt (year d) (suc (month d)) 1 ≡ some x → d <ℤ x
    pub day_range : (d : NaiveDate) → (1 ≤ day d) × (day d ≤ 31)
    pub month_range : (d : NaiveDate) → (1 ≤ month d) × (month d ≤ 12)
    -- Every month has a first day, and December has 31.
    pub has_first : (d : NaiveDate) → is_some (from_ymd_opt (year d) (month d) 1) ≡ Bool.true
    pub has_next :
        (d : NaiveDate)
        → month d < 12
        → is_some (from_ymd_opt (year d) (suc (month d)) 1) ≡ Bool.true
    pub has_december : (d : NaiveDate) → is_some (from_ymd_opt (year d) 12 31) ≡ Bool.true
    -- A month has each day up to its last.
    pub has_day :
        (d : NaiveDate) (k : ℕ)
        → 1 ≤ k
        → k ≤ day (month_bounds calendar d).1
        → is_some (from_ymd_opt (year d) (month d) k) ≡ Bool.true
    -- A week has seven days.
    pub weekdays : (d : NaiveDate) → days_from_monday d < 7
    pub later_weekday :
        (d : NaiveDate) (k : ℕ)
        → days_from_monday d + k < 7
        → days_from_monday (d +ℤ pos k) ≡ days_from_monday d + k

-- The default of an `expect` that finds a date is out of the way.
found_date :
    (o : Option NaiveDate) (d : NaiveDate) → is_some o ≡ Bool.true → o ≡ some (unwrap_or d o)
found_date none d h = cc
found_date (some x) d h = refl

module _ (calendar : Calendar) (laws : IsCalendar calendar) (d : NaiveDate) where
  open calendar use {from_ymd_opt, year, month, day, days_from_monday}

  first_of_month : unwrap_or d (from_ymd_opt (year d) (month d) 1) +ℤ pos (day d) ≡ d +ℤ pos 1
  first_of_month = laws.same_month d _ 1 (found_date _ d (laws.has_first d))

  december : month d ≡ 12 → d ≤ℤ unwrap_or d (from_ymd_opt (year d) 12 31)
  december e =
      (let x = unwrap_or d (from_ymd_opt (year d) 12 31) in
        let found : from_ymd_opt (year d) (month d) 31 ≡ some x =
          rw e (found_date _ d (laws.has_december d)) in
        omega (
          arith,
          +ℤ_parts x (pos (day d)),
          +ℤ_parts d (pos 31),
          ap pos_part (laws.same_month d x 31 found),
          ap neg_part (laws.same_month d x 31 found),
          laws.day_range d,
        ))

  other_month : month d < 12 → d ≤ℤ unwrap_or d (from_ymd_opt (year d) (suc (month d)) 1) -ℤ pos 1
  other_month h =
      (let x = unwrap_or d (from_ymd_opt (year d) (suc (month d)) 1) in
        omega (arith, -ℤ_parts x (pos 1), laws.next_month d x (found_date _ d (laws.has_next d h))))

  -- The bounds of a month enclose each of its dates, and the first bound is as many days before as
  -- the date is into the month. The calendar behaves as documented.
  pub month_bounds-encloses :
      ((month_bounds calendar d).0 +ℤ pos (day d) ≡ d +ℤ pos 1) × (d ≤ℤ (month_bounds calendar d).1)
  unfolding month_bounds
  month_bounds-encloses = (
    first_of_month,
    elim (Bool-cases (month d == 12)) [
      | inl e ↦ rw e (december ((==_iff (month d) 12).0 e))
      | inr e ↦ rw e (other_month (ground (arith, e, laws.month_range d)))
    ],
  )
