-- ===== src/Shared/Goals.antt =====
-- crates/shared/src/goals.rs: whether a savings goal is on track, and what to save a week.
pub mod Weekly
use andy.Base.{
  ℕ, ◌-◌, ◌*◌, drop, Bool, true, false, Option, none, some, List, [], ◌∷◌, ◌++◌, unwrap_or, ℤ, pos,
  ◌+ℤ◌, ◌-ℤ◌, ◌*ℤ◌, ◌/ℤ◌, div_euclid, ltb_ℤ, max_ℤ, Text, codes, decimal, if◌then◌else◌,
}
use andy.Domain.{NaiveDate, Instant}
use andy.Shared.Money.{format_php}
use andy.Shared.Percent.{percent_rounded}
use andy.Shared.Budget.{signed_decimal}
use andy.Shared.Floats.{Floats}
use andy.Shared.Time.{Calendar, local_date, manila_offset_minutes, day_length}

pub record GoalProgressInput : Type 0 where
  pub name : Text
  pub saved_centavos : ℤ
  pub target_centavos : ℤ
  pub created_at : Instant
  pub today : Instant
  pub target_date : Option NaiveDate

pub record GoalPaceVerdict : Type 0 where
  pub pct : ℤ
  pub has_deadline : Bool
  pub on_track : Bool
  pub per_week_centavos : Option ℤ

-- The whole weeks up to midnight UTC of the target date, at least 1. `num_seconds` cuts towards zero.
unfoldable pub weeks_remaining : NaiveDate → Instant → ℤ
weeks_remaining target_date today =
    let seconds = (target_date *ℤ pos day_length -ℤ today) /ℤ pos 1000000 in
    max_ℤ (div_euclid seconds (7 * 86400)) (pos 1)

module _ (floats : Floats) where
  open floats use {Float, of_i64, div, ge, clamp}

  -- The share of the time that has passed.
  unfoldable pub elapsed_fraction : NaiveDate → NaiveDate → NaiveDate → Float
  elapsed_fraction target_date created today =
      let span = target_date -ℤ created in
      if ltb_ℤ (pos 0) span
      then clamp (div (of_i64 (today -ℤ created)) (of_i64 span))
      else of_i64 (pos 1)

  unfoldable pub pace_by : GoalProgressInput → Option NaiveDate → GoalPaceVerdict
  unfolding weeks_remaining elapsed_fraction
  pace_by goal none = record {
    pct = unwrap_or (pos 0) (percent_rounded goal.saved_centavos goal.target_centavos);
    has_deadline = false;
    on_track = true;
    per_week_centavos = none;
  }
  pace_by goal (some target_date) =
      let pct = unwrap_or (pos 0) (percent_rounded goal.saved_centavos goal.target_centavos) in
      let saved_fraction = div (of_i64 goal.saved_centavos) (of_i64 goal.target_centavos) in
      let created = local_date goal.created_at manila_offset_minutes in
      let today = local_date goal.today manila_offset_minutes in
      let on_track = ge saved_fraction (elapsed_fraction target_date created today) in
      let weeks = weeks_remaining target_date goal.today in
      let remaining = goal.target_centavos -ℤ goal.saved_centavos in
      let per_week = (remaining +ℤ weeks -ℤ pos 1) /ℤ weeks in
      record {
        pct = pct;
        has_deadline = true;
        on_track = on_track;
        per_week_centavos = if on_track then none else some per_week;
      }

  unfoldable pub goal_pace : GoalProgressInput → GoalPaceVerdict
  unfolding pace_by
  goal_pace goal = pace_by goal goal.target_date

abbrev pub month_names : List Text
month_names =
    codes "Jan"
    ∷ codes "Feb"
    ∷ codes "Mar"
    ∷ codes "Apr"
    ∷ codes "May"
    ∷ codes "Jun"
    ∷ codes "Jul"
    ∷ codes "Aug"
    ∷ codes "Sep"
    ∷ codes "Oct"
    ∷ codes "Nov"
    ∷ codes "Dec"
    ∷ []

-- `MONTHS[i]`
abbrev pub first_text : List Text → Text
first_text [] = []
first_text (s ∷ rest) = s

module _ (calendar : Calendar) where
  -- `date.month0()` is one less than the month.
  unfoldable pub short_date : NaiveDate → Text
  short_date date =
      first_text (drop (calendar.month date - 1) month_names)
      ++ codes " "
      ++ decimal (calendar.day date)

  -- The end of the message.
  abbrev pub outlook : Text → Option ℤ → Text
  outlook when none = codes " On track to hit " ++ when ++ codes "."
  outlook when (some per_week) =
      codes " Behind pace — save about "
      ++ format_php per_week
      ++ codes "/week to hit "
      ++ when
      ++ codes "."

  unfoldable pub goal_progress_message : Floats → GoalProgressInput → Text
  unfolding short_date
  goal_progress_message floats goal =
      let verdict = goal_pace floats goal in
      let head =
        goal.name
        ++ codes ": "
        ++ format_php goal.saved_centavos
        ++ codes " / "
        ++ format_php goal.target_centavos
        ++ codes " ("
        ++ signed_decimal verdict.pct
        ++ codes "%)." in
      elim goal.target_date [
        | none ↦ head ++ codes " No deadline set."
        | some target_date ↦ head ++ outlook (short_date target_date) verdict.per_week_centavos
      ]
