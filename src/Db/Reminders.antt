-- ===== src/Db/Reminders.antt =====
-- The recurring reminders of a day in crates/db/src/ops.rs. The reminders of one transaction, which
-- the source orders by their identifiers, are listed as they were inserted.
pub mod Due
pub mod Claimed
use andy.Base.{
  ℕ, Bool, true, false, not, ◌&&◌, Option, none, some, List, any, keep, map, update_where,
  unwrap_or, ℤ, pos, negsuc, ◌+ℤ◌, ◌-ℤ◌, ltb_ℤ, leb_ℤ, eqb_ℤ, abs_ℕ, rem_euclid, option_eq, ◌%◌,
  ◌==◌, if◌then◌else◌,
}
use andy.Domain.{Uuid, NaiveDate, Instant, Cadence}
use andy.Shared.Time.{
  Calendar, local_date, current_week_start, days_in_local_month, manila_offset_minutes,
}
use andy.Domain.Rows.{RecurringRow}
use andy.Db.Tables.{Database}
use andy.Db.Tables as Tables

-- `recurring_from_row`
abbrev pub recurring_from_row : Tables.RecurringRow → RecurringRow
recurring_from_row row = record {
  id = row.id;
  label = row.label;
  kind = row.kind;
  amount_centavos = row.amount_centavos;
  category = row.category;
  cadence = row.cadence;
  day_of_month = row.day_of_month;
  day_of_week = row.day_of_week;
  last_reminded_date = row.last_reminded_date;
}

unfoldable pub list_recurring : Uuid → Database → List RecurringRow
list_recurring user_id db =
    map recurring_from_row (keep (λ r. r.user_id == user_id) db.recurring_items)

-- `%` of an `i64` and a positive number: it has the sign of the first.
abbrev pub rem_i64 : ℤ → ℕ → ℤ
rem_i64 (pos n) m = pos (n % m)
rem_i64 (negsuc n) m = pos 0 -ℤ pos (abs_ℕ (negsuc n) % m)

abbrev pub min_ℤ : ℤ → ℤ → ℤ
min_ℤ a b = if ltb_ℤ b a then b else a

module _ (calendar : Calendar) where
  -- The day of this month or week on which an item is due. The `expect` is `unwrap_or` at today: the
  -- constraint on `day_of_month` and the calendar rule the default out.
  unfoldable pub due_day : Instant → Cadence → Option ℤ → Option ℤ → Option NaiveDate
  due_day at Cadence.monthly none day_of_week = none
  due_day at Cadence.monthly (some day) day_of_week =
      let today = local_date at manila_offset_minutes in
      let last_dom = pos (days_in_local_month calendar at manila_offset_minutes) in
      some (
        unwrap_or today (
          calendar.from_ymd_opt (calendar.year today) (calendar.month today)
            (rem_euclid (min_ℤ day last_dom) 4294967296)))
  due_day at Cadence.weekly day_of_month none = none
  due_day at Cadence.weekly day_of_month (some day) =
      some (current_week_start calendar at manila_offset_minutes +ℤ rem_i64 (day +ℤ pos 6) 7)

  -- `last_reminded_date.is_none_or(|last| last < due)`
  abbrev pub none_or_before : NaiveDate → Option NaiveDate → Bool
  none_or_before due none = true
  none_or_before due (some last) = ltb_ℤ last due

  -- The filter of `due_recurring_today`.
  unfoldable pub is_due : Instant → RecurringRow → Bool
  unfolding due_day
  is_due at item =
      let today = local_date at manila_offset_minutes in
      if option_eq eqb_ℤ item.last_reminded_date (some today)
      then false
      else elim (due_day at item.cadence item.day_of_month item.day_of_week) [
        | none ↦ false
        | some due ↦ leb_ℤ due today && none_or_before due item.last_reminded_date
      ]

  unfoldable pub due_recurring_today : Uuid → Instant → Database → List RecurringRow
  due_recurring_today user_id at db = keep (is_due at) (list_recurring user_id db)

-- The row that `claim_reminder` updates.
abbrev pub claimable : Uuid → Uuid → NaiveDate → Tables.RecurringRow → Bool
claimable id user_id today r =
    (r.id == id)
    && ((r.user_id == user_id) && not (option_eq eqb_ℤ r.last_reminded_date (some today)))

abbrev pub reminded : NaiveDate → Tables.RecurringRow → Tables.RecurringRow
reminded today r = record r { last_reminded_date = some today }

-- Whether a row was updated, and the tables after.
unfoldable pub claim_reminder : Uuid → Uuid → Instant → Database → Bool × Database
claim_reminder id user_id at db =
    let today = local_date at manila_offset_minutes in
    (
      any (claimable id user_id today) db.recurring_items,
      record db {
        recurring_items =
            update_where (claimable id user_id today) (reminded today) db.recurring_items;
      },
    )
