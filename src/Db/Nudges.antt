-- ===== src/Db/Nudges.antt =====
-- The marks of what was sent in a week, `nudges` and `summary_runs`, in crates/db/src/ops.rs.
pub mod Weekly
use andy.Base.{
  ℕ, Bool, true, false, not, ◌&&◌, List, [], ◌∷◌, ◌++◌, any, keep, length, ℤ, pos, ◌-ℤ◌, ◌*ℤ◌,
  ltb_ℤ, eqb_ℤ, Text, text_eq, ◌==◌, if◌then◌else◌,
}
use andy.Domain.{Uuid, NaiveDate, Instant}
use andy.Shared.Time.{Calendar, current_week_start, manila_offset_minutes}
use andy.Db.Tables.{Database, NudgeRow, DbError, Result, ok, ◌>>◌, require, has_user}

abbrev pub is_nudge : Uuid → Text → NaiveDate → NudgeRow → Bool
is_nudge user_id kind week n =
    (n.user_id == user_id) && (text_eq n.kind kind && eqb_ℤ n.week_start_local_date week)

module _ (calendar : Calendar) where
  -- Whether a row was inserted, and the tables after.
  unfoldable pub record_nudge : Uuid → Text → Instant → Database → Result (Bool × Database)
  record_nudge user_id kind at db =
      let week = current_week_start calendar at manila_offset_minutes in
      let row : NudgeRow = record {
        user_id = user_id;
        kind = kind;
        week_start_local_date = week;
      } in
      let inserted : Result (Bool × Database) =
        (require (has_user db user_id) DbError.foreign_key_violation
          >> ok (true, record db { nudges = db.nudges ++ row ∷ [] })) in
      if any (is_nudge user_id kind week) db.nudges then ok (false, db) else inserted

  -- The number of rows deleted, and the tables after.
  unfoldable pub reap_nudges : Instant → ℤ → Database → ℕ × Database
  reap_nudges at keep_weeks db =
      let cutoff = current_week_start calendar at manila_offset_minutes -ℤ keep_weeks *ℤ pos 7 in
      let old = λ (n : NudgeRow). ltb_ℤ n.week_start_local_date cutoff in
      (length (keep old db.nudges), record db { nudges = keep (λ n. not (old n)) db.nudges })

  unfoldable pub has_summary_for_week : Instant → Database → Bool
  has_summary_for_week at db =
      any (eqb_ℤ (current_week_start calendar at manila_offset_minutes)) db.summary_runs

  unfoldable pub record_summary : Instant → Database → Bool × Database
  record_summary at db =
      let week = current_week_start calendar at manila_offset_minutes in
      if any (eqb_ℤ week) db.summary_runs
      then (false, db)
      else (true, record db { summary_runs = db.summary_runs ++ week ∷ [] })

  unfoldable pub reap_summary_runs : Instant → ℤ → Database → ℕ × Database
  reap_summary_runs at keep_weeks db =
      let cutoff = current_week_start calendar at manila_offset_minutes -ℤ keep_weeks *ℤ pos 7 in
      let old = λ (week : NaiveDate). ltb_ℤ week cutoff in
      (
        length (keep old db.summary_runs),
        record db { summary_runs = keep (λ week. not (old week)) db.summary_runs },
      )
