-- ===== src/Api/Cron/Book.antt =====
-- What the daily checks of crates/api/src/cron.rs leave of a user's ledger.
use andy.Base.{
  refl, true, false, not, Option, none, some, List, Text, inl, inr, Bool-cases, any, length, eqb_ℤ,
}
use andy.Domain.{Uuid, Instant}
use andy.Shared.Time.{local_date, prev_month_anchor, manila_offset_minutes, current_week_start}
use andy.Db.Tables
use andy.Db.Tables.{
  Database, ConfirmationRow, NudgeRow, Ensures, Ensures-require, ok, has_user, DbError,
}
use andy.Db.Queries.{get_month_overview, get_spending_by_category, list_goals}
use andy.Db.Nudges.{record_summary, has_summary_for_week}
use andy.Api.Program.{World, pure, query, must_send, final}
use andy.Api.Program.Holds.{
  Holds, Holds-bind, Holds-look_bind, Holds-silent, Holds-read, Holds-pure, Holds-or_else,
  Holds-choice,
}
use andy.Api.Outbound.{SendblueError, send_message}
use andy.Api.Outbound.Queued.{due-Holds}
use andy.Api.Checks.{Cron}
use andy.Api.Checks.Marks.{
  run_budget_checks-Holds, run_recurring_reminders-Holds, run_goal_pace_checks-Holds,
}
use andy.Api.Cron.{
  recap, run_weekly_summary, send_recap, run_daily_checks, daily_steps, daily_result, not_cleaned,
}
use andy.Api.Hygiene.Book.{IsAside, aside-Holds, run_daily_hygiene-Holds}
use andy.Api.Service.House.{IsHouse, IsHouse-same, queue-IsHouse}
use andy.Api.Service.Book.{resolved}

module _ (number : Text) (user : Uuid) where
  abbrev Kept : Database → Type 0
  Kept = IsHouse number user

  module _ (cron : Cron) (now : Instant) where
    open cron use {calendar, sendblue}

    nudged : (db : Database) (ns : List NudgeRow) → Kept db → Kept (record db { nudges = ns })
    nudged db ns = IsHouse-same number user db _ refl refl refl refl

    items_marked :
        (db : Database) (rs : List Tables.RecurringRow)
        → Kept db
        → Kept (record db { recurring_items = rs })
    items_marked db rs = IsHouse-same number user db _ refl refl refl refl

    record_summary-IsAside :
        (db : Database) → IsAside number user db (record_summary calendar now db).1
    unfolding record_summary
    record_summary-IsAside db =
        elim (Bool-cases
          (any (eqb_ℤ (current_week_start calendar now manila_offset_minutes)) db.summary_runs)) [
            | inl e ↦ rw e (refl, refl, refl, refl)
            | inr e ↦ rw e (refl, refl, refl, refl)
          ]

    must_send-Holds : (answer : Option SendblueError) → Holds Kept (must_send answer)
    must_send-Holds none = record { run = λ w h. h }
    must_send-Holds (some e) = record { run = λ w h. h }

    send_recap-Holds : Holds Kept (send_recap cron user number now)
    unfolding send_recap send_message
    send_recap-Holds =
        Holds-bind Kept _ _ (Holds-read Kept (get_month_overview calendar user now)) λ overview.
          Holds-bind Kept _ _ (Holds-read Kept (get_spending_by_category calendar user now)) λ cats.
            Holds-bind Kept _ _
              (Holds-read Kept (
                get_spending_by_category calendar user
                  (prev_month_anchor calendar now manila_offset_minutes)))
              λ prev.
                Holds-look_bind Kept (λ goals. Unit {0}) (list_goals user) _ (λ db h. tt)
                  λ goals _.
                    Holds-bind Kept _ _
                      (Holds-silent Kept
                        (send_message sendblue number (
                          recap overview cats prev (length goals)
                            (calendar.date_text (local_date now manila_offset_minutes))))
                        λ w. refl)
                      λ answer.
                        Holds-bind Kept (must_send answer) _ (must_send-Holds answer)
                          λ _. Holds-pure Kept true

    run_weekly_summary-Holds : Holds Kept (run_weekly_summary cron user number now)
    unfolding run_weekly_summary
    run_weekly_summary-Holds =
        Holds-look_bind Kept (λ _. Unit {0}) (has_summary_for_week calendar now) _ (λ db h. tt)
          λ before _.
            Holds-bind Kept _ _
              (Holds-choice Kept before (pure false) (query (record_summary calendar now))
                (Holds-pure Kept false)
                (aside-Holds number user (record_summary calendar now) record_summary-IsAside))
              λ recorded.
                Holds-choice Kept (not recorded) (pure false) _ (Holds-pure Kept false)
                  send_recap-Holds

    steps-Holds : Holds Kept (daily_steps cron user number now)
    steps-Holds =
        Holds-bind Kept _ _
          (Holds-or_else Kept (0, 0) _
            (due-Holds Kept sendblue (queue-IsHouse number user) cron.engine now 10))
          λ outbound.
            Holds-bind Kept _ _
              (Holds-or_else Kept not_cleaned _ (run_daily_hygiene-Holds number user calendar now))
              λ hygiene.
                Holds-bind Kept _ _
                  (Holds-or_else Kept (0, 0) _
                    (run_budget_checks-Holds Kept cron user number now nudged))
                  λ budgets.
                    Holds-bind Kept _ _
                      (Holds-or_else Kept 0 _ (
                        run_recurring_reminders-Holds Kept cron user number now nudged
                          items_marked))
                      λ reminders.
                        Holds-bind Kept _ _
                          (Holds-or_else Kept 0 _
                            (run_goal_pace_checks-Holds Kept cron user number now nudged))
                          λ goals.
                            Holds-bind Kept _ _
                              (Holds-or_else Kept false _ run_weekly_summary-Holds)
                              λ sent.
                                Holds-pure Kept
                                  (daily_result outbound hygiene budgets reminders goals sent)

-- The daily checks keep the user's ledger well formed, and the writes that wait for a "yes" the user's,
-- whatever step fails. At the start both hold, and the number is the user's.
pub run_daily_checks-IsHouse :
    (cron : Cron) (now : Instant) (number : Text) (user : Uuid) (w : World)
    → IsHouse number user w.db
    → IsHouse number user (final (run_daily_checks cron number now w)).db
unfolding run_daily_checks
run_daily_checks-IsHouse cron now number user w h =
    rw (resolved cron.engine number user w.db h.owner, final)
      ((steps-Holds number user cron now).run w h)
