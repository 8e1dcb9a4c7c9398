-- ===== src/Api/Checks/Marks.antt =====
-- The checks of crates/api/src/cron.rs that send messages mark what they sent and touch nothing else.
use andy.Base.{
  ℕ, ◌+◌, refl, Bool, true, false, not, ◌||◌, List, [], ◌∷◌, pos, Text, codes, ◌++◌, inl, inr,
  Bool-cases, any, leb_ℤ, some, none, is_some,
}
use andy.Domain.{Uuid, Instant, category_str}
use andy.Domain.Rows.{BudgetStatus, GoalRow, RecurringRow}
use andy.Shared.Goals.{goal_pace}
use andy.Shared.Analytics.Pace.{spending_pace, should_warn_pace}
use andy.Shared.Time.{
  local_day_of_month, days_in_local_month, manila_offset_minutes, current_week_start,
}
use andy.Db.Tables
use andy.Db.Tables.{Database, NudgeRow, Ensures, Ensures-require, ok, has_user, DbError}
use andy.Db.Queries.{budget_statuses, category_amounts_this_month, list_goals}
use andy.Db.Nudges.{record_nudge, is_nudge}
use andy.Db.Reminders.{due_recurring_today, claim_reminder}
use andy.Api.Program.{pure, ◌>>=◌, query, try_query, read}
use andy.Api.Program.Holds.{
  Holds, Holds-bind, Holds-query, Holds-try_query, Holds-silent, Holds-read, Holds-pure,
  Holds-look_bind, Holds-choice, final-choice,
}
use andy.Api.Outbound.{send_message}
use andy.Api.Checks.{
  Cron, send_isolated, nudge, pace_message, budget_near, check_budget, check_budgets,
  run_budget_checks, reminder_message, remind_all, run_recurring_reminders, goal_input, check_goals,
  run_goal_pace_checks, count_one,
}

module _ {κ} (P : Database → Type κ) (cron : Cron) (user : Uuid) (phone : Text) (now : Instant)
    (nudged : (db : Database) (ns : List NudgeRow) → P db → P (record db { nudges = ns })) where
  open cron use {calendar, floats, uuid_text}

  pub isolated-Holds : (msg : Text) → Holds P (send_isolated cron user phone now msg)
  unfolding send_isolated send_message
  isolated-Holds msg = Holds-silent P _ λ w. refl

  record_nudge-keeps :
      (kind : Text) (db : Database)
      → P db
      → Ensures (λ r. P r.1) (record_nudge calendar user kind now db)
  unfolding record_nudge
  record_nudge-keeps kind db h =
      elim (Bool-cases (
        any (is_nudge user kind (current_week_start calendar now manila_offset_minutes))
          db.nudges)) [
            | inl e ↦ rw e h
            | inr e ↦ rw e (
                Ensures-require (λ (r : Bool × Database). P r.1) (has_user db user)
                  DbError.foreign_key_violation _ λ _. nudged db _ h)
          ]

  nudge-Holds : (kind msg : Text) → Holds P (nudge cron user phone now kind msg)
  unfolding nudge
  nudge-Holds kind msg =
      Holds-bind P (try_query (record_nudge calendar user kind now)) _
        (Holds-try_query P _ (record_nudge-keeps kind))
        λ first.
          Holds-choice P first _ _
            (Holds-bind P (send_isolated cron user phone now msg) _ (isolated-Holds msg)
              λ _. Holds-pure P true)
            (Holds-pure P false)

  told-Holds :
      (kind msg : Text) (f : Bool → ℕ × ℕ)
      → Holds P (nudge cron user phone now kind msg >>= λ sent. pure (f sent))
  told-Holds kind msg f =
      Holds-bind P (nudge cron user phone now kind msg) _ (nudge-Holds kind msg)
        λ sent. Holds-pure P (f sent)

  check_budget-Holds : (budget : BudgetStatus) → Holds P (check_budget cron user phone now budget)
  unfolding check_budget
  check_budget-Holds budget = record {
    run = λ w h.
        let dom = pos (local_day_of_month calendar now manila_offset_minutes) in
        let dim = pos (days_in_local_month calendar now manila_offset_minutes) in
        let amounts = category_amounts_this_month calendar user budget.category now w.db in
        let pace = spending_pace floats budget.spent dom dim budget.limit (some amounts) in
        let pacing =
          told-Holds (codes "pace:" ++ category_str budget.category)
            (pace_message cron user phone now budget pace)
            λ sent. (0, count_one cron user phone now sent) in
        final-choice P (leb_ℤ budget.limit (pos 0)) _ _ h (
          final-choice P (budget_near cron user phone now budget) _ _
            ((told-Holds _ _ λ sent. (count_one cron user phone now sent, 0)).run w h)
            (final-choice P {A = ℕ × ℕ} (should_warn_pace floats pace dom none none none)
              ((nudge cron user phone now (codes "pace:" ++ category_str budget.category)
                    (pace_message cron user phone now budget pace)
                  >>= λ sent. pure (0, count_one cron user phone now sent))
                w)
              (pure (0, 0) w) (pacing.run w h) h));
  }

  check_budgets-Holds :
      (budgets : List BudgetStatus) → Holds P (check_budgets cron user phone now budgets)
  check_budgets-Holds [] = Holds-pure P (0, 0)
  check_budgets-Holds (budget ∷ budgets) =
      Holds-bind P (check_budget cron user phone now budget) _ (check_budget-Holds budget) λ one.
        Holds-bind P (check_budgets cron user phone now budgets) _ (check_budgets-Holds budgets)
          λ rest. Holds-pure P (one.0 + rest.0, one.1 + rest.1)

  pub run_budget_checks-Holds : Holds P (run_budget_checks cron user phone now)
  unfolding run_budget_checks
  run_budget_checks-Holds =
      Holds-bind P (read (budget_statuses calendar user now)) _ (Holds-read P _) check_budgets-Holds

  check_goals-Holds : (goals : List GoalRow) → Holds P (check_goals cron user phone now goals)
  check_goals-Holds [] = Holds-pure P 0
  check_goals-Holds (goal ∷ goals) =
      Holds-bind P _ _
        (Holds-choice P
          (not (is_some goal.target_date)
            || (goal_pace floats (goal_input cron user phone now goal)).on_track)
          (pure false) _ (Holds-pure P false) (nudge-Holds _ _))
        λ sent.
          Holds-bind P (check_goals cron user phone now goals) _ (check_goals-Holds goals)
            λ rest. Holds-pure P (count_one cron user phone now sent + rest)

  pub run_goal_pace_checks-Holds : Holds P (run_goal_pace_checks cron user phone now)
  unfolding run_goal_pace_checks
  run_goal_pace_checks-Holds =
      Holds-look_bind P (λ goals. Unit {0}) (list_goals user) _ (λ db h. tt)
        λ goals _. check_goals-Holds goals

  module _
      (claimed : (db : Database) (rs : List Tables.RecurringRow)
        → P db
        → P (record db { recurring_items = rs })) where
    remind_all-Holds : (items : List RecurringRow) → Holds P (remind_all cron user phone now items)
    unfolding claim_reminder
    remind_all-Holds [] = Holds-pure P 0
    remind_all-Holds (item ∷ items) =
        Holds-bind P (query (claim_reminder item.id user now)) _
          (Holds-query P _ λ db. claimed db _)
          λ first.
            Holds-bind P _ _
              (Holds-choice P first _ (pure 0)
                (Holds-bind P
                  (send_isolated cron user phone now (reminder_message cron user phone now item)) _
                  (isolated-Holds _) λ _. Holds-pure P 1)
                (Holds-pure P 0))
              λ sent.
                Holds-bind P (remind_all cron user phone now items) _ (remind_all-Holds items)
                  λ rest. Holds-pure P (sent + rest)

    pub run_recurring_reminders-Holds : Holds P (run_recurring_reminders cron user phone now)
    unfolding run_recurring_reminders
    run_recurring_reminders-Holds =
        Holds-look_bind P (λ items. Unit {0}) (due_recurring_today calendar user now) _ (λ db h. tt)
          λ items _. remind_all-Holds items
