-- ===== src/Api/Checks.antt =====
-- The checks of crates/api/src/cron.rs that send messages: budgets, reminders and goals.
pub mod Again
pub mod Marks
use andy.Base.{
  ℕ, suc, ◌+◌, Bool, true, false, not, ◌&&◌, ◌||◌, Option, none, some, List, [], ◌∷◌, ◌++◌, pos,
  ◌-ℤ◌, leb_ℤ, max_ℤ, is_some, unwrap_or, Text, codes, if◌then◌else◌,
}
use andy.Domain.{Uuid, Instant, category_str}
use andy.Domain.Rows.{BudgetStatus, GoalRow, RecurringRow}
use andy.Shared.Money.{format_php}
use andy.Shared.Percent.{percent_rounded}
use andy.Shared.Budget.{signed_decimal}
use andy.Shared.Floats.{Floats}
use andy.Shared.Goals.{GoalProgressInput, goal_pace, goal_progress_message}
use andy.Shared.Analytics.Pace.{PaceVerdict, spending_pace, should_warn_pace, budget_near_ratio}
use andy.Shared.Time.{Calendar, local_day_of_month, days_in_local_month, manila_offset_minutes}
use andy.Db.Tables.{Engine, Database, Result, ok, err}
use andy.Db.Queries.{budget_statuses, category_amounts_this_month, list_goals}
use andy.Db.Nudges.{record_nudge}
use andy.Db.Reminders.{due_recurring_today, claim_reminder}
use andy.Api.Program.{Program, pure, ◌>>=◌, ◌>>◌, query, try_query, look, read}
use andy.Api.Outbound.{Sendblue, send_message}

-- What the checks use of the outside: Postgres, the calendar, floats and the message provider.
pub record Cron : Type 1 where
  pub engine : Engine
  pub calendar : Calendar
  pub floats : Floats
  pub sendblue : Sendblue
  -- How a `Uuid` prints.
  pub uuid_text : Uuid → Text

module _ (cron : Cron) (user_id : Uuid) (phone : Text) (now : Instant) where
  open cron use {calendar, floats, sendblue, uuid_text}

  -- An error of the provider is logged.
  unfoldable pub send_isolated : Text → Program (Unit {0})
  send_isolated msg = do answer ← send_message sendblue phone msg; pure tt

  -- A message that is sent if it is the first of its kind in the week, and whether it was.
  unfoldable pub nudge : Text → Text → Program Bool
  unfolding send_isolated
  nudge kind msg = do
    first ← try_query (record_nudge calendar user_id kind now)
    if first then send_isolated msg >> pure true else pure false

  abbrev pub near_message : BudgetStatus → Text
  near_message budget =
      codes "Budget heads-up: "
      ++ category_str budget.category
      ++ codes " is at "
      ++ format_php budget.spent
      ++ codes " / "
      ++ format_php budget.limit
      ++ codes " ("
      ++ signed_decimal (unwrap_or (pos 0) (percent_rounded budget.spent budget.limit))
      ++ codes "%). "
      ++ format_php (max_ℤ (budget.limit -ℤ budget.spent) (pos 0))
      ++ codes " left this month."

  abbrev pub pace_message : BudgetStatus → PaceVerdict → Text
  pace_message budget pace =
      category_str budget.category
      ++ codes " is pacing toward "
      ++ format_php pace.projected
      ++ codes " this month, above the "
      ++ format_php budget.limit
      ++ codes " budget."

  abbrev pub count_one : Bool → ℕ
  count_one true = 1
  count_one false = 0

  abbrev pub budget_near : BudgetStatus → Bool
  budget_near budget =
      floats.ge (floats.div (floats.of_i64 budget.spent) (floats.of_i64 budget.limit))
        (budget_near_ratio floats)

  -- The body of the loop over the budgets: how many nudges and pace warnings it sends.
  unfoldable pub check_budget : BudgetStatus → Program (ℕ × ℕ)
  unfolding nudge
  check_budget budget w =
      let dom = pos (local_day_of_month calendar now manila_offset_minutes) in
      let dim = pos (days_in_local_month calendar now manila_offset_minutes) in
      let amounts = category_amounts_this_month calendar user_id budget.category now w.db in
      let pace = spending_pace floats budget.spent dom dim budget.limit (some amounts) in
      let name = category_str budget.category in
      let near : Program (ℕ × ℕ) =
        (nudge (codes "budget:" ++ name) (near_message budget) >>= λ sent.
        pure (count_one sent, 0)) in
      let pacing : Program (ℕ × ℕ) =
        (nudge (codes "pace:" ++ name) (pace_message budget pace) >>= λ sent.
        pure (0, count_one sent)) in
      if leb_ℤ budget.limit (pos 0)
      then pure (0, 0) w
      else if budget_near budget
      then near w
      else if should_warn_pace floats pace dom none none none
      then pacing w
      else pure (0, 0) w

  abbrev pub check_budgets : List BudgetStatus → Program (ℕ × ℕ)
  check_budgets [] = pure (0, 0)
  check_budgets (budget ∷ budgets) = do
    one ← check_budget budget
    rest ← check_budgets budgets
    pure (one.0 + rest.0, one.1 + rest.1)

  unfoldable pub run_budget_checks : Program (ℕ × ℕ)
  unfolding check_budget
  run_budget_checks = do
    budgets ← read (budget_statuses calendar user_id now)
    check_budgets budgets

  abbrev pub reminder_message : RecurringRow → Text
  reminder_message item =
      codes "Reminder: "
      ++ item.label
      ++ codes " "
      ++ format_php item.amount_centavos
      ++ codes " "
      ++ category_str item.category
      ++ codes "."

  -- The loop over the reminders that are due.
  abbrev pub remind_all : List RecurringRow → Program ℕ
  remind_all [] = pure 0
  remind_all (item ∷ items) = do
    claimed ← query (claim_reminder item.id user_id now)
    sent ← if claimed then send_isolated (reminder_message item) >> pure 1 else pure 0
    rest ← remind_all items
    pure (sent + rest)

  unfoldable pub run_recurring_reminders : Program ℕ
  unfolding send_isolated
  run_recurring_reminders = do
    items ← look (due_recurring_today calendar user_id now)
    remind_all items

  abbrev pub goal_input : GoalRow → GoalProgressInput
  goal_input goal = record {
    name = goal.name;
    saved_centavos = goal.saved_centavos;
    target_centavos = goal.target_centavos;
    created_at = goal.created_at;
    today = now;
    target_date = goal.target_date;
  }

  -- The loop over the goals.
  abbrev pub check_goals : List GoalRow → Program ℕ
  check_goals [] = pure 0
  check_goals (goal ∷ goals) = do
    let input = goal_input goal
    let msg = codes "Goal pace heads-up: " ++ goal_progress_message calendar floats input
    sent ←
        if not (is_some goal.target_date) || (goal_pace floats input).on_track
        then pure false
        else nudge (codes "goalpace:" ++ uuid_text goal.id) msg
    rest ← check_goals goals
    pure (count_one sent + rest)

  unfoldable pub run_goal_pace_checks : Program ℕ
  unfolding nudge
  run_goal_pace_checks = do goals ← look (list_goals user_id); check_goals goals
