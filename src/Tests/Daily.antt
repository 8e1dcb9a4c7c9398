-- ===== src/Tests/Daily.antt =====
-- The daily checks of crates/api/src/cron.rs and what they rest on, at concrete inputs.
use andy.Base.{
  ℕ, ◌≡◌, refl, ◌-◌, true, false, none, some, [], ◌∷◌, drop, length, ℤ, pos, ◌+ℤ◌, ◌-ℤ◌, ◌*ℤ◌, ◌/ℤ◌,
  div_euclid, rem_euclid, leb_ℤ, ltb_ℤ, max_ℤ, codes, decimal, arith,
}
use andy.Domain.{Category, TxKind, Cadence, MessageRole}
use andy.Shared.Floats.{Floats}
use andy.Shared.Goals.{GoalProgressInput, goal_pace, weeks_remaining}
use andy.Shared.Goals.Weekly.{Shares, goal_pace-per_week}
use andy.Shared.Time.{local_date, current_week_start}
use andy.Db.Tables.{Database, MessageRow, RecurringRow, ok, has_user}
use andy.Db.Nudges.{record_nudge}
use andy.Db.Nudges.Weekly.{SameWeek}
use andy.Db.Reminders.{
  recurring_from_row, list_recurring, due_recurring_today, claim_reminder, is_due, due_day,
}
use andy.Db.Reapers.{reap_messages}
use andy.Db.Reapers.Messages.{turns_of, turns_of_others, reap_messages-latest}
use andy.Db.Queries.{get_month_overview_between, get_spending_by_category_between}
use andy.Db.Queries.Totals.{sum_totals, sum-get_spending_by_category}
use andy.Api.Program.{World, Outcome, final}
use andy.Shared.Money.{format_php, group_thousands, group_from}
use andy.Api.Outbound.{send_message}
use andy.Api.Checks.{Cron, send_isolated, run_recurring_reminders}
use andy.Api.Checks.Again.{run_recurring_reminders-once}
use andy.Api.Cron.{run_weekly_summary}
use andy.Api.Cron.Recap.{run_weekly_summary-once}
use andy.Tests.Fixtures.{engine, start}
use andy.Tests.Libraries.{long_months}
use andy.Tests.Calendar.{long_months-IsCalendar}

-- Floats as thousandths.
abbrev thousandths : Floats
thousandths = record {
  Float = ℤ;
  of_i64 = λ a. a *ℤ pos 1000;
  add = λ a b. a +ℤ b;
  mul = λ a b. (a *ℤ b) /ℤ pos 1000;
  div = λ a b. (a *ℤ pos 1000) /ℤ b;
  ge = λ a b. leb_ℤ b a;
  gt = λ a b. ltb_ℤ b a;
  clamp = λ a. max_ℤ a (pos 0);
  round = λ a. a /ℤ pos 1000;
  tenth = pos 100;
}

abbrev pub cron : Cron
cron = record {
  engine = engine;
  calendar = long_months;
  floats = thousandths;
  sendblue = λ n phone content. none;
  uuid_text = decimal;
}

-- Rent, on Mondays.
abbrev rent : RecurringRow
rent = record {
  id = 70;
  user_id = 1;
  label = codes "rent";
  kind = TxKind.expense;
  amount_centavos = pos 5000;
  category = Category.bills;
  cadence = Cadence.weekly;
  day_of_month = none;
  day_of_week = some (pos 1);
  last_reminded_date = none;
}

abbrev turn : MessageRow
turn = record { user_id = 1; role = MessageRole.user; content = codes "hi" }

abbrev talked : Database
talked = record start {
  messages = turn ∷ record turn { user_id = 2 } ∷ turn ∷ turn ∷ [];
  recurring_items = rent ∷ [];
}

abbrev world : World
world = record { db = talked; sent = [] }

same_day : local_date (pos 2000) (pos 480) ≡ local_date (pos 1000) (pos 480)
unfolding local_date div_euclid ◌+ℤ◌ ◌*ℤ◌
same_day = refl

same_week : SameWeek long_months (pos 1000) (pos 2000)
unfolding local_date div_euclid rem_euclid ◌+ℤ◌ ◌*ℤ◌
same_week = (0, refl, omega arith)

run_recurring_reminders-once_example :
    run_recurring_reminders cron 1
      (codes "+63917")
      (pos 2000)
      (final (run_recurring_reminders cron 1 (codes "+63917") (pos 1000) world))
    ≡ Outcome.done 0 (final (run_recurring_reminders cron 1 (codes "+63917") (pos 1000) world))
run_recurring_reminders-once_example =
    run_recurring_reminders-once cron 1 (codes "+63917") (pos 1000) (pos 2000) same_day world

run_weekly_summary-once_example :
    run_weekly_summary cron 1
      (codes "+63917")
      (pos 2000)
      (final (run_weekly_summary cron 1 (codes "+63917") (pos 1000) world))
    ≡ Outcome.done false (final (run_weekly_summary cron 1 (codes "+63917") (pos 1000) world))
run_weekly_summary-once_example =
    run_weekly_summary-once cron 1 (codes "+63917") (pos 1000) (pos 2000) long_months-IsCalendar
      world same_week

monday_rent : is_due long_months (pos 1000) (recurring_from_row rent) ≡ true
unfolding is_due due_day current_week_start local_date div_euclid rem_euclid ◌+ℤ◌ ◌-ℤ◌ ◌*ℤ◌
monday_rent = refl

abbrev nudged : Database
nudged = record start {
  nudges =
      record {
        user_id = 1;
        kind = codes "budget:Food";
        week_start_local_date = current_week_start long_months (pos 1000) (pos 480);
      }
      ∷ [];
}

first_nudge : record_nudge long_months 1 (codes "budget:Food") (pos 1000) start ≡ ok (true, nudged)
unfolding record_nudge has_user
first_nudge = refl

reap_messages-latest_example :
    (r : ℕ × Database) × (reap_messages 1 (pos 2) talked ≡ ok r)
    × (turns_of 1 r.1.messages
        ≡ drop (length (turns_of 1 talked.messages) - 2) (turns_of 1 talked.messages))
    × (turns_of_others 1 r.1.messages ≡ turns_of_others 1 talked.messages)
reap_messages-latest_example = reap_messages-latest 1 2 talked (omega arith)

totals :
    get_spending_by_category_between 1 (pos 0) (pos 5) start
    ≡ ok ((Category.savings_goals, pos 500) ∷ [])
unfolding get_spending_by_category_between ◌+ℤ◌
totals = refl

month :
    get_month_overview_between 1 (pos 0) (pos 5) start
    ≡ ok (record { income = pos 0; expense = pos 500; net = pos 0 -ℤ pos 500 })
unfolding get_month_overview_between ◌+ℤ◌
month = refl

sum-get_spending_by_category_example : sum_totals ((Category.savings_goals, pos 500) ∷ []) ≡ pos 500
sum-get_spending_by_category_example =
    sum-get_spending_by_category 1 (pos 0) (pos 5) start ((Category.savings_goals, pos 500) ∷ [])
      (record { income = pos 0; expense = pos 500; net = pos 0 -ℤ pos 500 }) totals month

abbrev laptop_goal : GoalProgressInput
laptop_goal = record {
  name = codes "laptop";
  saved_centavos = pos 500;
  target_centavos = pos 100000;
  created_at = pos 0;
  today = pos 1000;
  target_date = some (pos 30);
}

goal_pace-per_week_example :
    Shares
      (pos 100000 -ℤ pos 500)
      (weeks_remaining (pos 30) (pos 1000))
      (goal_pace thousandths laptop_goal).per_week_centavos
goal_pace-per_week_example = goal_pace-per_week thousandths laptop_goal (pos 30) refl (omega arith)

-- The rent is asked for once.
reminded_once :
    (final (run_recurring_reminders cron 1 (codes "+63917") (pos 1000) world)).sent
    ≡ (codes "+63917", codes "Reminder: rent ₱50.00 Bills.") ∷ []
unfolding run_recurring_reminders send_isolated send_message due_recurring_today list_recurring
    claim_reminder is_due due_day current_week_start local_date div_euclid rem_euclid ◌+ℤ◌ ◌-ℤ◌ ◌*ℤ◌
    format_php group_thousands group_from decimal
reminded_once = refl
