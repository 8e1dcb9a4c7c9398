-- ===== src/Api/Cron.antt =====
-- crates/api/src/cron.rs: the weekly recap and the run of all daily checks.
pub mod Recap
pub mod Book
use andy.Base.{
  ℕ, Bool, true, false, not, List, [], ◌∷◌, ◌++◌, length, ℤ, pos, ◌+ℤ◌, Text, codes, decimal,
  if◌then◌else◌,
}
use andy.Domain.{Uuid, Instant, Category, category_str}
use andy.Domain.Rows.{MonthOverview}
use andy.Shared.Money.{format_php}
use andy.Shared.Time.{local_date, prev_month_anchor, manila_offset_minutes}
use andy.Db.Flush.{resolve_user_id}
use andy.Db.Queries.{get_month_overview, get_spending_by_category, list_goals}
use andy.Db.Nudges.{has_summary_for_week, record_summary}
use andy.Api.Program.{Program, pure, ◌>>=◌, ◌>>◌, query, try_query, look, read, or_else, must_send}
use andy.Api.Outbound.{send_message, deliver_due_outbound}
use andy.Api.Hygiene.{HygieneResult, run_daily_hygiene}
use andy.Api.Checks.{Cron, run_budget_checks, run_recurring_reminders, run_goal_pace_checks}

pub record DailyCheckResult : Type 0 where
  pub nudges : ℕ
  pub pace_warnings : ℕ
  pub reminders : ℕ
  pub goal_nudges : ℕ
  pub recap_sent : Bool
  pub reaped : ℕ
  pub reaped_nudges : ℕ
  pub reaped_summaries : ℕ
  pub degraded : Bool
  pub outbound_sent : ℕ
  pub outbound_failed : ℕ

abbrev pub daily_result : ℕ × ℕ → HygieneResult → ℕ × ℕ → ℕ → ℕ → Bool → DailyCheckResult
daily_result outbound hygiene budgets reminders goal_nudges recap_sent = record {
  nudges = budgets.0;
  pace_warnings = budgets.1;
  reminders = reminders;
  goal_nudges = goal_nudges;
  recap_sent = recap_sent;
  reaped = hygiene.reaped;
  reaped_nudges = hygiene.reaped_nudges;
  reaped_summaries = hygiene.reaped_summaries;
  degraded = hygiene.degraded;
  outbound_sent = outbound.0;
  outbound_failed = outbound.1;
}

abbrev pub not_cleaned : HygieneResult
not_cleaned = record { reaped = 0; reaped_nudges = 0; reaped_summaries = 0; degraded = true }

abbrev pub sum_of : List (Category × ℤ) → ℤ
sum_of [] = pos 0
sum_of (x ∷ xs) = x.1 +ℤ sum_of xs

abbrev pub top_line : List (Category × ℤ) → Text
top_line [] = codes "No category spending yet."
top_line (x ∷ xs) =
    codes "Top category: " ++ category_str x.0 ++ codes " at " ++ format_php x.1 ++ codes "."

abbrev pub recap : MonthOverview → List (Category × ℤ) → List (Category × ℤ) → ℕ → Text → Text
recap overview by_category prev_by_category active_goals today =
    codes "Weekly recap: income "
    ++ format_php overview.income
    ++ codes ", expenses "
    ++ format_php overview.expense
    ++ codes ", net "
    ++ format_php overview.net
    ++ codes ". "
    ++ top_line by_category
    ++ codes " Last month category total was "
    ++ format_php (sum_of prev_by_category)
    ++ codes ". Active goals: "
    ++ decimal active_goals
    ++ codes ". Today: "
    ++ today
    ++ codes "."

module _ (cron : Cron) where
  open cron use {engine, calendar, sendblue}

  module _ (user_id : Uuid) (phone : Text) (now : Instant) where
    -- The recap of the week that has just been marked. The provider's error is the result's.
    unfoldable pub send_recap : Program Bool
    send_recap = do
      overview ← read (get_month_overview calendar user_id now)
      by_category ← read (get_spending_by_category calendar user_id now)
      prev_by_category ← read (
          get_spending_by_category calendar user_id
            (prev_month_anchor calendar now manila_offset_minutes))
      goals ← look (list_goals user_id)
      let today = calendar.date_text (local_date now manila_offset_minutes)
      let msg = recap overview by_category prev_by_category (length goals) today
      answer ← send_message sendblue phone msg
      must_send answer
      pure true

    unfoldable pub run_weekly_summary : Program Bool
    unfolding send_recap
    run_weekly_summary = do
      done_before ← look (has_summary_for_week calendar now)
      recorded ← if done_before then pure false else query (record_summary calendar now)
      if not recorded then pure false else send_recap

  -- The steps, of which each survives the errors of the others.
  abbrev pub daily_steps : Uuid → Text → Instant → Program DailyCheckResult
  daily_steps user_id phone now = do
    outbound ← or_else (0, 0) (deliver_due_outbound sendblue engine now 10)
    hygiene ← or_else not_cleaned (run_daily_hygiene calendar user_id now)
    budgets ← or_else (0, 0) (run_budget_checks cron user_id phone now)
    reminders ← or_else 0 (run_recurring_reminders cron user_id phone now)
    goal_nudges ← or_else 0 (run_goal_pace_checks cron user_id phone now)
    recap_sent ← or_else false (run_weekly_summary user_id phone now)
    pure (daily_result outbound hygiene budgets reminders goal_nudges recap_sent)

  unfoldable pub run_daily_checks : Text → Instant → Program DailyCheckResult
  run_daily_checks phone now = do
    user_id ← try_query (resolve_user_id engine phone)
    daily_steps user_id phone now
