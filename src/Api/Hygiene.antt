-- ===== src/Api/Hygiene.antt =====
-- The daily clean-up of crates/api/src/cron.rs.
pub mod Book
use andy.Base.{ℕ, Bool, true, false, not, ◌&&◌, pos}
use andy.Domain.{Uuid, Instant}
use andy.Shared.Time.{Calendar}
use andy.Db.Confirmations.{reap_pending_confirmations}
use andy.Db.RateLimit.{reap_inbound_rate_limits}
use andy.Db.Reconcile.{reconcile_goal_balances}
use andy.Db.Nudges.{reap_nudges, reap_summary_runs}
use andy.Db.Reapers.{reap_processed_messages, reap_messages}
use andy.Api.Program.{Program, pure, ◌>>=◌, query, try_query, or_else}

pub record HygieneResult : Type 0 where
  pub reaped : ℕ
  pub reaped_nudges : ℕ
  pub reaped_summaries : ℕ
  pub degraded : Bool

-- A count with whether its statement went through.
unfoldable pub count_or_zero : Program ℕ → Program (ℕ × Bool)
count_or_zero m = or_else (0, false) (m >>= λ count. pure (count, true))

-- The counts that are told, and whether a statement failed.
abbrev pub hygiene_result :
    (reaped messages fixed nudges summaries confirmations rate_limits : ℕ × Bool) → HygieneResult
hygiene_result reaped messages fixed nudges summaries confirmations rate_limits = record {
  reaped = reaped.0;
  reaped_nudges = nudges.0;
  reaped_summaries = summaries.0;
  degraded = not (
      reaped.1
      && (messages.1
          && (fixed.1 && (nudges.1 && (summaries.1 && (confirmations.1 && rate_limits.1))))));
}

module _ (calendar : Calendar) (user_id : Uuid) (now : Instant) where
  unfoldable pub run_daily_hygiene : Program HygieneResult
  unfolding count_or_zero
  run_daily_hygiene = do
    reaped ← count_or_zero (query (reap_processed_messages now (pos 3) (pos 24)))
    reaped_messages ← count_or_zero (try_query (reap_messages user_id (pos 200)))
    fixed ← count_or_zero (try_query (reconcile_goal_balances user_id))
    reaped_nudges ← count_or_zero (query (reap_nudges calendar now (pos 8)))
    reaped_summaries ← count_or_zero (query (reap_summary_runs calendar now (pos 12)))
    reaped_confirmations ← count_or_zero (query (reap_pending_confirmations now))
    reaped_rate_limits ← count_or_zero (query (reap_inbound_rate_limits now (pos 86400000000)))
    pure (
        hygiene_result reaped reaped_messages fixed reaped_nudges reaped_summaries
          reaped_confirmations reaped_rate_limits)
