-- ===== src/Api/Served.antt =====
-- The life of the server of crates/api/src/routes.rs: the requests of its webhook and of its cron route
-- one after the other, and the time between them.
use mathlib.Core.Path.{subst}
use andy.Base.{
  ◌≡◌, refl, sym, [], Bool, true, false, none, some, Option, inl, inr, Bool-cases, Text, ◌++◌,
  codes, unwrap_or, if◌then◌else◌,
}
use andy.Domain.{Uuid, Instant}
use andy.Shared.Env.{Env}
use andy.Ai.Client.{Provider}
use andy.Shared.Security.{constant_time_equal}
use andy.Db.Tables.{ok}
use andy.Db.Reconcile.{reconcile_goal_balances}
use andy.Db.Reconcile.Balanced.{reconcile_goal_balances-IsBook}
use andy.Api.Program.{World, Outcome, final}
use andy.Api.Credentials.{Codecs}
use andy.Api.Checks.{Cron}
use andy.Api.Cron.{DailyCheckResult, run_daily_checks}
use andy.Api.Cron.Book.{run_daily_checks-IsHouse}
use andy.Api.Service.{Service}
use andy.Api.Service.House.{IsHouse, IsHouse-same}
use andy.Api.Assistant.{Assistant, with_assistant}
use andy.Api.Assistant.Book.{sendblue_webhook-IsHouse}
use andy.Api.Webhook.{WebRequest, sendblue_webhook, daily_cron, cron_answer}

-- The settings of a process, if they load.
abbrev pub settings : Bool → Env → Option Env
settings loads env = if loads then some env else none

module _ (codecs : Codecs) (service : Service) (a : Assistant) (cron : Cron) where
  -- What happens to the server. What the model's provider answers, whether the settings load and
  -- whether the database connects is open each time.
  pub data Event : World → World → Type 0 where
    message :
        (provider : Provider) (loads connects : Bool) (request : WebRequest) (w : World)
        → Event w
            (sendblue_webhook codecs
              (with_assistant service (record a { provider = provider }))
              connects
              (settings loads a.env)
              request
              w).1
    daily :
        (loads connects : Bool) (now : Instant) (authorization : Option Text) (w : World)
        → Event w (daily_cron cron connects now (settings loads a.env) authorization w).1
    tick : (t : Instant) (w : World) → Event w (record w { db = record w.db { now = t } })

  -- Any number of events, one after the other.
  pub data Served : World → World → Type 0 where
    done : (w : World) → Served w w
    also : {w w' w'' : World} → Event w w' → Served w' w'' → Served w w''

  module _ (user : Uuid) where
    abbrev Kept : World → Type 0
    Kept w = IsHouse a.env.allowed_phone user w.db

    answered : (o : Outcome DailyCheckResult) → (cron_answer o).1 ≡ final o
    answered (Outcome.done result w) = refl
    answered (Outcome.failed e w) = refl

    daily_cron-IsHouse :
        (loads connects : Bool) (now : Instant) (authorization : Option Text) (w : World)
        → Kept w
        → Kept (daily_cron cron connects now (settings loads a.env) authorization w).1
    unfolding daily_cron
    daily_cron-IsHouse false connects now authorization w h = h
    daily_cron-IsHouse true connects now authorization w h =
        elim (Bool-cases (
          constant_time_equal (unwrap_or [] authorization)
            (codes "Bearer " ++ a.env.cron_secret))) [
              | inr e ↦ rw e h
              | inl e ↦ elim (Bool-cases connects) [
                | inr f ↦ rw (e, f) h
                | inl f ↦
                    rw (e, f)
                      (subst Kept (sym (answered (run_daily_checks cron a.env.allowed_phone now w)))
                        (run_daily_checks-IsHouse cron now a.env.allowed_phone user w h))
              ]
            ]

    Event-IsHouse : {w w' : World} → Event w w' → Kept w → Kept w'
    Event-IsHouse (message provider loads connects request w) h =
        sendblue_webhook-IsHouse codecs service (record a { provider = provider }) connects
          (settings loads a.env) request user w h
    Event-IsHouse (daily loads connects now authorization w) h =
        daily_cron-IsHouse loads connects now authorization w h
    Event-IsHouse (tick t w) h = IsHouse-same a.env.allowed_phone user w.db _ refl refl refl refl h

    Served-Kept : {w w' : World} → Served w w' → Kept w → Kept w'
    Served-Kept (done w) h = h
    Served-Kept (also e es) h = Served-Kept es (Event-IsHouse e h)

  -- Whatever requests come, whoever sends them, whatever the model and the provider answer, and wherever
  -- a request or a daily check fails: the user's ledger stays well formed, every goal's balance is the
  -- sum of its transactions, so that the nightly repair would change nothing, and the writes that wait
  -- for a "yes" are the user's. At the start the ledger is well formed, what waits is the user's, and
  -- the allowed number is the user's.
  pub Served-IsHouse :
      (user : Uuid) (w w' : World)
      → Served w w'
      → IsHouse a.env.allowed_phone user w.db
      → IsHouse a.env.allowed_phone user w'.db
        × (reconcile_goal_balances user w'.db ≡ ok (0, w'.db))
  Served-IsHouse user w w' s h =
      (let k = Served-Kept user s h in (k, reconcile_goal_balances-IsBook user w'.db k.book))
