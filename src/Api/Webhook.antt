-- ===== src/Api/Webhook.antt =====
-- The routes of crates/api/src/routes.rs: what a request must show before its message is handled, or
-- the daily checks run. `Service` is what `InboundMessageService::new` makes of the environment, and
-- `connects` says whether the database can be reached.
pub mod Admission
use andy.Base.{
  ℕ, suc, Bool, true, false, not, Option, none, some, [], ◌++◌, length, leb, ltb, unwrap_or, pos,
  Text, codes, if◌then◌else◌,
}
use andy.Domain.{Instant}
use andy.Shared.Security.{constant_time_equal}
use andy.Db.Tables.{Database, Result, ok, err}
use andy.Db.RateLimit.{RateDecision, check_and_increment}
use andy.Api.Program.{World, Outcome}
use andy.Api.Service.{Service, handle}
use andy.Api.Inbound.{InboundMessage, InboundOutcome, parse_inbound}
use andy.Shared.Env.{Env}
use andy.Api.Credentials.{
  Codecs, max_body_bytes, declared_content_length_too_large, query_param, webhook_token_valid,
  signing_secret_valid,
}
use andy.Api.Checks.{Cron}
use andy.Api.Cron.{DailyCheckResult, run_daily_checks}

-- A header is `none` if it is missing or not a text, and `body` if it cannot be read.
pub record WebRequest : Type 0 where
  pub content_length : Option Text
  pub query : Option Text
  pub sb_signing_secret : Option Text
  pub body : Option Text

pub data StatusCode : Type 0 where
  success bad_request unauthorized payload_too_large too_many_requests : StatusCode
  internal_server_error service_unavailable : StatusCode

-- `to_bytes` with a limit.
abbrev pub to_bytes : Option Text → ℕ → Option Text
to_bytes none limit = none
to_bytes (some body) limit = if leb (length body) limit then some body else none

abbrev pub Answer : Type 0
Answer = StatusCode × World

module _ (codecs : Codecs) (service : Service) (connects : Bool) where
  unfoldable pub durable_rate_ok : Env → Option Text → Database → Result (RateDecision × Database)
  durable_rate_ok env token db =
      check_and_increment (codecs.sha256_hex (unwrap_or [] token)) db.now
        (unwrap_or (pos 60) env.inbound_rate_window_seconds)
        (unwrap_or (pos 60) env.inbound_rate_limit) db

  abbrev pub status_after : Outcome (Unit {0}) → Answer
  status_after (Outcome.done a w) = (StatusCode.success, w)
  status_after (Outcome.failed e w) = (StatusCode.internal_server_error, w)

  abbrev pub by_decision : RateDecision → InboundMessage → World → Answer
  by_decision RateDecision.allow msg w =
      status_after (handle service msg.phone msg.text msg.message_id w)
  by_decision RateDecision.limited msg w = (StatusCode.too_many_requests, w)

  abbrev pub after_rate : InboundMessage → World → Result (RateDecision × Database) → Answer
  after_rate msg w (err e) = (StatusCode.service_unavailable, w)
  after_rate msg w (ok r) = by_decision r.0 msg (record w { db = r.1 })

  -- A message that is counted, and handled if it is within the limit.
  unfoldable pub rate_limited : Env → Option Text → InboundMessage → World → Answer
  unfolding durable_rate_ok
  rate_limited env token msg w = after_rate msg w (durable_rate_ok env token w.db)

  unfoldable pub by_outcome : Env → Option Text → InboundOutcome → World → Answer
  unfolding rate_limited
  by_outcome env token (InboundOutcome.actionable msg) w =
      if connects then rate_limited env token msg w else (StatusCode.service_unavailable, w)
  by_outcome env token InboundOutcome.ignore w = (StatusCode.success, w)
  by_outcome env token InboundOutcome.malformed w = (StatusCode.bad_request, w)

  unfoldable pub by_body : Env → Option Text → Option Text → World → Answer
  unfolding by_outcome
  by_body env token none w = (StatusCode.bad_request, w)
  by_body env token (some raw) w =
      if ltb max_body_bytes (length raw)
      then (StatusCode.payload_too_large, w)
      else by_outcome env token (parse_inbound codecs.decode raw) w

  -- The request, once the environment is there.
  unfoldable pub with_env : Env → WebRequest → World → Answer
  unfolding by_body
  with_env env request w =
      let token = query_param codecs request.query (codes "t") in
      if not (webhook_token_valid codecs token env)
      then (StatusCode.unauthorized, w)
      else if not (signing_secret_valid request.sb_signing_secret env)
      then (StatusCode.unauthorized, w)
      else by_body env token (to_bytes request.body (suc max_body_bytes)) w

  unfoldable pub sendblue_webhook : Option Env → WebRequest → World → Answer
  unfolding with_env
  sendblue_webhook env request w =
      if declared_content_length_too_large request.content_length
      then (StatusCode.payload_too_large, w)
      else elim env [ none ↦ (StatusCode.internal_server_error, w) | some e ↦ with_env e request w ]

-- What `daily_cron` answers with a status of 200.
pub data CronAnswer : Type 0 where
  finished : DailyCheckResult → CronAnswer
  refused : StatusCode → CronAnswer

abbrev pub cron_answer : Outcome DailyCheckResult → CronAnswer × World
cron_answer (Outcome.done result w) = (CronAnswer.finished result, w)
cron_answer (Outcome.failed e w) = (CronAnswer.refused StatusCode.internal_server_error, w)

module _ (cron : Cron) (connects : Bool) (now : Instant) where
  unfoldable pub daily_cron : Option Env → Option Text → World → CronAnswer × World
  daily_cron none authorization w = (CronAnswer.refused StatusCode.internal_server_error, w)
  daily_cron (some env) authorization w =
      let result = cron_answer (run_daily_checks cron env.allowed_phone now w) in
      if not (constant_time_equal (unwrap_or [] authorization) (codes "Bearer " ++ env.cron_secret))
      then (CronAnswer.refused StatusCode.unauthorized, w)
      else if not connects
      then (CronAnswer.refused StatusCode.internal_server_error, w)
      else result
