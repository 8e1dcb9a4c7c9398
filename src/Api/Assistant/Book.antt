-- ===== src/Api/Assistant/Book.antt =====
-- Whole requests of crates/api/src/routes.rs with the agent of crates/ai, against the ledger.
use mathlib.Core.Path.{subst}
use andy.Base.{
  ◌≡◌, refl, sym, inl, inr, Bool, Option, none, some, Text, Bool-cases, ℤ, pos, abs_ℕ, max_ℤ, codes,
  suc, length, ltb,
}
use andy.Domain.{Uuid, Instant}
use andy.Ai.Agent.{RunAgentInput, AgentResult, run_agent}
use andy.Ai.Agent.Aims.{run_agent-AllFor}
use andy.Ai.Context.{Libraries, AgentSnapshot}
use andy.Ai.Client.{ClientResult}
use andy.Db.Tables.{Engine, Database, Result, ok, err, Ensures, Ensures-bind, Ensures-any}
use andy.Db.RateLimit.{RateDecision, check_and_increment, count_request, window_start}
use andy.Api.Program.{World, Outcome, final}
use andy.Api.Service.{Service, handle}
use andy.Api.Service.House.{IsHouse, IsHouse-same}
use andy.Api.Service.Book.{Answers, handle-IsHouse}
use andy.Api.Inbound.{InboundMessage, InboundOutcome, parse_inbound}
use andy.Shared.Env.{Env}
use andy.Api.Credentials.{
  Codecs, max_body_bytes, declared_content_length_too_large, query_param, webhook_token_valid,
  signing_secret_valid,
}
use andy.Api.Webhook.{
  StatusCode, Answer, WebRequest, to_bytes, durable_rate_ok, after_rate, status_after, by_decision,
  rate_limited, by_outcome, by_body, with_env, sendblue_webhook,
}
use andy.Api.Assistant.{
  Assistant, agent_outcome, snapshot_of, input_of, with_client, with_snapshot, agent_answer,
  with_assistant, local_openrouter,
}

outcome-Answers :
    (lib : Libraries) (input : RunAgentInput) (r : AgentResult)
    → run_agent lib input ≡ r
    → Answers input.user_id (agent_outcome r)
outcome-Answers lib input (AgentResult.failed e) q = tt
outcome-Answers lib input (AgentResult.replied out) q = run_agent-AllFor lib input out q

module _ (pg : Engine) (a : Assistant) where
  client-Answers :
      (text : Text) (user : Uuid) (db : Database) (snapshot : AgentSnapshot) (c : ClientResult)
      → Answers user (with_client pg a text user db snapshot c)
  client-Answers text user db snapshot (ClientResult.err e) = tt
  client-Answers text user db snapshot (ClientResult.ok client) =
      outcome-Answers a.lib (input_of pg a text user db snapshot client) _ refl

  snapshot-Answers :
      (text : Text) (user : Uuid) (db : Database) (r : Result AgentSnapshot)
      → Answers user (with_snapshot pg a text user db r)
  snapshot-Answers text user db (err e) = tt
  snapshot-Answers text user db (ok snapshot) =
      client-Answers text user db snapshot (local_openrouter pg a)

  -- Whatever the model does, the agent answers writes for the user.
  agent_answer-Answers :
      (text : Text) (user : Uuid) (db : Database) → Answers user (agent_answer pg a text user db)
  unfolding agent_answer
  agent_answer-Answers text user db = snapshot-Answers text user db (snapshot_of user db)

-- A request is counted in a table of its own.
counted :
    (key : Text) (at : Instant) (window limit : ℤ) (db : Database)
    → Ensures
        (λ r. r.1 ≡ record db { inbound_rate_limits = r.1.inbound_rate_limits })
        (check_and_increment key at window limit db)
unfolding check_and_increment
counted key at window limit db =
    Ensures-bind (λ _. Unit {0}) _
      (count_request key (window_start at (abs_ℕ (max_ℤ window (pos 1)))) db.inbound_rate_limits) _
      (Ensures-any _) λ r _. refl

module _ (codecs : Codecs) (service : Service) (connects : Bool) (user : Uuid)
    (agent : (text : Text) (db : Database) → Answers user (service.run_agent text user db)) where
  status-final : (o : Outcome (Unit {0})) → (status_after codecs service connects o).1 ≡ final o
  status-final (Outcome.done x w) = refl
  status-final (Outcome.failed e w) = refl

  decided :
      (d : RateDecision) (msg : InboundMessage) (w : World)
      → IsHouse service.allowed_phone user w.db
      → IsHouse service.allowed_phone user (by_decision codecs service connects d msg w).1.db
  decided RateDecision.limited msg w h = h
  decided RateDecision.allow msg w h =
      subst (λ (w : World). IsHouse service.allowed_phone user w.db)
        (sym (status-final (handle service msg.phone msg.text msg.message_id w)))
        (handle-IsHouse service user msg.phone msg.text msg.message_id w (agent msg.text) h)

  recount :
      (w : World) (r : RateDecision × Database)
      → r.1 ≡ record w.db { inbound_rate_limits = r.1.inbound_rate_limits }
      → IsHouse service.allowed_phone user w.db
      → IsHouse service.allowed_phone user r.1
  recount w r e h =
      subst (IsHouse service.allowed_phone user) (sym e)
        (IsHouse-same service.allowed_phone user w.db _ refl refl refl refl h)

  by_rate :
      (msg : InboundMessage) (w : World) (r : Result (RateDecision × Database))
      → Ensures (λ x. x.1 ≡ record w.db { inbound_rate_limits = x.1.inbound_rate_limits }) r
      → IsHouse service.allowed_phone user w.db
      → IsHouse service.allowed_phone user (after_rate codecs service connects msg w r).1.db
  by_rate msg w (err e) c h = h
  by_rate msg w (ok r) c h = decided r.0 msg (record w { db = r.1 }) (recount w r c h)

  by_message :
      (env : Env) (token : Option Text) (o : InboundOutcome) (w : World)
      → IsHouse service.allowed_phone user w.db
      → IsHouse service.allowed_phone user (by_outcome codecs service connects env token o w).1.db
  unfolding by_outcome rate_limited durable_rate_ok
  by_message env token InboundOutcome.ignore w h = h
  by_message env token InboundOutcome.malformed w h = h
  by_message env token (InboundOutcome.actionable msg) w h = elim (Bool-cases connects) [
    | inr e ↦ rw e h
    | inl e ↦ rw e (by_rate msg w _ (counted _ w.db.now _ _ w.db) h)
  ]

  by_raw :
      (env : Env) (token raw : Option Text) (w : World)
      → IsHouse service.allowed_phone user w.db
      → IsHouse service.allowed_phone user (by_body codecs service connects env token raw w).1.db
  unfolding by_body
  by_raw env token none w h = h
  by_raw env token (some raw) w h = elim (Bool-cases (ltb max_body_bytes (length raw))) [
    | inl e ↦ rw e h
    | inr e ↦ rw e (by_message env token (parse_inbound codecs.decode raw) w h)
  ]

  by_env :
      (env : Env) (request : WebRequest) (w : World)
      → IsHouse service.allowed_phone user w.db
      → IsHouse service.allowed_phone user (with_env codecs service connects env request w).1.db
  unfolding with_env
  by_env env request w h =
      (let token = query_param codecs request.query (codes "t") in
        elim (Bool-cases (webhook_token_valid codecs token env)) [
          | inr e ↦ rw e h
          | inl e ↦ elim (Bool-cases (signing_secret_valid request.sb_signing_secret env)) [
            | inr f ↦ rw (e, f) h
            | inl f ↦ rw (e, f) (by_raw env token (to_bytes request.body (suc max_body_bytes)) w h)
          ]
        ])

  by_settings :
      (env : Option Env) (request : WebRequest) (w : World)
      → IsHouse service.allowed_phone user w.db
      → IsHouse service.allowed_phone user
          (elim env as (λ x. Answer) [
            | none ↦ (StatusCode.internal_server_error, w)
            | some e ↦ with_env codecs service connects e request w
          ]).1.db
  by_settings none request w h = h
  by_settings (some env) request w h = by_env env request w h

  request-IsHouse :
      (env : Option Env) (request : WebRequest) (w : World)
      → IsHouse service.allowed_phone user w.db
      → IsHouse service.allowed_phone user
          (sendblue_webhook codecs service connects env request w).1.db
  unfolding sendblue_webhook
  request-IsHouse env request w h =
      elim (Bool-cases (declared_content_length_too_large request.content_length)) [
        | inl e ↦ rw e h
        | inr e ↦ rw e (by_settings env request w h)
      ]

-- Whatever the request is, whatever the model and the provider answer and wherever it fails, the
-- webhook leaves the user's ledger well formed and the writes that wait for a "yes" the user's. At
-- the start both hold, and the allowed number is the user's.
pub sendblue_webhook-IsHouse :
    (codecs : Codecs) (service : Service) (a : Assistant) (connects : Bool) (env : Option Env)
    (request : WebRequest) (user : Uuid) (w : World)
    → IsHouse a.env.allowed_phone user w.db
    → IsHouse a.env.allowed_phone user
        (sendblue_webhook codecs (with_assistant service a) connects env request w).1.db
sendblue_webhook-IsHouse codecs service a connects env request user w =
    request-IsHouse codecs (with_assistant service a) connects user
      (λ text db. agent_answer-Answers service.engine a text user db) env request w
