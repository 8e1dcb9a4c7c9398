-- ===== src/Api/Assistant.antt =====
-- The agent as `InboundMessageService::handle` of crates/api/src/service.rs runs it: on the user's
-- rows, with the client that the settings ask for.
pub mod Book
use andy.Base.{Option, none, some, map, pos, Text, codes}
use andy.Domain.{Uuid}
use andy.Shared.Env.{Env}
use andy.Shared.Errors.{failure_reply}
use andy.Shared.Time.{local_date}
use andy.Ai.Context.{Libraries, AgentSnapshot}
use andy.Ai.Agent.{RunAgentInput, AgentError, AgentResult, ChatModel, run_agent}
use andy.Ai.Client.{OpenRouterClient, ClientResult, openrouter_from_env, Provider, chat_model}
use andy.Db.Tables.{Engine, Database, Result, ok, err, ◌>>=◌}
use andy.Db.Queries.{last_transaction, list_goals, recent_turns}
use andy.Db.Queries.Search.{MemoryRow, list_memories}
use andy.Db.Reminders.{list_recurring}
use andy.Db.Read.{pg_finance_read}
use andy.Api.Program.{ProgramError}
use andy.Api.Service.{Service, AgentAnswer}

pub record Assistant : Type 0 where
  pub env : Env
  -- the client of the state, which a serverless process does not have
  pub openrouter : Option OpenRouterClient
  pub provider : Provider
  pub lib : Libraries
  -- `instructions`, of the snapshot
  pub instructions : AgentSnapshot → Text

-- `to_string` of an `AgentError`
abbrev pub agent_error_text : AgentError → Text
agent_error_text (AgentError.open_router text) = text
agent_error_text AgentError.model_unavailable =
    codes "OPENROUTER_API_KEY is not configured; refusing to use a scripted backup answer"
agent_error_text AgentError.missing_final_reply = codes "model did not produce a final user reply"

-- What the handler makes of the agent's result.
abbrev pub agent_outcome : AgentResult → AgentAnswer
agent_outcome (AgentResult.replied out) = AgentAnswer.output out.reply out.writes
agent_outcome (AgentResult.failed e) = AgentAnswer.failure (failure_reply (agent_error_text e))

-- The reads for the prompt.
unfoldable pub snapshot_of : Uuid → Database → Result AgentSnapshot
snapshot_of user_id db = do
  memories ← list_memories user_id (pos 50) db
  turns ← recent_turns user_id (pos 12) db
  ok (record {
    last_transaction = last_transaction user_id db;
    goals = list_goals user_id db;
    recurring = list_recurring user_id db;
    memories = map (λ (m : MemoryRow). m.content) memories;
    recent_turns = turns;
  })

module _ (pg : Engine) (a : Assistant) where
  abbrev pub local_openrouter : ClientResult
  local_openrouter = elim a.openrouter [
    | some client ↦ ClientResult.ok (some client)
    | none ↦ openrouter_from_env a.env
  ]

  abbrev pub model_of : Option OpenRouterClient → Option ChatModel
  model_of none = none
  model_of (some client) = some (chat_model a.provider client)

  abbrev pub input_of :
      Text → Uuid → Database → AgentSnapshot → Option OpenRouterClient → RunAgentInput
  input_of text user_id db snapshot client = record {
    text = text;
    user_id = user_id;
    today = local_date db.now a.env.app_timezone_offset_minutes;
    model = model_of client;
    reader = some (pg_finance_read pg db);
    snapshot = snapshot;
    instructions = a.instructions snapshot;
  }

  abbrev pub with_client : Text → Uuid → Database → AgentSnapshot → ClientResult → AgentAnswer
  with_client text user_id db snapshot (ClientResult.err e) =
      AgentAnswer.broken ProgramError.misconfigured
  with_client text user_id db snapshot (ClientResult.ok client) =
      agent_outcome (run_agent a.lib (input_of text user_id db snapshot client))

  abbrev pub with_snapshot : Text → Uuid → Database → Result AgentSnapshot → AgentAnswer
  with_snapshot text user_id db (err e) = AgentAnswer.broken (ProgramError.database e)
  with_snapshot text user_id db (ok snapshot) =
      with_client text user_id db snapshot local_openrouter

  unfoldable pub agent_answer : Text → Uuid → Database → AgentAnswer
  unfolding snapshot_of
  agent_answer text user_id db = with_snapshot text user_id db (snapshot_of user_id db)

-- The service with this agent, and with the settings that the agent has.
abbrev pub with_assistant : Service → Assistant → Service
with_assistant service a = record service {
  run_agent = agent_answer service.engine a;
  allowed_phone = a.env.allowed_phone;
  confirm_amount_threshold_centavos = a.env.confirm_amount_threshold_centavos;
  offset_minutes = a.env.app_timezone_offset_minutes;
}
