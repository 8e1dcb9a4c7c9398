-- ===== src/Ai/Agent.antt =====
-- crates/ai/src/agent.rs: the loop that lets the model call tools. The model behind
-- `OpenRouterClient::chat_turn` is a parameter: the conversation so far, and whether tools are
-- offered, determine its turn or its error.
pub mod Turns
pub mod Aims
use andy.Base.{
  ℕ, zero, suc, Bool, true, false, Option, none, some, List, [], ◌∷◌, ◌++◌, Text, codes,
  if◌then◌else◌,
}
use andy.Domain.{Uuid, NaiveDate, MessageRole, WriteIntent}
use andy.Domain.Rows.{FinanceRead}
use andy.Ai.Context.{Libraries, AgentSnapshot, FinanceToolContext}
use andy.Ai.Tools.{ToolCall, execute_finance_tool}

pub record ChatMessage : Type 0 where
  pub role : Text
  pub content : Text
  pub tool_call_id : Option Text
  pub tool_calls : List ToolCall

abbrev pub text_message : Text → Text → ChatMessage
text_message role content = record {
  role = role;
  content = content;
  tool_call_id = none;
  tool_calls = [];
}

abbrev pub assistant_tool_calls : List ToolCall → ChatMessage
assistant_tool_calls calls = record {
  role = codes "assistant";
  content = [];
  tool_call_id = none;
  tool_calls = calls;
}

abbrev pub tool_result : Text → Text → ChatMessage
tool_result id content = record {
  role = codes "tool";
  content = content;
  tool_call_id = some id;
  tool_calls = [];
}

pub record AssistantTurn : Type 0 where
  pub content : Option Text
  pub tool_calls : List ToolCall

-- `open_router` stands for `OpenRouterError`, with its text.
pub data AgentError : Type 0 where
  open_router : Text → AgentError
  model_unavailable missing_final_reply : AgentError

pub data ModelAnswer : Type 0 where
  turn : AssistantTurn → ModelAnswer
  broken : Text → ModelAnswer

abbrev pub ChatModel : Type 0
ChatModel = List ChatMessage → Bool → ModelAnswer

pub record RunAgentInput : Type 0 where
  pub text : Text
  pub user_id : Uuid
  pub today : NaiveDate
  pub model : Option ChatModel
  pub reader : Option FinanceRead
  pub snapshot : AgentSnapshot
  -- What `instructions` makes of the input.
  pub instructions : Text

pub record RunAgentOutput : Type 0 where
  pub reply : Text
  pub writes : List WriteIntent

pub data AgentResult : Type 0 where
  replied : RunAgentOutput → AgentResult
  failed : AgentError → AgentResult

abbrev pub context_of : RunAgentInput → FinanceToolContext
context_of input = record {
  user_id = input.user_id;
  today = input.today;
  snapshot = input.snapshot;
  reader = input.reader;
}

-- `save_user_turn` and `save_assistant_turn`
abbrev pub save_user_turn : Uuid → Text → WriteIntent
save_user_turn user_id text = WriteIntent.save_turn user_id MessageRole.user text

abbrev pub save_assistant_turn : Uuid → Text → WriteIntent
save_assistant_turn user_id content = WriteIntent.save_turn user_id MessageRole.assistant content

unfoldable pub with_turn_writes : RunAgentInput → Text → List WriteIntent → RunAgentOutput
with_turn_writes input reply writes = record {
  reply = reply;
  writes =
      writes
      ++ save_user_turn input.user_id input.text ∷ save_assistant_turn input.user_id reply ∷ [];
}

abbrev pub reply_with : RunAgentInput → List WriteIntent → Option Text → AgentResult
reply_with input writes none = AgentResult.failed AgentError.missing_final_reply
reply_with input writes (some reply) = AgentResult.replied (with_turn_writes input reply writes)

module _ (lib : Libraries) (input : RunAgentInput) where
  -- The calls of one turn, in order, each answered by a message.
  unfoldable pub run_calls :
      List ToolCall → List ChatMessage → List WriteIntent → List ChatMessage × List WriteIntent
  run_calls [] messages writes = (messages, writes)
  run_calls (call ∷ calls) messages writes =
      let step = execute_finance_tool lib (context_of input) call writes in
      run_calls calls (messages ++ tool_result call.id step.0 ∷ []) step.1

  module _ (model : ChatModel) where
    -- The last turn, for which no tools are offered.
    abbrev pub final_turn : List WriteIntent → ModelAnswer → AgentResult
    final_turn writes (ModelAnswer.broken reason) =
        AgentResult.failed (AgentError.open_router reason)
    final_turn writes (ModelAnswer.turn t) = reply_with input writes t.content

    -- A turn with no calls is the last one.
    abbrev pub is_final : List ToolCall → Bool
    is_final [] = true
    is_final (call ∷ calls) = false

    -- The rounds that are left. With none left the model has to reply.
    unfoldable pub rounds : ℕ → List ChatMessage → List WriteIntent → AgentResult
    rounds zero messages writes = final_turn writes (model messages false)
    rounds (suc left) messages writes = elim (model messages true) [
      | ModelAnswer.broken reason ↦ AgentResult.failed (AgentError.open_router reason)
      | ModelAnswer.turn t ↦
          let step =
            run_calls t.tool_calls (messages ++ assistant_tool_calls t.tool_calls ∷ []) writes in
          let rest = rounds left step.0 step.1 in
          if is_final t.tool_calls then reply_with input writes t.content else rest
    ]

    unfoldable pub run_tool_loop : AgentResult
    unfolding rounds
    run_tool_loop =
        rounds 4
          (text_message (codes "system") input.instructions
            ∷ text_message (codes "user") input.text
            ∷ [])
          []

  unfoldable pub run_agent : AgentResult
  unfolding run_tool_loop
  run_agent = elim input.model [
    | none ↦ AgentResult.failed AgentError.model_unavailable
    | some model ↦ run_tool_loop model
  ]
