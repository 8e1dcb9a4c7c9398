-- ===== src/Ai/Agent/Turns.antt =====
-- What a run of the agent (crates/ai/src/agent.rs) leaves to be written.
use andy.Base.{
  ◌≡◌, refl, ◌⊎◌, inl, inr, ℕ, zero, suc, true, false, Option, none, some, List, [], ◌∷◌, ◌++◌,
  Text, Bool-cases, Option-cases,
}
use andy.Domain.{WriteIntent}
use andy.Ai.Context.{Libraries}
use andy.Ai.Tools.{ToolCall, execute_finance_tool}
use andy.Ai.Agent.{
  ChatMessage, AssistantTurn, ModelAnswer, ChatModel, RunAgentInput, AgentResult, context_of,
  save_user_turn, save_assistant_turn, with_turn_writes, reply_with, run_calls, is_final,
  final_turn, rounds, run_tool_loop, run_agent, assistant_tool_calls,
}
use andy.Ai.Sound.Calls.{IsBuffer, execute_finance_tool-IsBuffer}

ModelAnswer-cases :
    (a : ModelAnswer)
    → ((reason : Text) × (a ≡ ModelAnswer.broken reason))
      ⊎ ((t : AssistantTurn) × (a ≡ ModelAnswer.turn t))
ModelAnswer-cases (ModelAnswer.broken reason) = inl (reason, refl)
ModelAnswer-cases (ModelAnswer.turn t) = inr (t, refl)

module _ (lib : Libraries) (input : RunAgentInput) where
  -- The output is the buffered writes, which are good, and the two turns of the conversation.
  abbrev pub Closes : AgentResult → Type 0
  Closes (AgentResult.failed e) = Unit
  Closes (AgentResult.replied out) =
      (buffered : List WriteIntent) × (out.writes
        ≡ buffered
          ++ save_user_turn input.user_id input.text
            ∷ save_assistant_turn input.user_id out.reply
            ∷ [])
      × IsBuffer lib (context_of input) buffered

  run_calls-IsBuffer :
      (calls : List ToolCall) (messages : List ChatMessage) (ws : List WriteIntent)
      → IsBuffer lib (context_of input) ws
      → IsBuffer lib (context_of input) (run_calls lib input calls messages ws).1
  unfolding run_calls
  run_calls-IsBuffer [] messages ws h = h
  run_calls-IsBuffer (call ∷ calls) messages ws h =
      run_calls-IsBuffer calls _ (execute_finance_tool lib (context_of input) call ws).1
        (execute_finance_tool-IsBuffer lib (context_of input) ws call h)

  reply_with-Closes :
      (ws : List WriteIntent) (content : Option Text)
      → IsBuffer lib (context_of input) ws
      → Closes (reply_with input ws content)
  unfolding with_turn_writes
  reply_with-Closes ws none h = tt
  reply_with-Closes ws (some reply) h = (ws, refl, h)

  module _ (model : ChatModel) where
    final_turn-Closes :
        (ws : List WriteIntent) (a : ModelAnswer)
        → IsBuffer lib (context_of input) ws
        → Closes (final_turn lib input model ws a)
    final_turn-Closes ws (ModelAnswer.broken reason) h = tt
    final_turn-Closes ws (ModelAnswer.turn t) h = reply_with-Closes ws t.content h

    rounds-Closes :
        (left : ℕ) (messages : List ChatMessage) (ws : List WriteIntent)
        → IsBuffer lib (context_of input) ws
        → Closes (rounds lib input model left messages ws)
    unfolding rounds
    rounds-Closes zero messages ws h = final_turn-Closes ws (model messages false) h
    rounds-Closes (suc left) messages ws h = elim (ModelAnswer-cases (model messages true)) [
      | inl (reason, e) ↦ rw (e, rounds) tt
      | inr (t, e) ↦ elim (Bool-cases (is_final lib input model t.tool_calls)) [
        | inl f ↦ rw (e, rounds) (rw f (reply_with-Closes ws t.content h))
        | inr f ↦
            rw (e, rounds)
              (rw f (
                rounds-Closes left _ _ (
                  run_calls-IsBuffer t.tool_calls
                    (messages ++ assistant_tool_calls t.tool_calls ∷ []) ws h)))
      ]
    ]

  pub run_agent-Closes : Closes (run_agent lib input)
  unfolding run_agent run_tool_loop
  run_agent-Closes = elim (Option-cases input.model) [
    | inl e ↦ rw (e, run_agent) tt
    | inr (model, e) ↦
        rw (e, run_agent) (rounds-Closes model 4 _ [] (record { sound = tt; aimed = tt }))
  ]
