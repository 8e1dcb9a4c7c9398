-- ===== src/Ai/Agent/Aims.antt =====
-- The agent's buffer (crates/ai/src/agent.rs) against the flush (crates/db/src/writes.rs).
use andy.Base.{
  ◌≡◌, refl, sym, ◌∙◌, ap, true, Option, none, List, [], ◌∷◌, ◌++◌, is_some, Text, All, All-insert,
}
use mathlib.Core.Path.{subst}
use mathlib.Core.List.{append_assoc}
use andy.Domain.{WriteIntent}
use andy.Db.Tables.{Engine, Database, Ensures, Ensures-map}
use andy.Db.Transactions.{FlushState}
use andy.Db.Flush.{apply_write_intent, flush_writes}
use andy.Db.Flush.Book.{intent_user, AllFor}
use andy.Db.Flush.Balances.{flush_writes-IsBook}
use andy.Db.Ledger.GoalRows.{IsBook}
use andy.Ai.Context.{Libraries}
use andy.Ai.Targets.{found_in, last_buffered_transaction}
use andy.Ai.Targets.Flushed.{after, last_buffered-append, apply_write_intent-Leaves}
use andy.Ai.Agent.{
  RunAgentInput, RunAgentOutput, AgentResult, context_of, save_user_turn, save_assistant_turn,
  run_agent,
}
use andy.Ai.Sound.{IsSound, aims_back, unaimed}
use andy.Ai.Sound.Calls.{AimedFrom, AimedFrom-insert, IsBuffer}
use andy.Ai.Agent.Turns.{Closes, run_agent-Closes}

-- An intent that aims at the same turn meets a transaction that the flush has inserted.
abbrev pub Meets : Engine → List WriteIntent → FlushState → Database → Type 0
Meets pg [] s db = Unit
Meets pg (w ∷ ws) s db =
    (aims_back w ≡ true → is_some s.last_inserted_tx_id ≡ true)
    × Ensures (λ a. Meets pg ws a.state a.db) (apply_write_intent pg w s db)

AimedFrom-Meets :
    (pg : Engine) (before ws : List WriteIntent) (s : FlushState) (db : Database)
    → AimedFrom before ws
    → is_some (last_buffered_transaction before) ≡ is_some s.last_inserted_tx_id
    → Meets pg ws s db
AimedFrom-Meets pg before [] s db h e = tt
AimedFrom-Meets pg before (w ∷ ws) s db h e = (
  λ aims. sym e ∙ (h.0 aims).0,
  Ensures-map
      (λ a.
        is_some a.state.last_inserted_tx_id ≡ after (found_in w) (is_some s.last_inserted_tx_id))
      _ (apply_write_intent pg w s db)
      (λ a k.
        AimedFrom-Meets pg (before ++ w ∷ []) ws a.state a.db h.1
          (last_buffered-append before w ∙ ap (after (found_in w)) e ∙ sym k))
      (apply_write_intent-Leaves s db pg w),
)

module _ (lib : Libraries) (input : RunAgentInput) where
  -- Sound writes are the user's.
  intent_user-IsSound :
      (w : WriteIntent) → IsSound lib (context_of input) w → intent_user w ≡ input.user_id
  intent_user-IsSound (WriteIntent.transaction kind u cents category memo date account) h = h.0
  intent_user-IsSound (WriteIntent.goal_contribution u goal cents date) h = h.0
  intent_user-IsSound (WriteIntent.delete_last u target same) h = h.0
  intent_user-IsSound (WriteIntent.edit_last u target same cents category memo) h = h.0
  intent_user-IsSound (WriteIntent.create_goal u name target date) h = h.0
  intent_user-IsSound (WriteIntent.set_budget u category limit) h = h.0
  intent_user-IsSound (WriteIntent.remove_budget u category) h = h
  intent_user-IsSound (WriteIntent.edit_goal u goal name target date) h = h.0
  intent_user-IsSound (WriteIntent.delete_goal u goal) h = h.0
  intent_user-IsSound (WriteIntent.save_memory u content kind) h = h.0
  intent_user-IsSound (WriteIntent.forget_memory u query) h = h.0
  intent_user-IsSound (WriteIntent.save_turn u role content) h = h
  intent_user-IsSound (WriteIntent.outbound_reply u phone content key) h = absurd h
  intent_user-IsSound (WriteIntent.add_recurring u r) h = h.0
  intent_user-IsSound (WriteIntent.remove_recurring u query) h = h.0
  intent_user-IsSound (WriteIntent.edit_recurring u query cents category every dom dow) h = h.0
  intent_user-IsSound (WriteIntent.transfer u cents from to memo date) h = h.0
  intent_user-IsSound (WriteIntent.consume_confirmation u id) h = absurd h

  AllFor-IsSound :
      (ws : List WriteIntent) → All (IsSound lib (context_of input)) ws → AllFor input.user_id ws
  AllFor-IsSound [] h = tt
  AllFor-IsSound (w ∷ ws) h = (intent_user-IsSound w h.0, AllFor-IsSound ws h.1)

  -- The two turns are good writes too.
  with_turns-IsBuffer :
      (ws : List WriteIntent) (reply : Text)
      → IsBuffer lib (context_of input) ws
      → IsBuffer lib (context_of input) (
          ws
          ++ save_user_turn input.user_id input.text ∷ save_assistant_turn input.user_id reply ∷ [])
  with_turns-IsBuffer ws reply b =
      (let user = save_user_turn input.user_id input.text in
        let assistant = save_assistant_turn input.user_id reply in
        subst (IsBuffer lib (context_of input)) (append_assoc ws (user ∷ []) (assistant ∷ []))
          (record {
            sound =
                All-insert _ (ws ++ user ∷ []) assistant (All-insert _ ws user b.sound refl) refl;
            aimed =
                AimedFrom-insert [] (ws ++ user ∷ []) assistant
                  (AimedFrom-insert [] ws user b.aimed unaimed) unaimed;
          }))

  closed :
      (r : AgentResult) (out : RunAgentOutput)
      → r ≡ AgentResult.replied out
      → Closes lib input r
      → IsBuffer lib (context_of input) out.writes
  closed r out e c =
      (let (buffered, same, b) = subst (Closes lib input) e c in
        subst (IsBuffer lib (context_of input)) (sym same)
          (with_turns-IsBuffer buffered out.reply b))

  -- The writes of a run are the user's.
  pub run_agent-AllFor :
      (out : RunAgentOutput)
      → run_agent lib input ≡ AgentResult.replied out
      → AllFor input.user_id out.writes
  run_agent-AllFor out e =
      AllFor-IsSound out.writes
        (closed (run_agent lib input) out e (run_agent-Closes lib input)).sound

  module _ (pg : Engine) (out : RunAgentOutput)
      (e : run_agent lib input ≡ AgentResult.replied out) where
    -- Whatever the model does, each edit or deletion of what was logged in the same turn that a run
    -- leaves to be written meets, when the flush comes to it, a transaction that the flush has
    -- inserted: it never falls through. The run gave a reply.
    pub run_agent-Meets :
        (message_id : Option Text) (db : Database)
        → Meets pg out.writes
            (record { last_inserted_tx_id = none; source_message_id = message_id })
            db
    unfolding last_buffered_transaction
    run_agent-Meets message_id db =
        AimedFrom-Meets pg [] out.writes _ db
          (closed (run_agent lib input) out e (run_agent-Closes lib input)).aimed refl

    -- Whatever the model does, the flush of the writes that a run leaves keeps the user's ledger
    -- well formed. The run gave a reply.
    pub run_agent-IsBook :
        (message_id : Option Text) (db : Database)
        → IsBook input.user_id db
        → Ensures (λ r. IsBook input.user_id r.1) (flush_writes pg message_id out.writes db)
    run_agent-IsBook message_id db b =
        flush_writes-IsBook pg input.user_id message_id out.writes db (run_agent-AllFor out e) b
