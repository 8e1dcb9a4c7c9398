-- ===== src/Ai/Sound/Calls.antt =====
-- Every call of a tool, and every turn of calls, adds sound writes (crates/ai/src/finance_tools.rs
-- and agent.rs).
use andy.Base.{
  ◌≡◌, refl, sym, ◌⊎◌, inl, inr, true, Option, none, some, List, [], ◌∷◌, ◌++◌, All, All-insert,
  Text,
}
use mathlib.Core.Path.{subst}
use mathlib.Core.List.{append-nil, append_assoc}
use andy.Domain.{WriteIntent}
use andy.Ai.Checked.{Checked, fine, refused, ◌>>=◌, Fine, holds, moot, Fine-any, Fine-bind}
use andy.Ai.Context.{Libraries, FinanceToolContext}
use andy.Ai.Catalogue.{WriteTool, Tool, from_name, is_read}
use andy.Ai.Writes.{Step}
use andy.Ai.Tools.{
  ToolCall, invalid, run_write_tool, or_failure, execute_tool, execute_finance_tool,
}
use andy.Ai.Sound.{IsSound, IsAimed, AddsOne}
use andy.Ai.Sound.Entries.{
  log_expense-AddsOne, log_income-AddsOne, log_transfer-AddsOne, edit_last-AddsOne,
  delete_last-AddsOne, set_budget-AddsOne, remove_budget-AddsOne, remember-AddsOne,
  forget_memory-AddsOne,
}
use andy.Ai.Sound.Goals.{
  create_goal-AddsOne, contribute_to_goal-AddsOne, edit_goal-AddsOne, delete_goal-AddsOne,
}
use andy.Ai.Sound.Reminders.{
  add_recurring-AddsOne, edit_recurring-AddsOne, remove_recurring-AddsOne,
}

module _ (lib : Libraries) (ctx : FinanceToolContext) (ws : List WriteIntent) where
  parsed {ℓ} :
      {Args : Type ℓ} (decoded : Checked Args) (run : Args → Checked Step)
      → ((args : Args) → Fine (AddsOne lib ctx ws) (run args))
      → Fine (AddsOne lib ctx ws) (invalid decoded >>= run)
  parsed decoded run h =
      Fine-bind (λ args. Unit {0}) (AddsOne lib ctx ws) (invalid decoded) run (Fine-any _)
        λ args u. h args

  run_write_tool-AddsOne :
      (tool : WriteTool) (raw : Text)
      → Fine (AddsOne lib ctx ws) (run_write_tool lib ctx tool raw ws)
  unfolding run_write_tool
  run_write_tool-AddsOne WriteTool.log_expense raw = parsed _ _ (log_expense-AddsOne lib ctx ws)
  run_write_tool-AddsOne WriteTool.log_income raw = parsed _ _ (log_income-AddsOne lib ctx ws)
  run_write_tool-AddsOne WriteTool.log_transfer raw = parsed _ _ (log_transfer-AddsOne lib ctx ws)
  run_write_tool-AddsOne WriteTool.edit_last raw = parsed _ _ (edit_last-AddsOne lib ctx ws)
  run_write_tool-AddsOne WriteTool.delete_last raw =
      parsed _ _ λ nothing. delete_last-AddsOne lib ctx ws
  run_write_tool-AddsOne WriteTool.set_budget raw = parsed _ _ (set_budget-AddsOne lib ctx ws)
  run_write_tool-AddsOne WriteTool.remove_budget raw = parsed _ _ (remove_budget-AddsOne lib ctx ws)
  run_write_tool-AddsOne WriteTool.remember raw = parsed _ _ (remember-AddsOne lib ctx ws)
  run_write_tool-AddsOne WriteTool.forget_memory raw = parsed _ _ (forget_memory-AddsOne lib ctx ws)
  run_write_tool-AddsOne WriteTool.list_memory raw = holds (inl refl)
  run_write_tool-AddsOne WriteTool.create_goal raw = parsed _ _ (create_goal-AddsOne lib ctx ws)
  run_write_tool-AddsOne WriteTool.contribute_to_goal raw =
      parsed _ _ (contribute_to_goal-AddsOne lib ctx ws)
  run_write_tool-AddsOne WriteTool.edit_goal raw = parsed _ _ (edit_goal-AddsOne lib ctx ws)
  run_write_tool-AddsOne WriteTool.delete_goal raw = parsed _ _ (delete_goal-AddsOne lib ctx ws)
  run_write_tool-AddsOne WriteTool.add_recurring_bill raw =
      parsed _ _ (add_recurring-AddsOne lib ctx ws)
  run_write_tool-AddsOne WriteTool.edit_recurring_bill raw =
      parsed _ _ (edit_recurring-AddsOne lib ctx ws)
  run_write_tool-AddsOne WriteTool.remove_recurring_bill raw =
      parsed _ _ (remove_recurring-AddsOne lib ctx ws)

  or_failure-AddsOne :
      (m : Checked Step)
      → Fine (AddsOne lib ctx ws) m
      → AddsOne lib ctx ws (or_failure lib ctx ws m)
  or_failure-AddsOne (fine step) (holds h) = h
  or_failure-AddsOne (refused reason) moot = inl refl

  execute_tool-AddsOne :
      (tool : Option Tool) (call : ToolCall)
      → AddsOne lib ctx ws (execute_tool lib ctx tool call ws)
  execute_tool-AddsOne none call = inl refl
  execute_tool-AddsOne (some (Tool.read tool)) call = inl refl
  execute_tool-AddsOne (some (Tool.write tool)) call =
      or_failure-AddsOne _ (run_write_tool-AddsOne tool call.arguments)

  reads_only :
      (tool : Tool) (call : ToolCall)
      → is_read tool ≡ true
      → (execute_tool lib ctx (some tool) call ws).1 ≡ ws
  reads_only (Tool.read tool) call r = refl
  reads_only (Tool.write tool) call r = cc

  -- A call of a tool, whatever its name and arguments, adds at most one write. That one is for the
  -- user, is no reply and consumes no confirmation. Its amounts are within the bounds of an entry, and
  -- the date of an entry, of a contribution or of a transfer can be logged. A goal or a reminder that
  -- it names is one of the user's. The name of a goal, a memory and a query to forget are filled in,
  -- and the memory is one to save. The days of a reminder fit the cadence that is given, and what is
  -- received has the category of an income. A transfer has one of its accounts. An edit gives
  -- a new value. An edit or a deletion of a transaction aims at one of the same turn, if it says so, and
  -- else at the last one of the ledger, and it changes the category only if that one contributes to no
  -- goal and is no income. A call of a reading tool, or of no tool, adds no write.
  pub execute_finance_tool-IsSound :
      (call : ToolCall)
      → (((execute_finance_tool lib ctx call ws).1 ≡ ws)
          ⊎ ((w : WriteIntent) × ((execute_finance_tool lib ctx call ws).1 ≡ ws ++ w ∷ [])
              × IsSound lib ctx w
              × IsAimed ws w))
        × ((tool : Tool)
            → from_name call.name ≡ some tool
            → is_read tool ≡ true
            → (execute_finance_tool lib ctx call ws).1 ≡ ws)
        × (from_name call.name ≡ none → (execute_finance_tool lib ctx call ws).1 ≡ ws)
  unfolding execute_finance_tool
  execute_finance_tool-IsSound call = (
    execute_tool-AddsOne (from_name call.name) call,
    λ tool e r. rw e (reads_only tool call r),
    λ e. rw e refl,
  )

-- The writes from `ws` on, buffered after `before`, aim at what was logged before them.
abbrev pub AimedFrom : List WriteIntent → List WriteIntent → Type 0
AimedFrom before [] = Unit
AimedFrom before (w ∷ ws) = IsAimed before w × AimedFrom (before ++ w ∷ []) ws

pub AimedFrom-insert :
    (before ws : List WriteIntent) (w : WriteIntent)
    → AimedFrom before ws
    → IsAimed (before ++ ws) w
    → AimedFrom before (ws ++ w ∷ [])
AimedFrom-insert before [] w h k = (subst (λ l. IsAimed l w) (append-nil before) k, tt)
AimedFrom-insert before (v ∷ ws) w h k = (
  h.0,
  AimedFrom-insert (before ++ v ∷ []) ws w h.1
      (subst (λ l. IsAimed l w) (sym (append_assoc before (v ∷ []) ws)) k),
)

-- What the buffer of a run satisfies.
pub record IsBuffer (lib : Libraries) (ctx : FinanceToolContext) (ws : List WriteIntent)
    : Type 0 where
  pub sound : All (IsSound lib ctx) ws
  pub aimed : AimedFrom [] ws

-- A call keeps the buffer good.
pub execute_finance_tool-IsBuffer :
    (lib : Libraries) (ctx : FinanceToolContext) (ws : List WriteIntent) (call : ToolCall)
    → IsBuffer lib ctx ws
    → IsBuffer lib ctx (execute_finance_tool lib ctx call ws).1
execute_finance_tool-IsBuffer lib ctx ws call b =
    elim (execute_finance_tool-IsSound lib ctx ws call).0 [
      | inl same ↦ subst (IsBuffer lib ctx) (sym same) b
      | inr (w, more, sound, aimed) ↦ subst (IsBuffer lib ctx) (sym more) (record {
        sound = All-insert (IsSound lib ctx) ws w b.sound sound;
        aimed = AimedFrom-insert [] ws w b.aimed aimed;
      })
    ]
