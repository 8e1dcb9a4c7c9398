-- ===== src/Ai/Tools.antt =====
-- The tools by name, and their dispatch (crates/ai/src/finance_tools.rs).
use andy.Base.{
  Option, none, some, List, [], ◌∷◌, ◌++◌, ◌||◌, map, is_empty, Text, codes, text_eq, trim,
  if◌then◌else◌,
}
use andy.Domain.{WriteIntent}
use andy.Ai.Json.{Json, array, object}
use andy.Ai.Checked.{Checked, fine, refused, ◌>>=◌}
use andy.Ai.Catalogue.{WriteTool, ReadTool, Tool, from_name}
use andy.Ai.Context.{Libraries, FinanceToolContext}
use andy.Ai.Args.{default_month, default_search, default_transfers}
use andy.Ai.Writes.{
  Step, failure, log_expense, log_income, log_transfer, edit_last, delete_last, set_budget,
  remove_budget, remember, forget_memory,
}
use andy.Ai.Writes.Goals.{create_goal, contribute_to_goal, edit_goal, delete_goal}
use andy.Ai.Writes.Reminders.{add_recurring, edit_recurring, remove_recurring}
use andy.Ai.Reads.{
  get_month_overview_tool, get_category_spend_tool, search_transactions_tool, list_budgets_tool,
  search_transfers_tool, list_goals_tool, list_recurring_tool,
}

pub record ToolCall : Type 0 where
  pub id : Text
  pub name : Text
  pub arguments : Text

-- `.map_err(|err| format!("invalid arguments: {err}"))`
abbrev pub invalid {ℓ} : {A : Type ℓ} → Checked A → Checked A
invalid (fine args) = fine args
invalid (refused reason) = refused (codes "invalid arguments: " ++ reason)

-- `parse`: all arguments may be missing.
unfoldable pub parse {ℓ} : {A : Type ℓ} → A → (Text → Checked A) → Text → Checked A
parse default decode arguments =
    let raw = trim arguments in
    if is_empty raw || text_eq raw (codes "{}") then fine default else invalid (decode raw)

module _ (lib : Libraries) (ctx : FinanceToolContext) where
  -- `parse_and` and the arms of `execute_finance_tool`.
  unfoldable pub run_write_tool : WriteTool → Text → List WriteIntent → Checked Step
  run_write_tool WriteTool.log_expense raw ws =
      invalid (lib.decoder.log_expense raw) >>= log_expense lib ctx ws
  run_write_tool WriteTool.log_income raw ws =
      invalid (lib.decoder.log_income raw) >>= log_income lib ctx ws
  run_write_tool WriteTool.log_transfer raw ws =
      invalid (lib.decoder.transfer raw) >>= log_transfer lib ctx ws
  run_write_tool WriteTool.edit_last raw ws =
      invalid (lib.decoder.edit_last raw) >>= edit_last lib ctx ws
  run_write_tool WriteTool.delete_last raw ws =
      invalid (lib.decoder.nothing raw) >>= λ nothing. delete_last lib ctx ws
  run_write_tool WriteTool.set_budget raw ws =
      invalid (lib.decoder.budget raw) >>= set_budget lib ctx ws
  run_write_tool WriteTool.remove_budget raw ws =
      invalid (lib.decoder.budget raw) >>= remove_budget lib ctx ws
  run_write_tool WriteTool.remember raw ws =
      invalid (lib.decoder.remember raw) >>= remember lib ctx ws
  run_write_tool WriteTool.forget_memory raw ws =
      invalid (lib.decoder.forget raw) >>= forget_memory lib ctx ws
  run_write_tool WriteTool.list_memory raw ws =
      fine (object ((codes "remembered", array (map Json.str ctx.snapshot.memories)) ∷ []), ws)
  run_write_tool WriteTool.create_goal raw ws =
      invalid (lib.decoder.create_goal raw) >>= create_goal lib ctx ws
  run_write_tool WriteTool.contribute_to_goal raw ws =
      invalid (lib.decoder.contribute_goal raw) >>= contribute_to_goal lib ctx ws
  run_write_tool WriteTool.edit_goal raw ws =
      invalid (lib.decoder.edit_goal raw) >>= edit_goal lib ctx ws
  run_write_tool WriteTool.delete_goal raw ws =
      invalid (lib.decoder.delete_goal raw) >>= delete_goal lib ctx ws
  run_write_tool WriteTool.add_recurring_bill raw ws =
      invalid (lib.decoder.add_recurring raw) >>= add_recurring lib ctx ws
  run_write_tool WriteTool.edit_recurring_bill raw ws =
      invalid (lib.decoder.edit_recurring raw) >>= edit_recurring lib ctx ws
  run_write_tool WriteTool.remove_recurring_bill raw ws =
      invalid (lib.decoder.remove_recurring raw) >>= remove_recurring lib ctx ws

  unfoldable pub run_read_tool : ReadTool → Text → Checked Json
  unfolding parse
  run_read_tool ReadTool.get_month_overview raw =
      parse default_month lib.decoder.month raw >>= get_month_overview_tool lib ctx
  run_read_tool ReadTool.get_category_spend raw =
      invalid (lib.decoder.category_spend (trim raw)) >>= get_category_spend_tool lib ctx
  run_read_tool ReadTool.search_transactions raw =
      parse default_search lib.decoder.search raw >>= search_transactions_tool lib ctx
  run_read_tool ReadTool.list_budgets raw = list_budgets_tool lib ctx
  run_read_tool ReadTool.list_goals raw = fine (list_goals_tool lib ctx)
  run_read_tool ReadTool.list_recurring raw = fine (list_recurring_tool lib ctx)
  run_read_tool ReadTool.search_transfers raw =
      parse default_transfers lib.decoder.transfers_query raw >>= search_transfers_tool lib ctx

  -- `unwrap_or_else(|err| json!({ "ok": false, "error": err }))`
  abbrev pub or_failure : List WriteIntent → Checked Step → Step
  or_failure ws (fine step) = step
  or_failure ws (refused reason) = (failure reason, ws)

  abbrev pub answer_of : Checked Json → Json
  answer_of (fine json) = json
  answer_of (refused reason) = failure reason

  abbrev pub execute_tool : Option Tool → ToolCall → List WriteIntent → Step
  execute_tool none call ws = (failure (codes "unsupported tool " ++ call.name), ws)
  execute_tool (some (Tool.read tool)) call ws = (answer_of (run_read_tool tool call.arguments), ws)
  execute_tool (some (Tool.write tool)) call ws =
      or_failure ws (run_write_tool tool call.arguments ws)

  -- The content of the answer and the writes.
  unfoldable pub execute_finance_tool : ToolCall → List WriteIntent → Text × List WriteIntent
  execute_finance_tool call ws =
      let step = execute_tool (from_name call.name) call ws in (lib.to_string step.0, step.1)
