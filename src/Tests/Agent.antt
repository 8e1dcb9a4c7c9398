-- ===== src/Tests/Agent.antt =====
-- The agent of crates/ai at a concrete conversation.
use andy.Base.{
  ◌≡◌, ◌⊎◌, refl, true, none, some, [], ◌∷◌, pos, codes, trim, remove_all, lower_char,
  is_ascii_digit, is_whitespace,
}
use andy.Domain.{Category, TxKind, WriteIntent, MessageRole}
use andy.Ai.Agent.{AgentResult, RunAgentOutput, run_agent, run_calls, with_turn_writes}
use andy.Ai.Tools.{execute_finance_tool, run_write_tool}
use andy.Ai.Catalogue.{Tool, from_name, is_read}
use andy.Ai.Writes.{edit_last, log_expense}
use andy.Ai.Targets.{last_buffered_transaction}
use andy.Ai.Fields.{amount, log_date, clean_account}
use andy.Shared.Amounts.{parse_amount, parse_digits, parse_plain, check_entry}
use andy.Shared.ExpenseCategory.{coerce_expense_category}
use andy.Shared.Categories.{coerce_category, category_from_str}
use andy.Ai.Sound.{IsSound, IsAimed}
use andy.Ai.Sound.Calls.{execute_finance_tool-IsSound}
use andy.Ai.Agent.Aims.{Meets, run_agent-Meets}
use andy.Tests.Fixtures.{engine, start}
use andy.Tests.Libraries.{libraries, input, context, lunch_call}

abbrev reply : RunAgentOutput
reply = record {
  reply = codes "logged";
  writes =
      WriteIntent.transaction TxKind.expense 1 (pos 12000) Category.food none (pos 753300) none
      ∷ WriteIntent.edit_last 1 none true (some (pos 15000)) none none
      ∷ WriteIntent.save_turn 1 MessageRole.user (codes "lunch 120, no, 150")
      ∷ WriteIntent.save_turn 1 MessageRole.assistant (codes "logged")
      ∷ [];
}

replies : run_agent libraries input ≡ AgentResult.replied reply
unfolding run_agent run_calls with_turn_writes execute_finance_tool from_name run_write_tool
    edit_last last_buffered_transaction log_expense amount parse_amount trim parse_digits remove_all
    lower_char parse_plain is_ascii_digit check_entry log_date clean_account coerce_expense_category
    coerce_category category_from_str is_whitespace
replies = refl

run_agent-Meets_example :
    Meets engine reply.writes
      (record { last_inserted_tx_id = none; source_message_id = some (codes "m2") })
      start
run_agent-Meets_example =
    run_agent-Meets libraries input engine reply replies (some (codes "m2")) start

execute_finance_tool-IsSound_example :
    (((execute_finance_tool libraries context lunch_call []).1 ≡ [])
      ⊎ ((w : WriteIntent) × ((execute_finance_tool libraries context lunch_call []).1 ≡ w ∷ [])
          × IsSound libraries context w
          × IsAimed [] w))
    × ((tool : Tool)
        → from_name lunch_call.name ≡ some tool
        → is_read tool ≡ true
        → (execute_finance_tool libraries context lunch_call []).1 ≡ [])
    × (from_name lunch_call.name ≡ none
        → (execute_finance_tool libraries context lunch_call []).1 ≡ [])
execute_finance_tool-IsSound_example = execute_finance_tool-IsSound libraries context [] lunch_call
