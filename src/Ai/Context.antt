-- ===== src/Ai/Context.antt =====
-- What a tool of crates/ai/src/finance_tools.rs works with, and what it takes from other crates.
use andy.Base.{Option, List, Text}
use andy.Domain.{Uuid, NaiveDate}
use andy.Domain.Rows.{TransactionRow, GoalRow, RecurringRow, ConversationTurn, FinanceRead}
use andy.Shared.Amounts.{AmountText}
use andy.Shared.Time.{Calendar}
use andy.Ai.Json.{Json}
use andy.Ai.Args.{Decoder}

pub record Libraries : Type 0 where
  pub amount_text : AmountText
  pub calendar : Calendar
  pub decoder : Decoder
  -- `Value::to_string`
  pub to_string : Json → Text

pub record AgentSnapshot : Type 0 where
  pub last_transaction : Option TransactionRow
  pub goals : List GoalRow
  pub recurring : List RecurringRow
  pub memories : List Text
  pub recent_turns : List ConversationTurn

pub record FinanceToolContext : Type 0 where
  pub user_id : Uuid
  pub today : NaiveDate
  pub snapshot : AgentSnapshot
  pub reader : Option FinanceRead
