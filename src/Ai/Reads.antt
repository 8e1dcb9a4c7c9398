-- ===== src/Ai/Reads.antt =====
-- The tools of crates/ai/src/finance_tools.rs that only read.
use andy.Base.{
  Option, [], ◌∷◌, length, map, map_some, unwrap_or, is_empty, ℤ, pos, ◌-ℤ◌, max_ℤ, ltb_ℤ, codes,
  trim, not, if◌then◌else◌,
}
use andy.Domain.{NaiveDate, tx_kind_db, cadence_db}
use andy.Domain.Rows.{
  TransactionSearch, TransactionSummaryRow, BudgetStatus, TransferRow, GoalRow, RecurringRow,
}
use andy.Shared.Categories.{coerce_category}
use andy.Shared.Time.{month_bounds}
use andy.Ai.Json.{Json, array, object, optional}
use andy.Ai.Checked.{Checked, fine, ◌>>=◌, each}
use andy.Ai.Context.{Libraries, FinanceToolContext}
use andy.Ai.Args.{MonthArgs, CategorySpendArgs, SearchArgs, TransfersQueryArgs}
use andy.Ai.Fields.{
  amount, optional_calendar, resolve_month, reader, backend, is_blank, only_if, parse_kind, as_bool,
  sanitize_note,
}
use andy.Ai.Writes.{success, php, category_json}

-- `READ_RESULT_CAP`
abbrev pub read_result_cap : ℤ
read_result_cap = pos 20

-- `limit.unwrap_or(READ_RESULT_CAP).clamp(1, READ_RESULT_CAP)`
unfoldable pub row_limit : Option ℤ → ℤ
row_limit limit =
    let n = unwrap_or read_result_cap limit in
    if ltb_ℤ n (pos 1) then pos 1 else if ltb_ℤ read_result_cap n then read_result_cap else n

module _ (lib : Libraries) (ctx : FinanceToolContext) where
  abbrev pub day : NaiveDate → Json
  day d = Json.str (lib.calendar.date_text d)

  unfoldable pub get_month_overview_tool : MonthArgs → Checked Json
  get_month_overview_tool args = do
    (start, end) ← resolve_month lib args.month ctx.today
    r ← reader ctx
    overview ← backend (r.month_overview ctx.user_id start end)
    fine (
        success (
          (codes "start", day start)
          ∷ (codes "end", day end)
          ∷ (codes "income", php overview.income)
          ∷ (codes "expense", php overview.expense)
          ∷ (codes "net", php overview.net)
          ∷ []))

  unfoldable pub get_category_spend_tool : CategorySpendArgs → Checked Json
  get_category_spend_tool args = do
    (start, end) ← resolve_month lib args.month ctx.today
    let category = coerce_category args.category
    r ← reader ctx
    (total, count) ← backend (r.category_spend ctx.user_id category start end)
    fine (
        success (
          (codes "category", category_json category)
          ∷ (codes "start", day start)
          ∷ (codes "end", day end)
          ∷ (codes "total", php total)
          ∷ (codes "count", Json.num count)
          ∷ []))

  abbrev pub transaction_json : TransactionSummaryRow → Json
  transaction_json row = object (
      (codes "kind", Json.str (tx_kind_db row.kind))
      ∷ (codes "amount", php row.amount_centavos)
      ∷ (codes "category", category_json row.category)
      ∷ (codes "note", optional Json.str (sanitize_note row.note))
      ∷ (codes "date", day row.local_date)
      ∷ [])

  unfoldable pub search_transactions_tool : SearchArgs → Checked Json
  search_transactions_tool args = do
    start_date ← optional_calendar lib args.start_date
    end_date ← optional_calendar lib args.end_date
    min_centavos ← each (amount lib) args.min_amount
    max_centavos ← each (amount lib) args.max_amount
    let opts : TransactionSearch = record {
      text = only_if (λ t. not (is_blank t)) args.text;
      category = map_some coerce_category args.category;
      start_date = start_date;
      end_date = end_date;
      min_centavos = min_centavos;
      max_centavos = max_centavos;
      kind = parse_kind args.kind;
      by_amount = as_bool args.by_amount;
      limit = row_limit args.limit;
    }
    r ← reader ctx
    rows ← backend (r.search ctx.user_id opts)
    fine (
        success (
          (codes "count", Json.num (pos (length rows)))
          ∷ (codes "transactions", array (map transaction_json rows))
          ∷ []))

  abbrev pub budget_json : BudgetStatus → Json
  budget_json status = object (
      (codes "category", category_json status.category)
      ∷ (codes "limit", php status.limit)
      ∷ (codes "spent", php status.spent)
      ∷ (codes "remaining", php (max_ℤ (status.limit -ℤ status.spent) (pos 0)))
      ∷ [])

  unfoldable pub list_budgets_tool : Checked Json
  list_budgets_tool = do
    let bounds = month_bounds lib.calendar ctx.today
    r ← reader ctx
    statuses ← backend (r.budget_statuses ctx.user_id bounds.0 bounds.1)
    fine (
        success (
          (codes "start", day bounds.0)
          ∷ (codes "end", day bounds.1)
          ∷ (codes "budgets", array (map budget_json statuses))
          ∷ []))

  abbrev pub transfer_json : TransferRow → Json
  transfer_json row = object (
      (codes "amount", php row.amount_centavos)
      ∷ (codes "from", optional Json.str row.from_account)
      ∷ (codes "to", optional Json.str row.to_account)
      ∷ (codes "note", optional Json.str (sanitize_note row.note))
      ∷ (codes "date", day row.local_date)
      ∷ [])

  unfoldable pub search_transfers_tool : TransfersQueryArgs → Checked Json
  search_transfers_tool args = do
    let account = only_if (λ a. not (is_empty a)) (map_some trim args.account)
    r ← reader ctx
    rows ← backend (r.transfers ctx.user_id account (row_limit args.limit))
    fine (
        success (
          (codes "count", Json.num (pos (length rows)))
          ∷ (codes "transfers", array (map transfer_json rows))
          ∷ []))

  abbrev pub goal_json : GoalRow → Json
  goal_json goal = object (
      (codes "name", Json.str goal.name)
      ∷ (codes "saved", php goal.saved_centavos)
      ∷ (codes "target", php goal.target_centavos)
      ∷ (codes "targetDate", optional day goal.target_date)
      ∷ [])

  unfoldable pub list_goals_tool : Json
  list_goals_tool = success ((codes "goals", array (map goal_json ctx.snapshot.goals)) ∷ [])

  abbrev pub recurring_json : RecurringRow → Json
  recurring_json item = object (
      (codes "label", Json.str item.label)
      ∷ (codes "kind", Json.str (tx_kind_db item.kind))
      ∷ (codes "amount", php item.amount_centavos)
      ∷ (codes "category", category_json item.category)
      ∷ (codes "cadence", Json.str (cadence_db item.cadence))
      ∷ (codes "dayOfMonth", optional Json.num item.day_of_month)
      ∷ (codes "dayOfWeek", optional Json.num item.day_of_week)
      ∷ [])

  unfoldable pub list_recurring_tool : Json
  list_recurring_tool =
      success ((codes "recurring", array (map recurring_json ctx.snapshot.recurring)) ∷ [])
