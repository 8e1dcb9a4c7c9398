-- ===== src/Ai/Catalogue.antt =====
-- The tools of crates/ai/src/finance_tools.rs by name.
use andy.Base.{
  Bool, true, false, Option, none, some, List, [], ◌∷◌, Text, codes, text_eq, if◌then◌else◌,
}

-- The source's one enum, in the two parts that `is_read` tells apart.
pub data WriteTool : Type 0 where
  log_expense log_income log_transfer edit_last delete_last set_budget remove_budget : WriteTool
  remember forget_memory list_memory create_goal contribute_to_goal edit_goal : WriteTool
  delete_goal add_recurring_bill edit_recurring_bill remove_recurring_bill : WriteTool

pub data ReadTool : Type 0 where
  get_month_overview get_category_spend search_transactions list_budgets : ReadTool
  list_goals list_recurring search_transfers : ReadTool

pub data Tool : Type 0 where
  write : WriteTool → Tool
  read : ReadTool → Tool

abbrev pub tool_names : List (Text × Tool)
tool_names =
    (codes "logExpense", Tool.write WriteTool.log_expense)
    ∷ (codes "logIncome", Tool.write WriteTool.log_income)
    ∷ (codes "logTransfer", Tool.write WriteTool.log_transfer)
    ∷ (codes "editLast", Tool.write WriteTool.edit_last)
    ∷ (codes "deleteLast", Tool.write WriteTool.delete_last)
    ∷ (codes "setBudget", Tool.write WriteTool.set_budget)
    ∷ (codes "removeBudget", Tool.write WriteTool.remove_budget)
    ∷ (codes "remember", Tool.write WriteTool.remember)
    ∷ (codes "forgetMemory", Tool.write WriteTool.forget_memory)
    ∷ (codes "listMemory", Tool.write WriteTool.list_memory)
    ∷ (codes "createGoal", Tool.write WriteTool.create_goal)
    ∷ (codes "contributeToGoal", Tool.write WriteTool.contribute_to_goal)
    ∷ (codes "editGoal", Tool.write WriteTool.edit_goal)
    ∷ (codes "deleteGoal", Tool.write WriteTool.delete_goal)
    ∷ (codes "addRecurringBill", Tool.write WriteTool.add_recurring_bill)
    ∷ (codes "editRecurringBill", Tool.write WriteTool.edit_recurring_bill)
    ∷ (codes "removeRecurringBill", Tool.write WriteTool.remove_recurring_bill)
    ∷ (codes "getMonthOverview", Tool.read ReadTool.get_month_overview)
    ∷ (codes "getCategorySpend", Tool.read ReadTool.get_category_spend)
    ∷ (codes "searchTransactions", Tool.read ReadTool.search_transactions)
    ∷ (codes "listBudgets", Tool.read ReadTool.list_budgets)
    ∷ (codes "listGoals", Tool.read ReadTool.list_goals)
    ∷ (codes "listRecurring", Tool.read ReadTool.list_recurring)
    ∷ (codes "searchTransfers", Tool.read ReadTool.search_transfers)
    ∷ []

abbrev pub named : Text → List (Text × Tool) → Option Tool
named name [] = none
named name ((n, tool) ∷ rest) = if text_eq n name then some tool else named name rest

-- `Tool::from_name`
unfoldable pub from_name : Text → Option Tool
from_name name = named name tool_names

-- `Tool::is_read`
abbrev pub is_read : Tool → Bool
is_read (Tool.read tool) = true
is_read (Tool.write tool) = false
