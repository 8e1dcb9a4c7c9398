-- ===== src/Ai/Args.antt =====
-- The arguments of the tools of crates/ai/src/finance_tools.rs. `Decoder` is what serde_json makes of
-- a call's arguments; a text that it refuses comes with the reason.
use andy.Base.{Option, none, ℤ, Text}
use andy.Ai.Json.{Json}
use andy.Ai.Checked.{Checked}

pub record LogExpenseArgs : Type 0 where
  pub amount : Text
  pub category : Text
  pub note : Option Text
  pub date : Option Text
  pub account : Option Text

pub record LogIncomeArgs : Type 0 where
  pub amount : Text
  pub note : Option Text
  pub date : Option Text
  pub account : Option Text

pub record TransferArgs : Type 0 where
  pub amount : Text
  pub from_account : Option Text
  pub to_account : Option Text
  pub note : Option Text
  pub date : Option Text

pub record EditLastArgs : Type 0 where
  pub amount : Option Text
  pub category : Option Text
  pub note : Option Text

pub record BudgetArgs : Type 0 where
  pub category : Text
  pub monthly_limit : Option Text

pub record RememberArgs : Type 0 where
  pub fact : Text
  pub kind : Option Text

pub record ForgetArgs : Type 0 where
  pub query : Text

pub record CreateGoalArgs : Type 0 where
  pub name : Text
  pub target : Text
  pub target_date : Option Text

pub record ContributeGoalArgs : Type 0 where
  pub goal_name : Text
  pub amount : Text
  pub date : Option Text

pub record EditGoalArgs : Type 0 where
  pub goal_name : Text
  pub new_name : Option Text
  pub target : Option Text
  pub target_date : Option Text

pub record DeleteGoalArgs : Type 0 where
  pub goal_name : Text

pub record AddRecurringArgs : Type 0 where
  pub label : Text
  pub amount : Text
  pub category : Text
  pub kind : Option Text
  pub cadence : Text
  pub day_of_month : Option ℤ
  pub day_of_week : Option ℤ

pub record EditRecurringArgs : Type 0 where
  pub label : Text
  pub amount : Option Text
  pub category : Option Text
  pub cadence : Option Text
  pub day_of_month : Option ℤ
  pub day_of_week : Option ℤ

pub record RemoveRecurringArgs : Type 0 where
  pub label : Text

pub record MonthArgs : Type 0 where
  pub month : Option Text

pub record CategorySpendArgs : Type 0 where
  pub category : Text
  pub month : Option Text

pub record SearchArgs : Type 0 where
  pub text : Option Text
  pub category : Option Text
  pub kind : Option Text
  pub start_date : Option Text
  pub end_date : Option Text
  pub min_amount : Option Text
  pub max_amount : Option Text
  pub by_amount : Option Json
  pub limit : Option ℤ

pub record TransfersQueryArgs : Type 0 where
  pub account : Option Text
  pub limit : Option ℤ

-- `T::default()`
abbrev pub default_month : MonthArgs
default_month = record { month = none }

abbrev pub default_search : SearchArgs
default_search = record {
  text = none;
  category = none;
  kind = none;
  start_date = none;
  end_date = none;
  min_amount = none;
  max_amount = none;
  by_amount = none;
  limit = none;
}

abbrev pub default_transfers : TransfersQueryArgs
default_transfers = record { account = none; limit = none }

pub record Decoder : Type 0 where
  pub log_expense : Text → Checked LogExpenseArgs
  pub log_income : Text → Checked LogIncomeArgs
  pub transfer : Text → Checked TransferArgs
  pub edit_last : Text → Checked EditLastArgs
  pub nothing : Text → Checked (Unit {0})
  pub budget : Text → Checked BudgetArgs
  pub remember : Text → Checked RememberArgs
  pub forget : Text → Checked ForgetArgs
  pub create_goal : Text → Checked CreateGoalArgs
  pub contribute_goal : Text → Checked ContributeGoalArgs
  pub edit_goal : Text → Checked EditGoalArgs
  pub delete_goal : Text → Checked DeleteGoalArgs
  pub add_recurring : Text → Checked AddRecurringArgs
  pub edit_recurring : Text → Checked EditRecurringArgs
  pub remove_recurring : Text → Checked RemoveRecurringArgs
  pub month : Text → Checked MonthArgs
  pub category_spend : Text → Checked CategorySpendArgs
  pub search : Text → Checked SearchArgs
  pub transfers_query : Text → Checked TransfersQueryArgs
