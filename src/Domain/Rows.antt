-- ===== src/Domain/Rows.antt =====
-- The rows of crates/shared/src/domain.rs that the agent sees, and the queries that it may make
-- (`FinanceRead`). A query that fails gives `ToolReadError::Backend`, here `none`.
use andy.Base.{Bool, Option, List, ℤ, Text}
use andy.Domain.{Uuid, NaiveDate, Instant, Category, TxKind, Cadence, MessageRole}

pub record ConversationTurn : Type 0 where
  pub role : MessageRole
  pub content : Text

pub record TransactionRow : Type 0 where
  pub id : Uuid
  pub kind : TxKind
  pub amount_centavos : ℤ
  pub category : Category
  pub note : Option Text
  pub goal_id : Option Uuid
  pub local_date : NaiveDate

pub record TransactionSummaryRow : Type 0 where
  pub kind : TxKind
  pub amount_centavos : ℤ
  pub category : Category
  pub note : Option Text
  pub local_date : NaiveDate

pub record BudgetStatus : Type 0 where
  pub category : Category
  pub limit : ℤ
  pub spent : ℤ

pub record MonthOverview : Type 0 where
  pub income : ℤ
  pub expense : ℤ
  pub net : ℤ

pub record GoalRow : Type 0 where
  pub id : Uuid
  pub name : Text
  pub target_centavos : ℤ
  pub saved_centavos : ℤ
  pub created_at : Instant
  pub target_date : Option NaiveDate

pub record RecurringRow : Type 0 where
  pub id : Uuid
  pub label : Text
  pub kind : TxKind
  pub amount_centavos : ℤ
  pub category : Category
  pub cadence : Cadence
  pub day_of_month : Option ℤ
  pub day_of_week : Option ℤ
  pub last_reminded_date : Option NaiveDate

pub record TransactionSearch : Type 0 where
  pub text : Option Text
  pub category : Option Category
  pub start_date : Option NaiveDate
  pub end_date : Option NaiveDate
  pub min_centavos : Option ℤ
  pub max_centavos : Option ℤ
  pub kind : Option Text
  pub by_amount : Bool
  pub limit : ℤ

pub record TransferRow : Type 0 where
  pub amount_centavos : ℤ
  pub from_account : Option Text
  pub to_account : Option Text
  pub note : Option Text
  pub local_date : NaiveDate

pub record CategorySpend : Type 0 where
  pub category : Category
  pub total_centavos : ℤ

pub record FinanceRead : Type 0 where
  pub month_overview : Uuid → NaiveDate → NaiveDate → Option MonthOverview
  pub category_spend : Uuid → Category → NaiveDate → NaiveDate → Option (ℤ × ℤ)
  pub spending_by_category : Uuid → NaiveDate → NaiveDate → Option (List CategorySpend)
  pub search : Uuid → TransactionSearch → Option (List TransactionSummaryRow)
  pub budget_statuses : Uuid → NaiveDate → NaiveDate → Option (List BudgetStatus)
  pub transfers : Uuid → Option Text → ℤ → Option (List TransferRow)
