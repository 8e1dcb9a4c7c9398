-- ===== src/Db/Read.antt =====
-- `PgFinanceRead` of crates/db/src/read.rs: the port through which the agent's tools read, on the
-- queries of the database.
use andy.Base.{ℤ, Option, none, some, map, map_some}
use andy.Domain.{Category, all_categories}
use andy.Domain.Rows.{CategorySpend, FinanceRead}
use andy.Db.Tables.{Engine, Database, Result, ok, err}
use andy.Db.Queries.{
  get_month_overview_between, sum_and_count_spend_between, get_spending_by_category_between,
  budget_statuses_for,
}
use andy.Db.Queries.Search.{search_transactions, search_transfers}

-- `map_err(read_backend_error)`: the error is dropped, so its detail never reaches the model.
abbrev pub or_backend {ℓ} : {A : Type ℓ} → Result A → Option A
or_backend (ok a) = some a
or_backend (err e) = none

abbrev pub category_spend_of : Category × ℤ → CategorySpend
category_spend_of x = record { category = x.0; total_centavos = x.1 }

unfoldable pub pg_finance_read : Engine → Database → FinanceRead
pg_finance_read e db = record {
  month_overview =
      λ user_id start end. or_backend (get_month_overview_between user_id start end db);
  category_spend = λ user_id category start end.
      or_backend (sum_and_count_spend_between user_id start end (some category) db);
  spending_by_category = λ user_id start end.
      map_some (map category_spend_of)
        (or_backend (get_spending_by_category_between user_id start end db));
  search = λ user_id opts. or_backend (search_transactions e user_id opts db);
  budget_statuses =
      λ user_id start end. or_backend (budget_statuses_for user_id all_categories start end db);
  transfers = λ user_id account limit. some (search_transfers e user_id account limit db);
}
