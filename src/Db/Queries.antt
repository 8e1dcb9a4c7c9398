-- ===== src/Db/Queries.antt =====
-- The reads of crates/db/src/queries.rs. Groups and the order of categories are those of the enum of
-- the schema; a sum that does not fit a `bigint` is an error. Rows that an `order by` leaves equal
-- are listed as they were inserted.
pub mod Search
pub mod Totals
use mathlib.Core.List.{reverse}
use andy.Base.{
  ℕ, Bool, true, false, not, ◌&&◌, ◌||◌, Option, none, some, List, [], ◌∷◌, ◌++◌, any, all, keep,
  map, map_some, take, length, filter_map, ℤ, pos, ◌+ℤ◌, ◌-ℤ◌, leb_ℤ, ltb_ℤ, max_ℤ, fits_i64, abs_ℕ,
  leb, ltb, Text, trim, is_empty, text_eq, ◌==◌, if◌then◌else◌,
}
use andy.Domain.{
  Uuid, NaiveDate, Instant, Category, TxKind, category_index, all_categories, tx_kind_db,
}
use andy.Domain.Rows.{
  ConversationTurn, TransactionRow, TransactionSummaryRow, BudgetStatus, MonthOverview, GoalRow,
  TransferRow, TransactionSearch,
}
use andy.Shared.Time.{Calendar, month_range, manila_offset_minutes}
use andy.Db.Tables.{Engine, Database, DbError, Result, ok, ◌>>◌, require}
use andy.Db.Tables as Tables
use andy.Db.Like.{like, substring_pattern}
use andy.Db.Reconcile.{sum_amounts}

abbrev pub is_expense : TxKind → Bool
is_expense TxKind.income = false
is_expense TxKind.expense = true

abbrev pub same_category : Category → Category → Bool
same_category a b = category_index a == category_index b

-- The user's transactions with `local_date between start and end`.
abbrev pub in_window : Uuid → NaiveDate → NaiveDate → Tables.TransactionRow → Bool
in_window user_id start end t =
    (t.user_id == user_id) && (leb_ℤ start t.local_date && leb_ℤ t.local_date end)

abbrev pub spent_in : Category → Tables.TransactionRow → Bool
spent_in category t = is_expense t.kind && same_category category t.category

-- `limit`, which must not be negative.
abbrev pub with_limit {ℓ} : {A : Type ℓ} → ℤ → List A → Result (List A)
with_limit limit rows =
    require (leb_ℤ (pos 0) limit) DbError.out_of_range >> ok (take (abs_ℕ limit) rows)

abbrev pub turn_from_row : Tables.MessageRow → ConversationTurn
turn_from_row m = record { role = m.role; content = m.content }

unfoldable pub recent_turns : Uuid → ℤ → Database → Result (List ConversationTurn)
recent_turns user_id limit db =
    let rows = keep (λ (m : Tables.MessageRow). m.user_id == user_id) db.messages in
    require (leb_ℤ (pos 0) limit) DbError.out_of_range
    >> ok (reverse (map turn_from_row (take (abs_ℕ limit) (reverse rows))))

-- `transaction_from_row`
abbrev pub transaction_from_row : Tables.TransactionRow → TransactionRow
transaction_from_row t = record {
  id = t.id;
  kind = t.kind;
  amount_centavos = t.amount_centavos;
  category = t.category;
  note = t.note;
  goal_id = t.goal_id;
  local_date = t.local_date;
}

-- `transaction_summary_from_row`
abbrev pub transaction_summary_from_row : Tables.TransactionRow → TransactionSummaryRow
transaction_summary_from_row t = record {
  kind = t.kind;
  amount_centavos = t.amount_centavos;
  category = t.category;
  note = t.note;
  local_date = t.local_date;
}

-- A user's transactions, the newest first.
abbrev pub newest_first : Uuid → Database → List Tables.TransactionRow
newest_first user_id db = reverse (keep (λ t. t.user_id == user_id) db.transactions)

abbrev pub first {ℓ} : {A : Type ℓ} → List A → Option A
first [] = none
first (a ∷ rest) = some a

unfoldable pub last_transaction : Uuid → Database → Option TransactionRow
last_transaction user_id db = map_some transaction_from_row (first (newest_first user_id db))

unfoldable pub get_recent_transactions : Uuid → ℤ → Database → Result (List TransactionSummaryRow)
get_recent_transactions user_id limit db =
    with_limit limit (map transaction_summary_from_row (newest_first user_id db))

abbrev pub status_of : List Tables.TransactionRow → Category → Tables.BudgetRow → BudgetStatus
status_of rows category b = record {
  category = category;
  limit = b.monthly_limit_centavos;
  spent = sum_amounts (keep (spent_in category) rows);
}

abbrev pub budget_of : Uuid → List Tables.BudgetRow → Category → Option Tables.BudgetRow
budget_of user_id budgets category =
    first (keep (λ b. (b.user_id == user_id) && same_category category b.category) budgets)

-- A budget with what was spent on its category, for the categories asked for.
unfoldable pub budget_status_rows :
    Uuid → (Category → Bool) → NaiveDate → NaiveDate → Database → Result (List BudgetStatus)
budget_status_rows user_id wanted month_start month_end db =
    let window = keep (in_window user_id month_start month_end) db.transactions in
    let rows =
      filter_map (λ c. map_some (status_of window c) (budget_of user_id db.budgets c))
        (keep wanted all_categories) in
    require (all (λ (s : BudgetStatus). fits_i64 s.spent) rows) DbError.out_of_range >> ok rows

abbrev pub is_counted : Option Category → Tables.TransactionRow → Bool
is_counted none t = is_expense t.kind
is_counted (some c) t = spent_in c t

unfoldable pub sum_and_count_spend_between :
    Uuid → NaiveDate → NaiveDate → Option Category → Database → Result (ℤ × ℤ)
sum_and_count_spend_between user_id start end category db =
    let rows = keep (is_counted category) (keep (in_window user_id start end) db.transactions) in
    require (fits_i64 (sum_amounts rows)) DbError.out_of_range
    >> ok (sum_amounts rows, pos (length rows))

unfoldable pub get_month_overview_between :
    Uuid → NaiveDate → NaiveDate → Database → Result MonthOverview
get_month_overview_between user_id start end db =
    let rows = keep (in_window user_id start end) db.transactions in
    let income = sum_amounts (keep (λ t. not (is_expense t.kind)) rows) in
    let expense = sum_amounts (keep (λ t. is_expense t.kind) rows) in
    require (fits_i64 income && fits_i64 expense) DbError.out_of_range
    >> ok (record { income = income; expense = expense; net = income -ℤ expense })

-- Into a list ordered by total, the largest first, before those that it exceeds.
abbrev pub insert_total : Category × ℤ → List (Category × ℤ) → List (Category × ℤ)
insert_total x [] = x ∷ []
insert_total x (y ∷ ys) = if leb_ℤ y.1 x.1 then x ∷ (y ∷ ys) else y ∷ insert_total x ys

abbrev pub sort_totals : List (Category × ℤ) → List (Category × ℤ)
sort_totals [] = []
sort_totals (x ∷ xs) = insert_total x (sort_totals xs)

-- The group of a category, if it is not empty.
abbrev pub group_total : List Tables.TransactionRow → Category → Option (Category × ℤ)
group_total rows category = elim (keep (spent_in category) rows) [
  | [] ↦ none
  | t ∷ ts ↦ some (category, sum_amounts (keep (spent_in category) rows))
]

unfoldable pub get_spending_by_category_between :
    Uuid → NaiveDate → NaiveDate → Database → Result (List (Category × ℤ))
get_spending_by_category_between user_id start end db =
    let rows = keep (in_window user_id start end) db.transactions in
    let totals = filter_map (group_total rows) all_categories in
    require (all (λ (t : Category × ℤ). fits_i64 t.1) totals) DbError.out_of_range
    >> ok (sort_totals totals)

-- `order by created_at asc, id asc`
abbrev pub goal_before : GoalRow → GoalRow → Bool
goal_before a b =
    ltb_ℤ a.created_at b.created_at || (not (ltb_ℤ b.created_at a.created_at) && leb a.id b.id)

abbrev pub place_goal : GoalRow → List GoalRow → List GoalRow
place_goal g [] = g ∷ []
place_goal g (h ∷ hs) = if goal_before g h then g ∷ (h ∷ hs) else h ∷ place_goal g hs

abbrev pub sort_goals : List GoalRow → List GoalRow
sort_goals [] = []
sort_goals (g ∷ gs) = place_goal g (sort_goals gs)

abbrev pub goal_from_row : Tables.GoalRow → GoalRow
goal_from_row g = record {
  id = g.id;
  name = g.name;
  target_centavos = g.target_centavos;
  saved_centavos = g.saved_centavos;
  created_at = g.created_at;
  target_date = g.target_date;
}

unfoldable pub list_goals : Uuid → Database → List GoalRow
list_goals user_id db =
    sort_goals (map goal_from_row (keep (λ g. g.user_id == user_id) db.savings_goals))

module _ (calendar : Calendar) where
  unfoldable pub budget_statuses : Uuid → Instant → Database → Result (List BudgetStatus)
  unfolding budget_status_rows
  budget_statuses user_id at db =
      let month = month_range calendar at manila_offset_minutes in
      budget_status_rows user_id (λ c. true) month.0 month.1 db

  unfoldable pub category_amounts_this_month : Uuid → Category → Instant → Database → List ℤ
  category_amounts_this_month user_id category at db =
      let month = month_range calendar at manila_offset_minutes in
      map (λ (t : Tables.TransactionRow). t.amount_centavos)
        (keep (spent_in category) (keep (in_window user_id month.0 month.1) db.transactions))

  unfoldable pub get_month_overview : Uuid → Instant → Database → Result MonthOverview
  unfolding get_month_overview_between
  get_month_overview user_id at db =
      let month = month_range calendar at manila_offset_minutes in
      get_month_overview_between user_id month.0 month.1 db

  unfoldable pub get_spending_by_category : Uuid → Instant → Database → Result (List (Category × ℤ))
  unfolding get_spending_by_category_between
  get_spending_by_category user_id at db =
      let month = month_range calendar at manila_offset_minutes in
      get_spending_by_category_between user_id month.0 month.1 db

-- `budget_statuses_for`
unfoldable pub budget_statuses_for :
    Uuid → List Category → NaiveDate → NaiveDate → Database → Result (List BudgetStatus)
unfolding budget_status_rows
budget_statuses_for user_id [] month_start month_end db = ok []
budget_statuses_for user_id (c ∷ cs) month_start month_end db =
    budget_status_rows user_id (λ d. any (same_category d) (c ∷ cs)) month_start month_end db
