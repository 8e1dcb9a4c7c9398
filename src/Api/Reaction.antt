-- ===== src/Api/Reaction.antt =====
-- `append_budget_reaction` of crates/api/src/service.rs: the budget lines that a reply gets.
use andy.Base.{
  ◌&&◌, Option, none, some, List, [], ◌∷◌, ◌++◌, map, filter_map, unwrap_or, join, ℤ, pos, ◌+ℤ◌,
  leb_ℤ, Text, codes, if◌then◌else◌,
}
use andy.Domain.{Uuid, NaiveDate, Category, TxKind, WriteIntent}
use andy.Domain.Rows.{BudgetStatus}
use andy.Shared.Time.{Calendar, month_range}
use andy.Shared.Budget.{BudgetSnapshot, budget_reaction_lines}
use andy.Db.Tables.{Database, Result, ok, ◌>>=◌}
use andy.Db.Queries.{same_category, budget_statuses_for}

-- What a write adds to the spending of the month, and to which category.
unfoldable pub logged_in : NaiveDate × NaiveDate → WriteIntent → Option (Category × ℤ)
logged_in month (WriteIntent.transaction TxKind.expense user amount category memo date account) =
    if leb_ℤ month.0 date && leb_ℤ date month.1 then some (category, amount) else none
logged_in month _ = none

-- `just_logged.get`: the sum of the entries of a category, if it has any.
unfoldable pub just_logged : List (Category × ℤ) → Category → Option ℤ
just_logged [] category = none
just_logged (x ∷ xs) category =
    let rest = just_logged xs category in
    if same_category x.0 category then some (x.1 +ℤ unwrap_or (pos 0) rest) else rest

abbrev pub snapshot : List (Category × ℤ) → BudgetStatus → BudgetSnapshot
snapshot logged status = record {
  category = status.category;
  limit = status.limit;
  spent = status.spent +ℤ unwrap_or (pos 0) (just_logged logged status.category);
}

abbrev pub with_lines : Text → List Text → Text
with_lines reply [] = reply
with_lines reply (line ∷ lines) = reply ++ codes "\n\n" ++ join (codes "\n") (line ∷ lines)

-- The clock is that of the database, and `offset_minutes` the one of `AppTimeConfig`.
module _ (calendar : Calendar) (offset_minutes : ℤ) where
  abbrev pub reply_about :
      List (Category × ℤ) → NaiveDate × NaiveDate → Uuid → Text → Database → Result Text
  reply_about [] month user_id reply db = ok reply
  reply_about (x ∷ xs) month user_id reply db = do
    let logged = x ∷ xs
    statuses ← budget_statuses_for user_id (map (λ y. y.0) logged) month.0 month.1 db
    ok (
        with_lines reply
          (budget_reaction_lines (map (snapshot logged) statuses) (just_logged logged)))

  unfoldable pub append_budget_reaction : Uuid → Text → List WriteIntent → Database → Result Text
  append_budget_reaction user_id reply writes db =
      let month = month_range calendar db.now offset_minutes in
      reply_about (filter_map (logged_in month) writes) month user_id reply db
