-- ===== src/Db/Goals.antt =====
-- The goal and budget statements of `apply_write_intent` (crates/db/src/writes.rs).
use andy.Base.{
  ℕ, suc, Bool, true, false, not, ◌&&◌, ◌||◌, Option, none, some, List, [], ◌∷◌, ◌++◌, any, all,
  keep, update_where, length, leb, is_some, unwrap_or, map_some, ℤ, pos, Text, text_eq, ◌==◌,
  if◌then◌else◌,
}
use andy.Domain.{Uuid, NaiveDate, Instant, Category, category_eq}
use andy.Db.Tables.{
  Engine, Database, TransactionRow, GoalRow, BudgetRow, DbError, Result, ok, ◌>>◌, require,
  has_user,
}
use andy.Db.Transactions.{truncate, goal_matches, amount_allowed}

-- `NAME_MAX`
abbrev pub name_max : ℕ
name_max = 100

-- The unique index on `(user_id, lower(name))`.
abbrev pub same_name : Engine → Uuid → Text → GoalRow → Bool
same_name pg user_id name g = (g.user_id == user_id) && text_eq (pg.lower g.name) (pg.lower name)

-- `goal_target_positive`, `goal_target_safe` and `savings_goals_name_len`.
abbrev pub goal_allowed : Text → ℤ → Bool
goal_allowed name target = amount_allowed target && leb (length name) name_max

abbrev pub goal_row : Uuid → Uuid → Text → ℤ → Instant → Option NaiveDate → GoalRow
goal_row id user_id name target now target_date = record {
  id = id;
  user_id = user_id;
  name = name;
  target_centavos = target;
  saved_centavos = pos 0;
  created_at = now;
  target_date = target_date;
}

-- The `insert` of a goal whose name is new.
unfoldable pub insert_goal : GoalRow → Database → Result Database
insert_goal goal db = do
  require (has_user db goal.user_id) DbError.foreign_key_violation
  require (not (any (λ g. g.id == goal.id) db.savings_goals)) DbError.unique_violation
  ok (record db { drawn = suc db.drawn; savings_goals = db.savings_goals ++ goal ∷ [] })

-- The row of `EditGoal`: `case when $3 then $4 else name end` and so on.
abbrev pub goal_edited : Option Text → Option ℤ → Option (Option NaiveDate) → GoalRow → GoalRow
goal_edited name target target_date g = record g {
  name = unwrap_or g.name name;
  target_centavos = unwrap_or g.target_centavos target;
  target_date = unwrap_or g.target_date target_date;
}

-- The constraints on the rows that the update touches.
abbrev pub goal_edit_allowed :
    Uuid → Uuid → Option Text → Option ℤ → Option (Option NaiveDate) → List GoalRow → Bool
goal_edit_allowed goal_id user_id name target target_date = all λ g.
    not (goal_matches goal_id user_id g)
    || (let g' = goal_edited name target target_date g in goal_allowed g'.name g'.target_centavos)

module _ (pg : Engine) where
  -- `WriteIntent::CreateGoal`.
  unfoldable pub apply_create_goal : Uuid → Text → ℤ → Option NaiveDate → Database → Result Database
  unfolding insert_goal
  apply_create_goal user_id name target target_date db = do
    let short = truncate name name_max
    let goal = goal_row (pg.random db.drawn) user_id short target db.now target_date
    let inserted = insert_goal goal db
    require (goal_allowed short target) DbError.check_violation
    (if any (same_name pg user_id short) db.savings_goals then ok db else inserted)

  abbrev pub goal_name_free : Uuid → Uuid → Option Text → List GoalRow → Bool
  goal_name_free goal_id user_id none gs = true
  goal_name_free goal_id user_id (some name) gs =
      not (any (goal_matches goal_id user_id) gs)
      || not (any (λ g. not (g.id == goal_id) && same_name pg user_id name g) gs)

  -- `WriteIntent::EditGoal`.
  unfoldable pub apply_edit_goal :
      Uuid → Uuid → Option Text → Option ℤ → Option (Option NaiveDate) → Database → Result Database
  apply_edit_goal user_id goal_id name target target_date db = do
    let short = map_some (λ n. truncate n name_max) name
    let written = do
      require (goal_edit_allowed goal_id user_id short target target_date db.savings_goals)
          DbError.check_violation
      require (goal_name_free goal_id user_id short db.savings_goals) DbError.unique_violation
      ok (record db {
        savings_goals =
            update_where (goal_matches goal_id user_id) (goal_edited short target target_date)
              db.savings_goals;
      })
    (if is_some name || (is_some target || is_some target_date) then written else ok db)

abbrev pub names_goal : Uuid → TransactionRow → Bool
names_goal goal_id t = elim t.goal_id [ none ↦ false | some g ↦ g == goal_id ]

-- `set goal_id = null`
abbrev pub unlink : TransactionRow → TransactionRow
unlink t = record t { goal_id = none }

-- `WriteIntent::DeleteGoal`. The foreign key of `transactions` is `on delete set null`, so a goal
-- that is deleted takes the remaining references with it.
unfoldable pub apply_delete_goal : Uuid → Uuid → Database → Result Database
apply_delete_goal user_id goal_id db =
    let own =
      update_where (λ t. names_goal goal_id t && (t.user_id == user_id)) unlink db.transactions in
    let rest =
      if any (goal_matches goal_id user_id) db.savings_goals
      then update_where (names_goal goal_id) unlink own
      else own in
    ok (record db {
      transactions = rest;
      savings_goals = keep (λ g. not (goal_matches goal_id user_id g)) db.savings_goals;
    })

abbrev pub budget_matches : Uuid → Category → BudgetRow → Bool
budget_matches user_id category b = (b.user_id == user_id) && category_eq b.category category

-- `WriteIntent::SetBudget`, under `budget_limit_positive` and `budget_limit_safe`.
unfoldable pub apply_set_budget : Uuid → Category → ℤ → Database → Result Database
apply_set_budget user_id category limit db = do
  let inserted = do
    require (has_user db user_id) DbError.foreign_key_violation
    ok (record db {
      budgets =
          db.budgets
          ++ record { user_id = user_id; category = category; monthly_limit_centavos = limit } ∷ [];
    })
  let updated : Result Database = ok (record db {
    budgets =
        update_where (budget_matches user_id category)
          (λ b. record b { monthly_limit_centavos = limit }) db.budgets;
  })
  require (amount_allowed limit) DbError.check_violation
  (if any (budget_matches user_id category) db.budgets then updated else inserted)

-- `WriteIntent::RemoveBudget`.
unfoldable pub apply_remove_budget : Uuid → Category → Database → Result Database
apply_remove_budget user_id category db =
    ok (record db { budgets = keep (λ b. not (budget_matches user_id category b)) db.budgets })
