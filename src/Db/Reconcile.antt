-- ===== src/Db/Reconcile.antt =====
-- `reconcile_goal_balances` of crates/db/src/ops.rs: the balances of a user's goals, summed anew.
pub mod Balanced
pub mod Repair
use andy.Base.{
  ℕ, ◌≡◌, Bool, true, false, not, ◌&&◌, ◌||◌, List, [], ◌∷◌, all, keep, length, update_where, map,
  ℤ, pos, ◌+ℤ◌, eqb_ℤ, leb_ℤ, fits_i64, ◌==◌,
}
use andy.Domain.{Uuid}
use andy.Db.Tables.{
  Database, TransactionRow, GoalRow, DbError, Result, ok, err, ◌>>=◌, ◌>>◌, require,
}
use andy.Db.Goals.{names_goal}

abbrev pub sum_amounts : List TransactionRow → ℤ
sum_amounts [] = pos 0
sum_amounts (t ∷ ts) = t.amount_centavos +ℤ sum_amounts ts

-- `coalesce((select sum(amount_centavos) from transactions where goal_id = …), 0)`
abbrev pub goal_total : List TransactionRow → Uuid → ℤ
goal_total ts goal_id = sum_amounts (keep (names_goal goal_id) ts)

-- The user's rows whose balance is not the sum.
abbrev pub is_adrift : Uuid → List TransactionRow → GoalRow → Bool
is_adrift user_id ts g = (g.user_id == user_id) && not (eqb_ℤ g.saved_centavos (goal_total ts g.id))

-- The number of rows that were put right, and the tables after.
unfoldable pub reconcile_goal_balances : Uuid → Database → Result (ℕ × Database)
reconcile_goal_balances user_id db = do
  let adrift = keep (is_adrift user_id db.transactions) db.savings_goals
  require (all (λ g. fits_i64 (goal_total db.transactions g.id)) adrift) DbError.out_of_range
  require (all (λ g. leb_ℤ (pos 0) (goal_total db.transactions g.id)) adrift)
      DbError.check_violation
  ok (
    length adrift,
    record db {
      savings_goals =
          update_where (is_adrift user_id db.transactions)
            (λ g. record g { saved_centavos = goal_total db.transactions g.id }) db.savings_goals;
    },
  )
