-- ===== src/Db/Reconcile/Repair.antt =====
-- What `reconcile_goal_balances` of crates/db/src/ops.rs makes of balances that have drifted.
use andy.Base.{
  ℕ, ◌≡◌, ◌∙◌, false, List, [], ◌∷◌, All, all, keep, update_where, pos, eqb_ℤ_iff, leb_ℤ, fits_i64,
  ==_iff, Bool-cases, inl, inr, arith,
}
use andy.Domain.{Uuid}
use andy.Db.Tables.{Database, TransactionRow, GoalRow, DbError, Ensures, Ensures-require}
use andy.Db.Ledger.Balance.{contributed, Agrees}
use andy.Db.Reconcile.{goal_total, is_adrift, reconcile_goal_balances}
use andy.Db.Reconcile.Balanced.{goal_total-contributed}

abbrev pub Owned : Uuid → GoalRow → Type 0
Owned user g = g.user_id ≡ user

settled_balance :
    (user : Uuid) (ts : List TransactionRow) (g : GoalRow)
    → Owned user g
    → is_adrift user ts g ≡ false
    → g.saved_centavos ≡ goal_total ts g.id
settled_balance user ts g o e =
    (eqb_ℤ_iff g.saved_centavos (goal_total ts g.id)).0
      (ground (arith, e, (==_iff g.user_id user).1 o))

repaired :
    (user : Uuid) (ts : List TransactionRow) (gs : List GoalRow)
    → All (Owned user) gs
    → All (Agrees user (contributed ts)) (
        update_where (is_adrift user ts) (λ g. record g { saved_centavos = goal_total ts g.id }) gs)
repaired user ts [] h = tt
repaired user ts (g ∷ gs) h = elim (Bool-cases (is_adrift user ts g)) [
  | inl e ↦
      rw e
        (record { owned = h.0; balanced = goal_total-contributed ts g.id }, repaired user ts gs h.1)
  | inr e ↦ rw e (
    record {
      owned = h.0;
      balanced = settled_balance user ts g h.0 e ∙ goal_total-contributed ts g.id;
    },
    repaired user ts gs h.1,
  )
]

abbrev pub Repaired : Uuid → ℕ × Database → Type 0
Repaired user r = All (Agrees user (contributed r.1.transactions)) r.1.savings_goals

-- Summing anew, if no sum breaks a constraint of the schema, leaves every balance of the user equal
-- to the sum of the transactions that name the goal, whatever the balances were. All goals are the
-- user's.
pub reconcile_goal_balances-repairs :
    (user : Uuid) (db : Database)
    → All (Owned user) db.savings_goals
    → Ensures (Repaired user) (reconcile_goal_balances user db)
unfolding reconcile_goal_balances
reconcile_goal_balances-repairs user db h =
    (let adrift = keep (is_adrift user db.transactions) db.savings_goals in
      Ensures-require (Repaired user) (all (λ g. fits_i64 (goal_total db.transactions g.id)) adrift)
        DbError.out_of_range _
        λ fits.
          Ensures-require (Repaired user)
            (all (λ g. leb_ℤ (pos 0) (goal_total db.transactions g.id)) adrift)
            DbError.check_violation _ λ positive. repaired user db.transactions db.savings_goals h)
