-- ===== src/Db/Reconcile/Balanced.antt =====
-- The balances that flushes keep are the ones that crates/db/src/ops.rs would compute anew.
use andy.Base.{
  ◌≡◌, refl, sym, ◌∙◌, false, Option, List, [], ◌∷◌, All, keep, update_where, pos, +ℤ_zero, +ℤ_comm,
  eqb_ℤ_iff, Bool-cases, inl, inr, arith, if◌then◌else◌, Text,
}
use andy.Domain.{Uuid, WriteIntent}
use andy.Db.Tables.{Engine, Database, TransactionRow, GoalRow, ok, Ensures, Ensures-map}
use andy.Db.Goals.{names_goal}
use andy.Db.Ledger.Balance.{contribution, contributed, Agrees}
use andy.Db.Ledger.GoalRows.{IsBook}
use andy.Db.Flush.{flush_writes}
use andy.Db.Flush.Book.{AllFor}
use andy.Db.Flush.Balances.{flush_writes-IsBook}
use andy.Db.Reconcile.{goal_total, is_adrift, reconcile_goal_balances}

contribution-named :
    (id : Uuid) (t : TransactionRow)
    → contribution id t ≡ (if names_goal id t then t.amount_centavos else pos 0)
contribution-named id t = ground arith

-- The sum over the named transactions is the sum of the contributions.
pub goal_total-contributed :
    (ts : List TransactionRow) (id : Uuid) → goal_total ts id ≡ contributed ts id
goal_total-contributed [] id = refl
goal_total-contributed (t ∷ ts) id = elim (Bool-cases (names_goal id t)) [
  | inl e ↦ ground (arith, e, contribution-named id t, goal_total-contributed ts id)
  | inr e ↦ ground (
    arith,
    e,
    contribution-named id t,
    goal_total-contributed ts id,
    +ℤ_comm (pos 0) (contributed ts id),
    +ℤ_zero (contributed ts id),
  )
]

Agrees-still :
    (user : Uuid) (ts : List TransactionRow) (g : GoalRow)
    → Agrees user (contributed ts) g
    → is_adrift user ts g ≡ false
Agrees-still user ts g h = ground (
  arith,
  (eqb_ℤ_iff g.saved_centavos (goal_total ts g.id)).1
      (h.balanced ∙ sym (goal_total-contributed ts g.id)),
)

none_adrift :
    (user : Uuid) (ts : List TransactionRow) (gs : List GoalRow)
    → All (Agrees user (contributed ts)) gs
    → (keep (is_adrift user ts) gs ≡ [])
      × (update_where (is_adrift user ts) (λ g. record g { saved_centavos = goal_total ts g.id }) gs
          ≡ gs)
none_adrift user ts [] h = (refl, refl)
none_adrift user ts (g ∷ gs) h =
    (let k = none_adrift user ts gs h.1 in
      let s = Agrees-still user ts g h.0 in (ground (arith, s, k.0), ground (arith, s, k.1)))

-- Summing anew finds nothing to put right in a ledger that is well formed.
pub reconcile_goal_balances-IsBook :
    (user : Uuid) (db : Database) → IsBook user db → reconcile_goal_balances user db ≡ ok (0, db)
unfolding reconcile_goal_balances
reconcile_goal_balances-IsBook user db b =
    (let k = none_adrift user db.transactions db.savings_goals b.balanced.goals in
      rw k.0 (rw k.1 refl))

-- After any flush of the user's intents, the nightly repair finds every balance right and changes
-- nothing: the balances that the flush moves step by step are those that are summed anew. At the
-- start the ledger is well formed and all goals are the user's.
pub flush_writes-reconciled :
    (pg : Engine) (user : Uuid) (m : Option Text) (ws : List WriteIntent) (db : Database)
    → AllFor user ws
    → IsBook user db
    → Ensures (λ r. reconcile_goal_balances user r.1 ≡ ok (0, r.1)) (flush_writes pg m ws db)
flush_writes-reconciled pg user m ws db f b =
    Ensures-map (λ r. IsBook user r.1) _ (flush_writes pg m ws db)
      (λ r k. reconcile_goal_balances-IsBook user r.1 k) (flush_writes-IsBook pg user m ws db f b)
