-- ===== src/Db/Ledger/Operations.antt =====
-- Inserting, deleting and editing a transaction keep the ledger well formed.
use andy.Base.{
  suc, ◌≡◌, ◌∙◌, false, Option, none, some, List, [], ◌∷◌, ◌++◌, All, All-insert, All-keep, find, ℤ,
  pos, ◌+ℤ◌, ◌-ℤ◌, +ℤ_zero, int_laws, arith, ◌==◌, Bool-cases, Option-cases, inl, inr, Text,
}
use andy.Domain.{Uuid, Category, NaiveDate, TxKind}
use andy.Db.Tables.{
  has_user, Engine, Database, TransactionRow, GoalRow, ok, DbError, Ensures, Ensures-bind,
  Ensures-require, Snapshot, EventType, LedgerEvent,
}
use andy.Db.Transactions.{
  FlushState, transaction_row, contribution_row, insert_transaction, move_goal_balance,
  record_ledger_event, delete_transaction, apply_transaction, apply_goal_contribution,
  transaction_matches,
}
use andy.Db.Ledger.Sums.{
  delete_rows, has_id, sum_by-insert, sum_by-delete, Distinct-insert, Distinct-delete,
}
use andy.Db.Ledger.Balance.{
  moved_part, contribution, contributed, Agrees, Allowed, IsLedger, WellFormed, Agrees-same,
  move_goal_balance-Agrees,
}

-- What an insertion that succeeds has done and checked.
pub record Inserted (row : TransactionRow) (db db' : Database) : Type 0 where
  pub result : db' ≡ record db { drawn = suc db.drawn; transactions = db.transactions ++ row ∷ [] }
  pub allowed : Allowed row
  pub fresh : has_id row.id db.transactions ≡ false

pub insert_transaction-Inserted :
    (row : TransactionRow) (db : Database) → Ensures (Inserted row db) (insert_transaction row db)
unfolding insert_transaction
insert_transaction-Inserted row db = ground arith

-- The audit trail is no part of the invariant.
pub record_ledger_event-Ensures :
    (P : Database → Type 0) (user : Uuid) (id : Option Uuid) (type : EventType)
    (before after : Option Snapshot) (source : Option Text) (db : Database)
    → ((e : List LedgerEvent) → P (record db { ledger_events = e }))
    → Ensures P (record_ledger_event user id type before after source db)
unfolding record_ledger_event
record_ledger_event-Ensures P user id type before after source db h =
    Ensures-require P (has_user db user) DbError.foreign_key_violation (ok _) λ e. h _

IsLedger-insert :
    (user : Uuid) (row : TransactionRow) (ts : List TransactionRow) {gs gs' : List GoalRow}
    → IsLedger user ts gs
    → Allowed row
    → has_id row.id ts ≡ false
    → All (Agrees user (contributed (ts ++ row ∷ []))) gs'
    → IsLedger user (ts ++ row ∷ []) gs'
IsLedger-insert user row ts wf a f h = record {
  distinct = Distinct-insert ts row wf.distinct f;
  allowed = All-insert Allowed ts row wf.allowed a;
  goals = h;
}

-- The sums after an insertion.
contributed-insert :
    (ts : List TransactionRow) (row : TransactionRow) (id : Uuid)
    → contributed (ts ++ row ∷ []) id
      ≡ contributed ts id +ℤ moved_part row.goal_id row.amount_centavos id
contributed-insert ts row id = sum_by-insert (contribution id) ts row

module _ (pg : Engine) (user : Uuid) where
  pub apply_transaction-WellFormed :
      (kind : TxKind) (amount : ℤ) (category : Category) (memo : Option Text) (date : NaiveDate)
      (account : Option Text) (state : FlushState) (db : Database)
      → WellFormed user db
      → Ensures
          (λ r. WellFormed user r.1)
          (apply_transaction pg kind user amount category memo date account state db)
  unfolding apply_transaction
  apply_transaction-WellFormed kind amount category memo date account state db wf =
      let row =
        transaction_row (pg.random db.drawn) kind user amount category memo date account state in
      Ensures-bind (Inserted row db) (λ r. WellFormed user r.1) (insert_transaction row db) _
        (insert_transaction-Inserted row db)
        λ db' i.
          Ensures-bind (WellFormed user) (λ r. WellFormed user r.1) _ _
            (record_ledger_event-Ensures (WellFormed user) user _ EventType.tx_create none _ _ db'
              λ e. rw i.result (
                IsLedger-insert user row db.transactions wf i.allowed i.fresh (
                  Agrees-same user _ _ db.savings_goals
                    (λ id. contributed-insert db.transactions row id ∙ +ℤ_zero _) wf.goals)))
            λ a p. p

  pub apply_goal_contribution-WellFormed :
      (goal : Uuid) (amount : ℤ) (date : NaiveDate) (state : FlushState) (db : Database)
      → WellFormed user db
      → Ensures
          (λ r. WellFormed user r.1)
          (apply_goal_contribution pg user goal amount date state db)
  unfolding apply_goal_contribution
  apply_goal_contribution-WellFormed goal amount date state db wf =
      let row = contribution_row (pg.random db.drawn) user goal amount date state in
      let ts = db.transactions ++ row ∷ [] in
      Ensures-bind (Inserted row db) (λ r. WellFormed user r.1) (insert_transaction row db) _
        (insert_transaction-Inserted row db)
        λ db' i. rw i.result (
          Ensures-bind (λ m. All (Agrees user (contributed ts)) m.goals) (λ r. WellFormed user r.1)
            (move_goal_balance (some goal) user amount db.savings_goals) _
            (move_goal_balance-Agrees user (contributed db.transactions) (contributed ts)
              (some goal) amount db.savings_goals (contributed-insert db.transactions row) wf.goals)
            λ m agree.
              Ensures-bind (WellFormed user) (λ r. WellFormed user r.1) _ _
                (record_ledger_event-Ensures (WellFormed user) user _ EventType.tx_create none _ _ _
                  λ e. IsLedger-insert user row db.transactions wf i.allowed i.fresh agree)
                λ a p. p)

-- A sum that loses `b` has moved by its opposite.
moved_back :
    (goal : Option Uuid) (amount : ℤ) (id : Uuid) (a c : ℤ)
    → a +ℤ moved_part goal amount id ≡ c
    → a ≡ c +ℤ moved_part goal (pos 0 -ℤ amount) id
moved_back none amount id a c h = rw (← h) (omega int_laws)
moved_back (some goal) amount id a c h = elim (Bool-cases (goal == id)) [
  | inl e ↦ rw e (rw (← (rw e at h)) (omega int_laws))
  | inr e ↦ rw e (rw (← (rw e at h)) (omega int_laws))
]

pub delete_transaction-WellFormed :
    (user target : Uuid) (source : Option Text) (db : Database)
    → WellFormed user db
    → Ensures (WellFormed user) (delete_transaction user target source db)
unfolding delete_transaction
delete_transaction-WellFormed user target source db wf =
    elim (Option-cases (find (transaction_matches target user) db.transactions)) [
      | inl e ↦ rw (e, delete_transaction) wf
      | inr (row, e) ↦
          rw (e, delete_transaction)
            (Ensures-bind
              (λ m.
                All (Agrees user (contributed (delete_rows target user db.transactions))) m.goals)
              (WellFormed user)
              (move_goal_balance row.goal_id user (pos 0 -ℤ row.amount_centavos) db.savings_goals) _
              (move_goal_balance-Agrees user (contributed db.transactions) _ row.goal_id _
                db.savings_goals
                (λ id.
                  moved_back row.goal_id row.amount_centavos id _ _
                    (sum_by-delete (contribution id) target user db.transactions wf.distinct e))
                wf.goals)
              λ m agree.
                record_ledger_event-Ensures (WellFormed user) user _ EventType.tx_delete _ none
                  source _
                  λ ev. record {
                    distinct = Distinct-delete target user db.transactions wf.distinct;
                    allowed = All-keep Allowed _ db.transactions wf.allowed;
                    goals = agree;
                  })
    ]
