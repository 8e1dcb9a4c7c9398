-- ===== src/Db/Transactions/Changes.antt =====
-- `delete_transaction` and `edit_transaction` of crates/db/src/writes.rs.
use andy.Base.{
  Bool, false, not, ◌||◌, Option, none, some, keep, find, update_where, is_some, unwrap_or, ℤ, pos,
  ◌-ℤ◌, eqb_ℤ, Text, if◌then◌else◌,
}
use andy.Domain.{Uuid, Category}
use andy.Db.Tables.{
  Database, TransactionRow, Snapshot, EventType, DbError, Result, ok, ◌>>=◌, ◌>>◌, require,
}
use andy.Db.Transactions.Statements.{
  note_max, truncate_note, length_fits, amount_allowed, wrapping_sub, record_ledger_event,
  transaction_matches, move_goal_balance,
}

unfoldable pub delete_transaction : Uuid → Uuid → Option Text → Database → Result Database
delete_transaction user_id target_id source db =
    elim (find (transaction_matches target_id user_id) db.transactions) [
      | none ↦ ok db
      | some row ↦ do
        moved ←
            move_goal_balance row.goal_id user_id (pos 0 -ℤ row.amount_centavos) db.savings_goals
        let before =
            Snapshot.contributed row.kind row.amount_centavos row.category row.goal_id moved.balance
              row.local_date
        record_ledger_event user_id (some target_id) EventType.tx_delete (some before) none source
            (record db {
              savings_goals = moved.goals;
              transactions =
                  keep (λ t. not (transaction_matches target_id user_id t)) db.transactions;
            })
    ]

-- The columns that `edit_transaction` writes, and the constraints on them.
abbrev pub edited : Option ℤ → Option Category → Option Text → TransactionRow → TransactionRow
edited amount category note t = record t {
  amount_centavos = unwrap_or t.amount_centavos amount;
  category = unwrap_or t.category category;
  note = elim note [ none ↦ t.note | some n ↦ some (truncate_note n) ];
}

-- The test that decides whether an edit moves a goal's balance.
abbrev pub balance_change : Option ℤ → ℤ → ℤ
balance_change none old = pos 0
balance_change (some new) old = if eqb_ℤ new old then pos 0 else wrapping_sub new old

abbrev pub amount_changes : Option ℤ → ℤ → Bool
amount_changes none old = false
amount_changes (some new) old = not (eqb_ℤ new old)

-- The `update transactions` of an edit of `row`, and its audit event.
unfoldable pub write_edit :
    Uuid
    → Uuid
    → Option ℤ
    → Option Category
    → Option Text
    → TransactionRow
    → Option ℤ
    → Option Text
    → Database
    → Result Database
write_edit user_id target_id amount category note row balance source db = do
  let new = edited amount category note row
  let before = Snapshot.edit_before row.amount_centavos row.category row.goal_id
  let after = Snapshot.edit_after new.amount_centavos new.category row.goal_id balance
  require (amount_allowed new.amount_centavos) DbError.check_violation
  require (length_fits note_max new.note) DbError.check_violation
  record_ledger_event user_id (some target_id) EventType.tx_edit (some before) (some after) source
      (record db {
        transactions =
            update_where (transaction_matches target_id user_id) (edited amount category note)
              db.transactions;
      })

-- A contribution to a goal keeps its category.
abbrev pub effective_category : TransactionRow → Option Category → Option Category
effective_category row category = if is_some row.goal_id then none else category

-- `edit_transaction` at the row that it selects.
unfoldable pub edit_row :
    Uuid
    → Uuid
    → Option ℤ
    → Option Category
    → Option Text
    → Option Text
    → Database
    → TransactionRow
    → Result Database
edit_row user_id target_id amount category note source db row = do
  moved ←
      move_goal_balance (if amount_changes amount row.amount_centavos then row.goal_id else none)
        user_id (balance_change amount row.amount_centavos) db.savings_goals
  let db' = record db { savings_goals = moved.goals }
  let effective = effective_category row category
  let written = write_edit user_id target_id amount effective note row moved.balance source db'
  (if is_some amount || (is_some effective || is_some note) then written else ok db')

unfoldable pub edit_transaction :
    Uuid
    → Uuid
    → Option ℤ
    → Option Category
    → Option Text
    → Option Text
    → Database
    → Result Database
unfolding edit_row
edit_transaction user_id target_id amount category note source db =
    elim (find (transaction_matches target_id user_id) db.transactions) [
      | none ↦ ok db
      | some row ↦ edit_row user_id target_id amount category note source db row
    ]
