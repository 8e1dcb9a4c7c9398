-- ===== src/Db/Transactions/Intents.antt =====
-- The intents on transactions in `apply_write_intent` (crates/db/src/writes.rs).
use andy.Base.{Bool, Option, none, some, map_some, ℤ, Text, if◌then◌else◌}
use andy.Domain.{Uuid, NaiveDate, Category, TxKind}
use andy.Db.Tables.{Engine, Database, TransactionRow, Snapshot, EventType, Result, ok, ◌>>=◌}
use andy.Db.Transactions.Statements.{
  truncate, account_max, truncate_note, FlushState, insert_transaction, record_ledger_event,
  move_goal_balance,
}
use andy.Db.Transactions.Changes.{delete_transaction, edit_transaction}

-- The row that `WriteIntent::Transaction` inserts.
abbrev pub transaction_row :
    Uuid
    → TxKind
    → Uuid
    → ℤ
    → Category
    → Option Text
    → NaiveDate
    → Option Text
    → FlushState
    → TransactionRow
transaction_row tx_id kind user_id amount category note local_date account state = record {
  id = tx_id;
  user_id = user_id;
  kind = kind;
  amount_centavos = amount;
  category = category;
  note = map_some truncate_note note;
  goal_id = none;
  local_date = local_date;
  source_message_id = state.source_message_id;
  account = map_some (λ a. truncate a account_max) account;
}

-- The row that `WriteIntent::GoalContribution` inserts.
abbrev pub contribution_row : Uuid → Uuid → Uuid → ℤ → NaiveDate → FlushState → TransactionRow
contribution_row tx_id user_id goal_id amount local_date state = record {
  id = tx_id;
  user_id = user_id;
  kind = TxKind.expense;
  amount_centavos = amount;
  category = Category.savings_goals;
  note = none;
  goal_id = some goal_id;
  local_date = local_date;
  source_message_id = state.source_message_id;
  account = none;
}

module _ (pg : Engine) where
  -- `WriteIntent::Transaction`.
  unfoldable pub apply_transaction :
      TxKind
      → Uuid
      → ℤ
      → Category
      → Option Text
      → NaiveDate
      → Option Text
      → FlushState
      → Database
      → Result (FlushState × Database)
  apply_transaction kind user_id amount category note local_date account state db = do
    let tx_id = pg.random db.drawn
    db' ←
        insert_transaction
          (transaction_row tx_id kind user_id amount category note local_date account state) db
    db'' ←
        record_ledger_event user_id (some tx_id) EventType.tx_create none
          (some (Snapshot.created kind amount category local_date)) state.source_message_id db'
    ok (record state { last_inserted_tx_id = some tx_id }, db'')

  -- `WriteIntent::GoalContribution`.
  unfoldable pub apply_goal_contribution :
      Uuid → Uuid → ℤ → NaiveDate → FlushState → Database → Result (FlushState × Database)
  apply_goal_contribution user_id goal_id amount local_date state db = do
    let tx_id = pg.random db.drawn
    db' ← insert_transaction (contribution_row tx_id user_id goal_id amount local_date state) db
    moved ← move_goal_balance (some goal_id) user_id amount db'.savings_goals
    let after =
        Snapshot.contributed TxKind.expense amount Category.savings_goals (some goal_id)
          moved.balance local_date
    db'' ←
        record_ledger_event user_id (some tx_id) EventType.tx_create none (some after)
          state.source_message_id (record db' { savings_goals = moved.goals })
    ok (record state { last_inserted_tx_id = some tx_id }, db'')

-- The row that `DeleteLast` and `EditLast` aim at.
abbrev pub target_of : Option Uuid → Bool → FlushState → Option Uuid
target_of target_id same_turn state = if same_turn then state.last_inserted_tx_id else target_id

-- `WriteIntent::DeleteLast`.
unfoldable pub apply_delete_last :
    Uuid → Option Uuid → Bool → FlushState → Database → Result (FlushState × Database)
apply_delete_last user_id target_id same_turn state db =
    elim (target_of target_id same_turn state) [
      | none ↦ ok (state, db)
      | some target ↦ do
        db' ← delete_transaction user_id target state.source_message_id db
        ok ((if same_turn then record state { last_inserted_tx_id = none } else state), db')
    ]

-- `WriteIntent::EditLast`.
unfoldable pub apply_edit_last :
    Uuid
    → Option Uuid
    → Bool
    → Option ℤ
    → Option Category
    → Option Text
    → FlushState
    → Database
    → Result (FlushState × Database)
apply_edit_last user_id target_id same_turn amount category note state db =
    elim (target_of target_id same_turn state) [
      | none ↦ ok (state, db)
      | some target ↦ do
        db' ← edit_transaction user_id target amount category note state.source_message_id db
        ok (state, db')
    ]
