-- ===== src/Db/Transactions/Statements.antt =====
-- The statements that insert a transaction, move a goal's balance and extend the audit trail
-- (crates/db/src/writes.rs).
use andy.Base.{
  ℕ, suc, Bool, true, false, not, ◌&&◌, Option, none, some, List, [], ◌∷◌, ◌++◌, any, length, leb,
  take, ℤ, pos, ◌+ℤ◌, ◌-ℤ◌, ltb_ℤ, leb_ℤ, fits_i64, i64_min, i64_max, Text, ◌==◌, if◌then◌else◌,
}
use andy.Domain.{Uuid}
use andy.Db.Tables.{
  Database, TransactionRow, GoalRow, Snapshot, EventType, DbError, Result, ok, ◌>>=◌, ◌>>◌, require,
  has_user, max_safe_centavos,
}

-- `truncate` of crates/db/src/sql.rs.
unfoldable pub truncate : Text → ℕ → Text
truncate value max = take max value

abbrev pub note_max : ℕ
note_max = 500

abbrev pub account_max : ℕ
account_max = 100

unfoldable pub truncate_note : Text → Text
unfolding truncate
truncate_note value = truncate value note_max

pub record FlushState : Type 0 where
  pub last_inserted_tx_id : Option Uuid
  pub source_message_id : Option Text

-- `char_length(column) <= max`, or the column is null.
abbrev pub length_fits : ℕ → Option Text → Bool
length_fits max none = true
length_fits max (some s) = leb (length s) max

-- `tx_amount_positive` and `tx_amount_safe`.
abbrev pub amount_allowed : ℤ → Bool
amount_allowed a = ltb_ℤ (pos 0) a && leb_ℤ a max_safe_centavos

-- The foreign key on `savings_goals`.
abbrev pub has_goal : Option Uuid → List GoalRow → Bool
has_goal none gs = true
has_goal (some gid) gs = any (λ g. g.id == gid) gs

-- Signed subtraction of the release build, which wraps.
unfoldable pub wrapping_sub : ℤ → ℤ → ℤ
wrapping_sub a b =
    let d = a -ℤ b in
    if ltb_ℤ d i64_min
    then d +ℤ pos 18446744073709551616
    else if ltb_ℤ i64_max d
    then d -ℤ pos 18446744073709551616
    else d

-- `insert into transactions`, with the constraints of the table.
unfoldable pub insert_transaction : TransactionRow → Database → Result Database
insert_transaction row db = do
  require (has_user db row.user_id) DbError.foreign_key_violation
  require (has_goal row.goal_id db.savings_goals) DbError.foreign_key_violation
  require (amount_allowed row.amount_centavos) DbError.check_violation
  require (length_fits note_max row.note) DbError.check_violation
  require (length_fits account_max row.account) DbError.check_violation
  require (not (any (λ t. t.id == row.id) db.transactions)) DbError.unique_violation
  ok (record db { drawn = suc db.drawn; transactions = db.transactions ++ row ∷ [] })

-- The row of a savings goal that an `update` with `id = $1 and user_id = $2` touches.
abbrev pub goal_matches : Uuid → Uuid → GoalRow → Bool
goal_matches goal_id user_id g = (g.id == goal_id) && (g.user_id == user_id)

-- `saved_centavos + $3`: a `bigint` that `saved_centavos_non_negative` admits.
abbrev pub add_balance : ℤ → ℤ → Result ℤ
add_balance saved delta = do
  require (fits_i64 (saved +ℤ delta)) DbError.out_of_range
  require (leb_ℤ (pos 0) (saved +ℤ delta)) DbError.check_violation
  ok (saved +ℤ delta)

-- What `move_goal_balance` gives back: the balance that the update returns, and the new rows.
pub record Moved : Type 0 where
  pub balance : Option ℤ
  pub goals : List GoalRow

-- One row of the update below: it is rewritten if it matches.
unfoldable pub credit : Bool → ℤ → GoalRow → Moved → Result Moved
credit false delta g rest = ok (record rest { goals = g ∷ rest.goals })
credit true delta g rest = do
  saved ← add_balance g.saved_centavos delta
  ok (record { balance = some saved; goals = record g { saved_centavos = saved } ∷ rest.goals })

-- `update savings_goals set saved_centavos = saved_centavos + $3 where id = $1 and user_id = $2
-- returning saved_centavos`.
unfoldable pub add_saved : Uuid → Uuid → ℤ → List GoalRow → Result Moved
unfolding credit
add_saved goal_id user_id delta [] = ok (record { balance = none; goals = [] })
add_saved goal_id user_id delta (g ∷ gs) = do
  rest ← add_saved goal_id user_id delta gs
  credit (goal_matches goal_id user_id g) delta g rest

unfoldable pub record_ledger_event :
    Uuid
    → Option Uuid
    → EventType
    → Option Snapshot
    → Option Snapshot
    → Option Text
    → Database
    → Result Database
record_ledger_event user_id transaction_id event_type before after source db = do
  require (has_user db user_id) DbError.foreign_key_violation
  ok (record db {
    ledger_events =
        db.ledger_events
        ++ record {
          user_id = user_id;
          transaction_id = transaction_id;
          event_type = event_type;
          before = before;
          after = after;
          source_message_id = source;
        }
          ∷ [];
  })

abbrev pub transaction_matches : Uuid → Uuid → TransactionRow → Bool
transaction_matches target_id user_id t = (t.id == target_id) && (t.user_id == user_id)

-- The balance of the transaction's goal moves by `delta`, if it has a goal.
unfoldable pub move_goal_balance : Option Uuid → Uuid → ℤ → List GoalRow → Result Moved
move_goal_balance none user_id delta gs = ok (record { balance = none; goals = gs })
move_goal_balance (some goal_id) user_id delta gs = add_saved goal_id user_id delta gs
