-- ===== src/Db/Flush/Balances.antt =====
-- The goal balances after any flush of crates/db/src/writes.rs.
use andy.Base.{◌≡◌, Option, some, List, Text, arith}
use andy.Domain.{Uuid, WriteIntent}
use andy.Db.Tables.{Engine, Database, Ensures}
use andy.Db.Ledger.GoalRows.{IsBook}
use andy.Db.Flush.{flush_writes, complete_message}
use andy.Db.Flush.Loop.{flush_writes-keeps}
use andy.Db.Flush.Book.{intent_user, AllFor, IsBook-same, apply_write_intent-IsBook}

complete_message-ledger :
    (m : Text) (db : Database) {db' : Database}
    → complete_message m db ≡ some db'
    → (db'.transactions ≡ db.transactions) × (db'.savings_goals ≡ db.savings_goals)
unfolding complete_message
complete_message-ledger m db e = ground arith

complete_message-IsBook :
    (user : Uuid) (m : Text) (db db' : Database)
    → complete_message m db ≡ some db'
    → IsBook user db
    → IsBook user db'
complete_message-IsBook user m db db' e b =
    (let (ts, gs) = complete_message-ledger m db e in IsBook-same user db _ ts gs b)

-- A flush of a user's intents keeps the user's ledger well formed, whether it commits or is rolled
-- back: identifiers stand once, amounts are within the constraints of the schema, every goal's
-- balance is the sum of the transactions that name it, and every goal that a transaction names
-- exists. At the start the ledger is well formed and all goals are the user's.
pub flush_writes-IsBook :
    (pg : Engine) (user : Uuid) (m : Option Text) (ws : List WriteIntent) (db : Database)
    → AllFor user ws
    → IsBook user db
    → Ensures (λ r. IsBook user r.1) (flush_writes pg m ws db)
flush_writes-IsBook pg user m ws db f b =
    flush_writes-keeps pg (IsBook user) (λ w. intent_user w ≡ user)
      (λ w s db g k. apply_write_intent-IsBook user s db k pg w g) (complete_message-IsBook user) m
      ws db f b
