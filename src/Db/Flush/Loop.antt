-- ===== src/Db/Flush/Loop.antt =====
-- What every intent of a flush keeps, the whole flush keeps (`flush_writes` of
-- crates/db/src/writes.rs).
use andy.Base.{
  ◌≡◌, Option, none, some, List, [], ◌∷◌, All, Text, inl, inr, Bool-cases, Option-cases,
}
use andy.Domain.{WriteIntent}
use andy.Db.Tables.{Engine, Database, Ensures, Ensures-bind}
use andy.Db.Transactions.{FlushState}
use andy.Db.Flush.{apply_write_intent, apply_all, finish, flush_writes, complete_message}

-- What the loop leaves, if it does not call for a rollback.
abbrev pub Leaves : (Database → Type 0) → Option Database → Type 0
Leaves P none = Unit
Leaves P (some db) = P db

-- For a step that asks nothing of the intents.
pub always : (ws : List WriteIntent) → All (λ w. Unit {0}) ws
always [] = tt
always (w ∷ ws) = (tt, always ws)

-- `P` is kept by the intents that are `Good`, and by the completion of a message.
module _ (pg : Engine) (P : Database → Type 0) (Good : WriteIntent → Type 0)
    (step : (w : WriteIntent) (s : FlushState) (db : Database)
      → Good w
      → P db
      → Ensures (λ a. P a.db) (apply_write_intent pg w s db)) where
  pub apply_all-keeps :
      (ws : List WriteIntent) (s : FlushState) (db : Database)
      → All Good ws
      → P db
      → Ensures (Leaves P) (apply_all pg ws s db)
  unfolding apply_all
  apply_all-keeps [] s db g h = h
  apply_all-keeps (w ∷ ws) s db g h =
      Ensures-bind (λ a. P a.db) (Leaves P) (apply_write_intent pg w s db) _ (step w s db g.0 h)
        λ a k. elim (Bool-cases a.proceed) [
          | inl e ↦ rw e (apply_all-keeps ws a.state a.db g.1 k)
          | inr e ↦ rw e tt
        ]

  module _
      (completed : (m : Text) (db db' : Database)
        → complete_message m db ≡ some db'
        → P db
        → P db') where
    finish-keeps :
        (old : Database) (m : Option Text) (r : Option Database)
        → P old
        → Leaves P r
        → P (finish old m r).1
    finish-keeps old m none h l = h
    finish-keeps old none (some db) h l = l
    finish-keeps old (some m) (some db) h l = elim (Option-cases (complete_message m db)) [
      | inl e ↦ rw (e, finish) h
      | inr (db', e) ↦ rw (e, finish) (completed m db db' e l)
    ]

    pub flush_writes-keeps :
        (m : Option Text) (ws : List WriteIntent) (db : Database)
        → All Good ws
        → P db
        → Ensures (λ r. P r.1) (flush_writes pg m ws db)
    unfolding flush_writes
    flush_writes-keeps m ws db g h =
        Ensures-bind (Leaves P) (λ r. P r.1) _ _ (apply_all-keeps ws _ db g h)
          λ r l. finish-keeps db m r h l
