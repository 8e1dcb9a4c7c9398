-- ===== src/Db/Flush/Steps.antt =====
-- The steps that the processes of the bot take on the tables, in any order: flushes of
-- crates/db/src/writes.rs, claims of crates/db/src/queries.rs, the confirmations of
-- crates/db/src/confirmations.rs, the queue and the clean-up of handled messages of
-- crates/db/src/ops.rs.

use andy.Base.{ℕ, ◌≡◌, true, Bool, Option, List, Text, pos, ◌+ℤ◌, leb_ℤ}
use andy.Domain.{Uuid, Instant, WriteIntent}
use andy.Db.Tables.{Engine, Database, ok}
use andy.Db.Confirmations.{
  save_pending_confirmation, cancel_pending_confirmations, reap_pending_confirmations,
}
use andy.Db.Outbox.{
  claim_outbound_by_dedup_key, claim_due_outbound_messages, mark_outbound_sent,
  mark_outbound_failed,
}
use andy.Db.Reapers.{reap_processed_messages}
use andy.Db.Flush.{FlushResult, flush_writes, claim_slot}

pub data Step (pg : Engine) : Database → Database → Type 0 where
  -- time passes between two transactions
  tick : (t : Instant) (db : Database) → Step pg db (record db { now = t })
  flush :
      (m : Option Text) (ws : List WriteIntent) (db : Database) (r : FlushResult) (db' : Database)
      → flush_writes pg m ws db ≡ ok (r, db')
      → Step pg db db'
  claim_message : (m : Text) (t : Instant) (db : Database) → Step pg db (claim_slot m t db).1
  ask :
      (user : Uuid) (phone : Text) (source : Option Text) (summary : Text) (ws : List WriteIntent)
      (t : Instant) (db db' : Database)
      → save_pending_confirmation pg user phone source summary ws t db ≡ ok db'
      → Step pg db db'
  cancel : (user : Uuid) (db : Database) → Step pg db (cancel_pending_confirmations user db).1
  reap : (t : Instant) (db : Database) → Step pg db (reap_pending_confirmations t db).1
  -- as the daily clean-up calls it
  reap_processed :
      (at : Instant) (db : Database) → Step pg db (reap_processed_messages at (pos 3) (pos 24) db).1
  claim_reply : (key : Text) (db : Database) → Step pg db (claim_outbound_by_dedup_key key db).1
  claim_due :
      (t : Instant) (limit : ℕ) (db : Database)
      → Step pg db (claim_due_outbound_messages pg t limit db).1
  mark_sent : (id : Uuid) (db : Database) → Step pg db (mark_outbound_sent id db)
  mark_failed :
      (id : Uuid) (error : Text) (retryable : Bool) (db : Database)
      → Step pg db (mark_outbound_failed id error retryable db)

-- Any number of steps.
pub data Steps (pg : Engine) : Database → Database → Type 0 where
  done : (db : Database) → Steps pg db db
  also : {db db' db'' : Database} → Step pg db db' → Steps pg db' db'' → Steps pg db db''

module _ {pg : Engine} (c : Instant) where
  -- A clean-up of handled messages is for a time at most three days after `c`.
  abbrev pub IsSoon : {db db' : Database} → Step pg db db' → Type 0
  IsSoon (Step.reap_processed at db) = leb_ℤ at (c +ℤ pos 259200000000) ≡ true
  IsSoon s = Unit

  abbrev pub AreSoon : {db db' : Database} → Steps pg db db' → Type 0
  AreSoon (Steps.done db) = Unit
  AreSoon (Steps.also s rest) = IsSoon s × AreSoon rest
