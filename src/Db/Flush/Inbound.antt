-- ===== src/Db/Flush/Inbound.antt =====
-- An inbound message is handled once: `claim_slot` of crates/db/src/queries.rs and the end of
-- `flush_writes` of crates/db/src/writes.rs.
pub mod Rows
pub mod Done
use andy.Base.{
  ℕ, ◌≡◌, refl, Bool, true, false, not, ◌&&◌, Option, none, some, List, [], ◌∷◌, ◌++◌, any, keep,
  update_where, arith, ℤ, Text, text_eq, text_eq_refl, text_eq_sound, ◌==◌, sym, ◌∙◌, ap,
  if◌then◌else◌, inl, inr, Bool-cases, Option-cases, leb_ℤ, ◌+ℤ◌,
}
use andy.Domain.{Uuid, Instant, WriteIntent}
use andy.Db.Tables.{
  Engine, Database, ProcessedRow, MessageStatus, Result, ok, err, Ensures, Ensures-ok, Ensures-bind,
  require, ◌>>◌, ◌>>=◌, has_user,
}
use andy.Db.Confirmations.{
  save_pending_confirmation, cancel_pending_confirmations, reap_pending_confirmations,
}
use andy.Db.Outbox.{
  claim_outbound_by_dedup_key, claim_due_outbound_messages, mark_outbound_sent,
  mark_outbound_failed,
}
use andy.Db.Transactions.{FlushState}
use andy.Db.Flush.{
  FlushResult, ClaimResult, flush_writes, apply_write_intent, apply_all, finish, claim_slot,
  complete_message, complete_if_any, is_message, claimed_message, stale_claim,
}
use andy.Db.Flush.Inbound.Rows
use andy.Db.Flush.Steps.{Step, Steps}
use andy.Db.Flush.Quiet.{Quiet, apply_write_intent-Quiet}
use andy.Db.Flush.Loop.{Leaves}

abbrev pub CompletedIn : Text → List ProcessedRow → Type 0
CompletedIn m ps = (any (is_message m) ps ≡ true) × (any (claimed_message m) ps ≡ false)

-- The message is there, and no longer claimed.
abbrev pub Completed : Text → Database → Type 0
Completed m db = CompletedIn m db.processed_messages

abbrev pub completed_row : Text → Database → ProcessedRow
completed_row n db = record {
  message_id = n;
  status = MessageStatus.completed;
  claimed_at = db.now;
  completed_at = some db.now;
}

abbrev pub claimed_row : Text → Instant → ProcessedRow
claimed_row n t = record {
  message_id = n;
  status = MessageStatus.claimed;
  claimed_at = t;
  completed_at = none;
}

module _ (m : Text) where
  -- A message that is not there is another one.
  other :
      (n : Text) (ps : List ProcessedRow)
      → any (is_message m) ps ≡ true
      → any (is_message n) ps ≡ false
      → text_eq n m ≡ false
  other n ps h k = elim (Bool-cases (text_eq n m)) [
    | inl e ↦ (let same = text_eq_sound n m e in let f = (rw same at k) in cc)
    | inr e ↦ e
  ]

  pub complete_message-Completed :
      (n : Text) (db : Database) {db' : Database}
      → complete_message n db ≡ some db'
      → Completed m db
      → Completed m db'
  unfolding complete_message
  complete_message-Completed n db e h = ground (
    arith,
    h.0,
    h.1,
    Rows.completing-there m n db.now db.processed_messages,
    Rows.completing-unclaimed m n db.now db.processed_messages h.1,
    Rows.any-append m (is_message m) db.processed_messages (completed_row n db),
    Rows.any-append m (claimed_message m) db.processed_messages (completed_row n db),
  )

  pub complete_message-completes :
      (db : Database) {db' : Database} → complete_message m db ≡ some db' → Completed m db'
  unfolding complete_message
  complete_message-completes db e = ground (
    arith,
    text_eq_refl m,
    Rows.completing-there m m db.now db.processed_messages,
    Rows.completing-own m db.now db.processed_messages,
    Rows.claimed-there m db.processed_messages,
    Rows.any-append m (is_message m) db.processed_messages (completed_row m db),
    Rows.any-append m (claimed_message m) db.processed_messages (completed_row m db),
  )

  pub complete_message-refuses : (db : Database) → Completed m db → complete_message m db ≡ none
  unfolding complete_message
  complete_message-refuses db h = ground (arith, h.0, h.1)

  pub claim_slot-Completed :
      (n : Text) (t : Instant) (db : Database) → Completed m db → Completed m (claim_slot n t db).1
  unfolding claim_slot
  claim_slot-Completed n t db h = ground (
    arith,
    h.0,
    h.1,
    other n db.processed_messages h.0,
    Rows.reclaiming-there m n t t db.processed_messages,
    Rows.reclaiming-unclaimed m n t t db.processed_messages h.1,
    Rows.any-append m (is_message m) db.processed_messages (claimed_row n t),
    Rows.any-append m (claimed_message m) db.processed_messages (claimed_row n t),
  )

  pub claim_slot-skips :
      (t : Instant) (db : Database) → Completed m db → claim_slot m t db ≡ (ClaimResult.skip, db)
  unfolding claim_slot
  claim_slot-skips t db h = ground (arith, h.0, Rows.unclaimed-fresh m t db.processed_messages h.1)
