-- ===== src/Db/Flush/Frame.antt =====
-- What the intents of a flush (crates/db/src/writes.rs) leave alone.
use andy.Base.{
  ◌≡◌, Bool, true, false, Option, List, [], ◌∷◌, ◌++◌, any, update_where, ◌==◌, ℤ, Text, arith,
  trim, ◌&&◌,
}
use andy.Domain.{
  Uuid, NaiveDate, Instant, Category, TxKind, MessageRole, MemoryKind, RecurringInput, Cadence,
}
use andy.Db.Tables.{
  Engine, Database, TransactionRow, OutboundRow, OutboundStatus, EventType, Snapshot, Ensures,
}
use andy.Db.Transactions.{
  truncate, FlushState, apply_transaction, apply_goal_contribution, apply_delete_last,
  apply_edit_last, insert_transaction, record_ledger_event, delete_transaction, edit_transaction,
  write_edit, edit_row,
}
use andy.Db.Goals.{
  apply_create_goal, apply_edit_goal, apply_delete_goal, apply_set_budget, apply_remove_budget,
}
use andy.Db.Memories.{insert_memory, save_memory_in_tx, forget_memory_in_tx}
use andy.Db.Recurring.{apply_add_recurring, apply_remove_recurring, apply_edit_recurring}
use andy.Db.Outbox.{
  new_outbound_row, has_key, refresh, clean_key, outbound_content_max, save_outbound_reply_in_tx,
}
use andy.Db.Confirmations.{phone_max}
use andy.Db.Flush.{apply_save_turn, apply_transfer}

abbrev pub is_sent : OutboundStatus → Bool
is_sent OutboundStatus.sent = true
is_sent OutboundStatus.pending = false
is_sent OutboundStatus.sending = false
is_sent OutboundStatus.failed = false

abbrev pub sent_row : Uuid → OutboundRow → Bool
sent_row id o = (o.id == id) && is_sent o.status

-- The reply `id` was sent.
abbrev pub Sent : Uuid → Database → Type 0
Sent id db = any (sent_row id) db.outbound_messages ≡ true

-- The users, the confirmations and the inbound messages stay, and a reply that was sent stays sent.
pub record Keeps (db db' : Database) : Type 0 where
  pub now : db'.now ≡ db.now
  pub users : db'.users ≡ db.users
  pub confirmations : db'.pending_confirmations ≡ db.pending_confirmations
  pub processed : db'.processed_messages ≡ db.processed_messages
  pub sent : (id : Uuid) → Sent id db → Sent id db'

-- The ledger stays too.
pub record KeepsLedger (db db' : Database) : Type 0 where
  pub rest : Keeps db db'
  pub transactions : db'.transactions ≡ db.transactions
  pub goals : db'.savings_goals ≡ db.savings_goals

pub apply_transfer-Keeps :
    (user : Uuid) (amount : ℤ) (from to memo : Option Text) (date : NaiveDate) (s : FlushState)
    (db : Database)
    → Ensures (KeepsLedger db) (apply_transfer user amount from to memo date s db)
unfolding apply_transfer
apply_transfer-Keeps user amount from to memo date s db = ground arith

pub apply_save_turn-Keeps :
    (user : Uuid) (role : MessageRole) (content : Text) (db : Database)
    → Ensures (KeepsLedger db) (apply_save_turn user role content db)
unfolding apply_save_turn
apply_save_turn-Keeps user role content db = ground arith

pub apply_set_budget-Keeps :
    (user : Uuid) (category : Category) (limit : ℤ) (db : Database)
    → Ensures (KeepsLedger db) (apply_set_budget user category limit db)
unfolding apply_set_budget
apply_set_budget-Keeps user category limit db = ground arith

pub apply_remove_budget-Keeps :
    (user : Uuid) (category : Category) (db : Database)
    → Ensures (KeepsLedger db) (apply_remove_budget user category db)
unfolding apply_remove_budget
apply_remove_budget-Keeps user category db = ground arith

refreshed-Sent :
    (phone content : Text) (key : Option Text) (now : Instant) (os : List OutboundRow) (id : Uuid)
    → any (sent_row id) os ≡ true
    → any (sent_row id) (update_where (has_key key) (refresh phone content now) os) ≡ true
refreshed-Sent phone content key now [] id h = h
refreshed-Sent phone content key now (o ∷ os) id h =
    ground (arith, refreshed-Sent phone content key now os id)

appended-Sent :
    (os : List OutboundRow) (o : OutboundRow) (id : Uuid)
    → any (sent_row id) os ≡ true
    → any (sent_row id) (os ++ o ∷ []) ≡ true
appended-Sent [] o id h = cc
appended-Sent (p ∷ os) o id h = ground (arith, appended-Sent os o id)

module _ (pg : Engine) where
  pub save_outbound_reply-Keeps :
      (user : Uuid) (phone content : Text) (key : Option Text) (db : Database)
      → Ensures (KeepsLedger db) (save_outbound_reply_in_tx pg user phone content key db)
  unfolding save_outbound_reply_in_tx
  save_outbound_reply-Keeps user phone content key db = ground (
    arith,
    refreshed-Sent (truncate (trim phone) phone_max) (truncate (trim content) outbound_content_max)
        (clean_key key) db.now db.outbound_messages,
    appended-Sent db.outbound_messages (
        new_outbound_row (pg.random db.drawn) user (truncate (trim phone) phone_max)
          (truncate (trim content) outbound_content_max) (clean_key key) db.now),
  )

  pub save_memory-Keeps :
      (user : Uuid) (content : Text) (kind : MemoryKind) (db : Database)
      → Ensures (KeepsLedger db) (save_memory_in_tx pg user content kind db)
  unfolding save_memory_in_tx insert_memory
  save_memory-Keeps user content kind db = ground arith

  pub forget_memory-Keeps :
      (user : Uuid) (query : Text) (db : Database)
      → Ensures (KeepsLedger db) (forget_memory_in_tx pg user query db)
  unfolding forget_memory_in_tx
  forget_memory-Keeps user query db = ground arith

  pub add_recurring-Keeps :
      (user : Uuid) (input : RecurringInput) (db : Database)
      → Ensures (KeepsLedger db) (apply_add_recurring pg user input db)
  unfolding apply_add_recurring
  add_recurring-Keeps user input db = ground arith

  pub remove_recurring-Keeps :
      (user : Uuid) (query : Text) (db : Database)
      → Ensures (KeepsLedger db) (apply_remove_recurring pg user query db)
  unfolding apply_remove_recurring
  remove_recurring-Keeps user query db = ground arith

  pub edit_recurring-Keeps :
      (user : Uuid) (query : Text) (amount : Option ℤ) (category : Option Category)
      (cadence : Option Cadence) (dom dow : Option (Option ℤ)) (db : Database)
      → Ensures
          (KeepsLedger db)
          (apply_edit_recurring pg user query amount category cadence dom dow db)
  unfolding apply_edit_recurring
  edit_recurring-Keeps user query amount category cadence dom dow db = ground arith

  pub create_goal-Keeps :
      (user : Uuid) (name : Text) (target : ℤ) (date : Option NaiveDate) (db : Database)
      → Ensures (Keeps db) (apply_create_goal pg user name target date db)
  unfolding apply_create_goal
  create_goal-Keeps user name target date db = ground arith

  pub edit_goal-Keeps :
      (user goal : Uuid) (name : Option Text) (target : Option ℤ) (date : Option (Option NaiveDate))
      (db : Database)
      → Ensures (Keeps db) (apply_edit_goal pg user goal name target date db)
  unfolding apply_edit_goal
  edit_goal-Keeps user goal name target date db = ground arith

pub delete_goal-Keeps :
    (user goal : Uuid) (db : Database) → Ensures (Keeps db) (apply_delete_goal user goal db)
unfolding apply_delete_goal
delete_goal-Keeps user goal db = ground arith

pub record_ledger_event-Keeps :
    (old : Database) (user : Uuid) (tx : Option Uuid) (type : EventType)
    (before after : Option Snapshot) (source : Option Text) (db : Database)
    → Keeps old db
    → Ensures (Keeps old) (record_ledger_event user tx type before after source db)
unfolding record_ledger_event
record_ledger_event-Keeps old user tx type before after source db k = ground arith

pub insert_transaction-Keeps :
    (row : TransactionRow) (db : Database) → Ensures (Keeps db) (insert_transaction row db)
unfolding insert_transaction
insert_transaction-Keeps row db = ground arith

pub delete_transaction-Keeps :
    (user target : Uuid) (source : Option Text) (db : Database)
    → Ensures (Keeps db) (delete_transaction user target source db)
unfolding delete_transaction record_ledger_event
delete_transaction-Keeps user target source db = ground arith

pub edit_transaction-Keeps :
    (user target : Uuid) (amount : Option ℤ) (category : Option Category) (memo : Option Text)
    (source : Option Text) (db : Database)
    → Ensures (Keeps db) (edit_transaction user target amount category memo source db)
unfolding edit_transaction edit_row write_edit record_ledger_event
edit_transaction-Keeps user target amount category memo source db = ground arith

pub delete_last-Keeps :
    (user : Uuid) (target : Option Uuid) (same : Bool) (s : FlushState) (db : Database)
    → Ensures (λ r. Keeps db r.1) (apply_delete_last user target same s db)
unfolding apply_delete_last delete_transaction record_ledger_event
delete_last-Keeps user target same s db = ground arith

pub edit_last-Keeps :
    (user : Uuid) (target : Option Uuid) (same : Bool) (amount : Option ℤ)
    (category : Option Category) (memo : Option Text) (s : FlushState) (db : Database)
    → Ensures (λ r. Keeps db r.1) (apply_edit_last user target same amount category memo s db)
unfolding apply_edit_last edit_transaction edit_row write_edit record_ledger_event
edit_last-Keeps user target same amount category memo s db = ground arith

module _ (pg : Engine) where
  pub transaction-Keeps :
      (kind : TxKind) (user : Uuid) (amount : ℤ) (category : Category) (memo : Option Text)
      (date : NaiveDate) (account : Option Text) (s : FlushState) (db : Database)
      → Ensures
          (λ r. Keeps db r.1)
          (apply_transaction pg kind user amount category memo date account s db)
  unfolding apply_transaction insert_transaction record_ledger_event
  transaction-Keeps kind user amount category memo date account s db = ground arith

  pub goal_contribution-Keeps :
      (user goal : Uuid) (amount : ℤ) (date : NaiveDate) (s : FlushState) (db : Database)
      → Ensures (λ r. Keeps db r.1) (apply_goal_contribution pg user goal amount date s db)
  unfolding apply_goal_contribution insert_transaction record_ledger_event
  goal_contribution-Keeps user goal amount date s db = ground arith
