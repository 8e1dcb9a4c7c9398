-- ===== src/Db/Flush/Delivery.antt =====
-- A reply that was sent is not sent again: the queue of crates/db/src/ops.rs beside the flushes.
use andy.Base.{
  ℕ, suc, ◌≡◌, Bool, true, ◌&&◌, Option, none, some, List, [], ◌∷◌, any, arith, Text, update_where,
  ◌==◌, trim,
}
use Prim.Native.Nat.{zero}
use andy.Domain.{Uuid, Instant, WriteIntent}
use andy.Db.Tables.{Engine, Database, OutboundRow, OutboundStatus, Ensures, Ensures-ok, Ensures-map}
use andy.Db.Confirmations.{
  save_pending_confirmation, cancel_pending_confirmations, reap_pending_confirmations,
}
use andy.Db.Transactions.{FlushState, truncate}
use andy.Db.Outbox.{
  is_due, claim, claim_first, clamp_limit, has_key, fail_row, is_sending, dedup_key_max,
  claim_outbound_by_dedup_key, claim_due_outbound_messages, mark_outbound_sent,
  mark_outbound_failed, outbound_content_max,
}
use andy.Db.Flush.{flush_writes, apply_write_intent, claim_slot, complete_message}
use andy.Db.Flush.Frame.{Sent, sent_row}
use andy.Db.Reapers.{reap_processed_messages}
use andy.Db.Flush.Steps.{Step, Steps}
use andy.Db.Flush.Quiet.{Quiet, apply_write_intent-Quiet}
use andy.Db.Flush.Loop.{always, flush_writes-keeps}

module _ (id : Uuid) where
  claim_first-Sent :
      (at now : Instant) (n : ℕ) (os : List OutboundRow)
      → any (sent_row id) os ≡ true
      → any (sent_row id) (claim_first at now n os).1 ≡ true
  unfolding claim_first is_due
  claim_first-Sent at now zero os h = h
  claim_first-Sent at now (suc n) [] h = h
  claim_first-Sent at now (suc n) (o ∷ os) h =
      ground (arith, claim_first-Sent at now n os, claim_first-Sent at now (suc n) os)

  claimed-Sent :
      (now : Instant) (key : Option Text) (os : List OutboundRow)
      → any (sent_row id) os ≡ true
      → any (sent_row id) (update_where (λ o. has_key key o && is_due now o) (claim now) os) ≡ true
  unfolding is_due
  claimed-Sent now key [] h = h
  claimed-Sent now key (o ∷ os) h = ground (arith, claimed-Sent now key os)

  marked-Sent :
      (i : Uuid) (now : Instant) (os : List OutboundRow)
      → any (sent_row id) os ≡ true
      → any (sent_row id) (
          update_where
            (λ o. o.id == i)
            (λ o. record o {
              status = OutboundStatus.sent;
              sent_at = some now;
              updated_at = now;
              last_error = none;
            })
            os)
        ≡ true
  marked-Sent i now [] h = h
  marked-Sent i now (o ∷ os) h = ground (arith, marked-Sent i now os)

  failed-Sent :
      (i : Uuid) (now : Instant) (error : Text) (retryable : Bool) (os : List OutboundRow)
      → any (sent_row id) os ≡ true
      → any
          (sent_row id)
          (update_where (λ o. (o.id == i) && is_sending o) (fail_row now error retryable) os)
        ≡ true
  unfolding fail_row
  failed-Sent i now error retryable [] h = h
  failed-Sent i now error retryable (o ∷ os) h =
      ground (arith, failed-Sent i now error retryable os)

  module _ (pg : Engine) where
    intent-Sent :
        (w : WriteIntent) (s : FlushState) (db : Database)
        → Unit {0}
        → Sent id db
        → Ensures (λ a. Sent id a.db) (apply_write_intent pg w s db)
    intent-Sent w s db _ h =
        Ensures-map (λ a. Quiet 0 0 db a.db) _ (apply_write_intent pg w s db) (λ a q. q.sent id h)
          (apply_write_intent-Quiet 0 0 s db pg w)

    completed-Sent :
        (m : Text) (db db' : Database) → complete_message m db ≡ some db' → Sent id db → Sent id db'
    unfolding complete_message
    completed-Sent m db db' e h = ground arith

    flush_writes-Sent :
        (m : Option Text) (ws : List WriteIntent) (db : Database)
        → Sent id db
        → Ensures (λ r. Sent id r.1) (flush_writes pg m ws db)
    flush_writes-Sent m ws db =
        flush_writes-keeps pg (Sent id) (λ _. Unit) intent-Sent completed-Sent m ws db (always ws)

    save-Sent :
        (u : Uuid) (phone : Text) (source : Option Text) (summary : Text) (ws : List WriteIntent)
        (t : Instant) (db : Database)
        → Sent id db
        → Ensures (Sent id) (save_pending_confirmation pg u phone source summary ws t db)
    unfolding save_pending_confirmation
    save-Sent u phone source summary ws t db h = ground arith

    Step-Sent : {db db' : Database} → Step pg db db' → Sent id db → Sent id db'
    unfolding cancel_pending_confirmations reap_pending_confirmations mark_outbound_sent claim_slot
        reap_processed_messages mark_outbound_failed claim_outbound_by_dedup_key
        claim_due_outbound_messages
    Step-Sent (Step.tick t db) h = h
    Step-Sent (Step.flush n ws db r db' e) h =
        Ensures-ok (λ x. Sent id x.1) _ (flush_writes-Sent n ws db h) e
    Step-Sent (Step.claim_message n t db) h = ground arith
    Step-Sent (Step.ask u phone source summary ws t db db' e) h =
        Ensures-ok (Sent id) _ (save-Sent u phone source summary ws t db h) e
    Step-Sent (Step.cancel u db) h = h
    Step-Sent (Step.reap t db) h = h
    Step-Sent (Step.reap_processed at db) h = h
    Step-Sent (Step.claim_reply key db) h = ground (
      arith,
      claimed-Sent db.now (some (truncate (trim key) dedup_key_max)) db.outbound_messages h,
    )
    Step-Sent (Step.claim_due t limit db) h =
        claim_first-Sent t db.now (clamp_limit limit) db.outbound_messages h
    Step-Sent (Step.mark_sent i db) h = marked-Sent i db.now db.outbound_messages h
    Step-Sent (Step.mark_failed i error retryable db) h =
        failed-Sent i db.now (truncate error outbound_content_max) retryable db.outbound_messages h

-- A reply that was sent stays sent, whatever the processes do: flushes that queue it again, claims,
-- failures reported late.
pub Steps-Sent :
    (pg : Engine) (id : Uuid) {db db' : Database} → Steps pg db db' → Sent id db → Sent id db'
Steps-Sent pg id (Steps.done db) h = h
Steps-Sent pg id (Steps.also s rest) h = Steps-Sent pg id rest (Step-Sent id pg s h)
