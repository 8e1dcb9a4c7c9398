-- ===== src/Db/Flush/Handled.antt =====
-- A message whose writes were committed stays handled, whatever the processes do next (crates/db).
use andy.Base.{
  true, any, ◌≡◌, refl, Option, none, some, List, arith, Text, sym, ◌∙◌, inl, inr, Option-cases,
}
use mathlib.Core.Path.{subst}
use andy.Domain.{Uuid, Instant, WriteIntent}
use andy.Db.Tables.{
  Engine, Database, ProcessedRow, ok, Ensures, Ensures-ok, Ensures-bind, Ensures-map, Ensures-both,
  Ensures-any,
}
use andy.Db.Confirmations.{
  save_pending_confirmation, cancel_pending_confirmations, reap_pending_confirmations,
}
use andy.Db.Outbox.{
  claim_outbound_by_dedup_key, claim_due_outbound_messages, mark_outbound_sent,
  mark_outbound_failed,
}
use andy.Db.Transactions.{FlushState}
use andy.Db.Flush.{
  FlushResult, ClaimResult, flush_writes, apply_write_intent, apply_all, finish, claim_slot,
  complete_message,
}
use andy.Db.Flush.Steps.{Step, Steps, IsSoon, AreSoon}
use andy.Db.Flush.Quiet.{Quiet, apply_write_intent-Quiet}
use andy.Db.Flush.Loop.{Leaves, always, apply_all-keeps, flush_writes-keeps}
use andy.Db.Flush.Inbound.Done.{
  is_done, Done, complete_message-Done_now, complete_message-Done, claim_slot-Done,
  reap_processed_messages-Done, reap_processed_messages-Completed,
}
use andy.Db.Flush.Inbound.{
  Completed, CompletedIn, complete_message-Completed, complete_message-completes,
  complete_message-refuses, claim_slot-Completed, claim_slot-skips,
}

module _ (pg : Engine) where
  apply_all-processed :
      (ps : List ProcessedRow) (ws : List WriteIntent) (s : FlushState) (db : Database)
      → db.processed_messages ≡ ps
      → Ensures (Leaves λ db'. db'.processed_messages ≡ ps) (apply_all pg ws s db)
  apply_all-processed ps ws s db =
      apply_all-keeps pg (λ db. db.processed_messages ≡ ps) (λ _. Unit)
        (λ w s db _ h.
          Ensures-map (λ a. Quiet 0 0 db a.db) _ (apply_write_intent pg w s db)
            (λ a q. q.processed ∙ h) (apply_write_intent-Quiet 0 0 s db pg w))
        ws s db (always ws)

  module _ (m : Text) where
    finish-Completed :
        (old : Database) (n : Option Text) (r : Option Database)
        → Completed m old
        → Leaves (λ db'. db'.processed_messages ≡ old.processed_messages) r
        → Completed m (finish old n r).1
    finish-Completed old n none h l = h
    finish-Completed old none (some db) h l = subst (CompletedIn m) (sym l) h
    finish-Completed old (some n) (some db) h l = elim (Option-cases (complete_message n db)) [
      | inl e ↦ rw (e, finish) h
      | inr (db', e) ↦
          rw (e, finish) (complete_message-Completed m n db e (subst (CompletedIn m) (sym l) h))
    ]

    flush_writes-Completed :
        (n : Option Text) (ws : List WriteIntent) (db : Database)
        → Completed m db
        → Ensures (λ r. Completed m r.1) (flush_writes pg n ws db)
    unfolding flush_writes
    flush_writes-Completed n ws db h =
        Ensures-bind (Leaves λ db'. db'.processed_messages ≡ db.processed_messages)
          (λ r. Completed m r.1) _ _ (apply_all-processed db.processed_messages ws _ db refl)
          λ r l. finish-Completed db n r h l

    finish-completes :
        (old : Database) (r : Option Database)
        → (finish old (some m) r).0 ≡ FlushResult.committed
        → Completed m (finish old (some m) r).1
    finish-completes old none c = cc
    finish-completes old (some db) c = elim (Option-cases (complete_message m db)) [
      | inl e ↦ (let f = rw (e, finish) at c in cc)
      | inr (db', e) ↦ rw (e, finish) (complete_message-completes m db e)
    ]

    flush_writes-completes :
        (ws : List WriteIntent) (db : Database)
        → Ensures
            (λ r. r.0 ≡ FlushResult.committed → Completed m r.1)
            (flush_writes pg (some m) ws db)
    unfolding flush_writes
    flush_writes-completes ws db =
        Ensures-bind (Leaves λ db'. db'.processed_messages ≡ db.processed_messages) _ _ _
          (apply_all-processed db.processed_messages ws _ db refl) λ r l. finish-completes db r

    finish-refuses :
        (old : Database) (r : Option Database)
        → Completed m old
        → Leaves (λ db'. db'.processed_messages ≡ old.processed_messages) r
        → finish old (some m) r ≡ (FlushResult.superseded, old)
    finish-refuses old none h l = refl
    finish-refuses old (some db) h l =
        rw (complete_message-refuses m db (subst (CompletedIn m) (sym l) h), finish) refl

    flush_writes-refuses_handled :
        (ws : List WriteIntent) (db : Database)
        → Completed m db
        → Ensures (λ r. r ≡ (FlushResult.superseded, db)) (flush_writes pg (some m) ws db)
    unfolding flush_writes
    flush_writes-refuses_handled ws db h =
        Ensures-bind (Leaves λ db'. db'.processed_messages ≡ db.processed_messages) _ _ _
          (apply_all-processed db.processed_messages ws _ db refl) λ r l. finish-refuses db r h l

    -- Completed, at the time `c`.
    abbrev Handled : Instant → Database → Type 0
    Handled c db = Completed m db × Done m c db

    intent-Done :
        (c : Instant) (w : WriteIntent) (s : FlushState) (db : Database)
        → Unit {0}
        → Done m c db
        → Ensures (λ a. Done m c a.db) (apply_write_intent pg w s db)
    intent-Done c w s db _ h =
        Ensures-map (λ a. Quiet 0 0 db a.db) _ (apply_write_intent pg w s db)
          (λ a q. subst (λ ps. any (is_done m c) ps ≡ true) (sym q.processed) h)
          (apply_write_intent-Quiet 0 0 s db pg w)

    flush_writes-Handled :
        (c : Instant) (n : Option Text) (ws : List WriteIntent) (db : Database)
        → Handled c db
        → Ensures (λ r. Handled c r.1) (flush_writes pg n ws db)
    flush_writes-Handled c n ws db h =
        Ensures-both (λ r. Completed m r.1) (λ r. Done m c r.1) _
          (flush_writes-Completed n ws db h.0)
          (flush_writes-keeps pg (Done m c) (λ _. Unit) (intent-Done c)
            (λ n db db' e. complete_message-Done m c n db db' e) n ws db (always ws) h.1)

    finish-Done_now :
        (old : Database) (r : Option Database)
        → (finish old (some m) r).0 ≡ FlushResult.committed
        → Done m (finish old (some m) r).1.now (finish old (some m) r).1
    finish-Done_now old none k = cc
    finish-Done_now old (some db) k = elim (Option-cases (complete_message m db)) [
      | inl e ↦ (let f = rw (e, finish) at k in cc)
      | inr (db', e) ↦ rw (e, finish) (complete_message-Done_now m db e)
    ]

    flush_writes-Done_now :
        (ws : List WriteIntent) (db : Database)
        → Ensures
            (λ r. r.0 ≡ FlushResult.committed → Done m r.1.now r.1)
            (flush_writes pg (some m) ws db)
    unfolding flush_writes
    flush_writes-Done_now ws db =
        Ensures-bind (Leaves λ db'. Unit {0}) _ _ _
          (apply_all-keeps pg (λ _. Unit {0}) (λ _. Unit) (λ w s db _ _. Ensures-any _) ws _ db
            (always ws) tt)
          λ r l. finish-Done_now db r

    save-Handled :
        (c : Instant) (u : Uuid) (phone : Text) (source : Option Text) (summary : Text)
        (ws : List WriteIntent) (t : Instant) (db : Database)
        → Handled c db
        → Ensures (Handled c) (save_pending_confirmation pg u phone source summary ws t db)
    unfolding save_pending_confirmation
    save-Handled c u phone source summary ws t db h = ground (arith, h.0.0, h.0.1, h.1)

    Step-Handled :
        (c : Instant) {db db' : Database} (s : Step pg db db')
        → IsSoon c s
        → Handled c db
        → Handled c db'
    unfolding cancel_pending_confirmations reap_pending_confirmations mark_outbound_sent
        mark_outbound_failed claim_outbound_by_dedup_key claim_due_outbound_messages
    Step-Handled c (Step.tick t db) i h = h
    Step-Handled c (Step.flush n ws db r db' e) i h =
        Ensures-ok (λ x. Handled c x.1) _ (flush_writes-Handled c n ws db h) e
    Step-Handled c (Step.claim_message n t db) i h =
        (claim_slot-Completed m n t db h.0, claim_slot-Done m c n t db h.1)
    Step-Handled c (Step.ask u phone source summary ws t db db' e) i h =
        Ensures-ok (Handled c) _ (save-Handled c u phone source summary ws t db h) e
    Step-Handled c (Step.cancel u db) i h = h
    Step-Handled c (Step.reap t db) i h = h
    Step-Handled c (Step.reap_processed at db) i h = (
      reap_processed_messages-Completed m at c db i h.1 h.0,
      reap_processed_messages-Done m at c db i h.1,
    )
    Step-Handled c (Step.claim_reply key db) i h = ground (arith, h.0.0, h.0.1, h.1)
    Step-Handled c (Step.claim_due t limit db) i h = h
    Step-Handled c (Step.mark_sent id db) i h = h
    Step-Handled c (Step.mark_failed id error retryable db) i h = h

    Steps-Handled :
        (c : Instant) {db db' : Database} (steps : Steps pg db db')
        → AreSoon c steps
        → Handled c db
        → Handled c db'
    Steps-Handled c (Steps.done db) i h = h
    Steps-Handled c (Steps.also s rest) i h = Steps-Handled c rest i.1 (Step-Handled c s i.0 h)

-- Once a flush for an inbound message has committed, then after any further steps of the processes,
-- which are flushes, claims, confirmations, marks of the queue, clean-ups and time, a delivery of that
-- message is told to skip and changes nothing, and a flush for it is rolled back or fails. It holds as
-- long as each clean-up of the handled messages is for a time at most three days after the commit:
-- after that the row of the message may be gone.
pub flush_writes-handles_once :
    (pg : Engine) (m : Text) (ws ws' : List WriteIntent) (t : Instant) (db db' later : Database)
    → flush_writes pg (some m) ws db ≡ ok (FlushResult.committed, db')
    → (steps : Steps pg db' later) → AreSoon db'.now steps
    → (claim_slot m t later ≡ (ClaimResult.skip, later))
      × Ensures (λ r. r ≡ (FlushResult.superseded, later)) (flush_writes pg (some m) ws' later)
flush_writes-handles_once pg m ws ws' t db db' later e steps soon =
    (let h = Steps-Handled pg m db'.now steps soon (
      Ensures-ok _ _ (flush_writes-completes pg m ws db) e refl,
      Ensures-ok _ _ (flush_writes-Done_now pg m ws db) e refl,
    ) in
      (claim_slot-skips m t later h.0, flush_writes-refuses_handled pg m ws' later h.0))
