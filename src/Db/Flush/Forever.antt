-- ===== src/Db/Flush/Forever.antt =====
-- A confirmation that was answered stays answered, whatever the processes do next (crates/db).
use andy.Base.{
  ℕ, ◌≡◌, refl, Bool, false, Option, List, [], ◌∷◌, ◌++◌, any, keep, update_where, arith, Text,
  ◌==◌,
}
use andy.Domain.{Uuid, Instant, WriteIntent}
use andy.Db.Tables.{Engine, Database, ConfirmationRow, ConfirmationStatus, ok, Ensures, Ensures-ok}
use andy.Db.Confirmations.{
  confirmation_row, can_consume, is_users_pending, save_pending_confirmation,
  cancel_pending_confirmations, reap_pending_confirmations,
}
use andy.Db.Outbox.{
  claim_outbound_by_dedup_key, claim_due_outbound_messages, mark_outbound_sent,
  mark_outbound_failed,
}
use andy.Db.Flush.{FlushResult, flush_writes, claim_slot}
use andy.Db.Reapers.{reap_processed_messages}
use andy.Db.Flush.Steps.{Step, Steps}
use andy.Db.Flush.Quiet.{Settled}
use andy.Db.Flush.Once.{Consumes, flush_writes-Settled, flush_writes-settles, flush_writes-refuses}

-- The engine does not draw the identifier again.
abbrev pub NeverDraws : Engine → Uuid → Type 0
NeverDraws pg id = (n : ℕ) → (pg.random n == id) ≡ false

module _ (id user : Uuid) where
  cancelled :
      (user' : Uuid) (cs : List ConfirmationRow)
      → any (can_consume id user) cs ≡ false
      → any (can_consume id user) (
          update_where
            (is_users_pending user')
            (λ c. record c { status = ConfirmationStatus.cancelled })
            cs)
        ≡ false
  cancelled user' [] h = refl
  cancelled user' (c ∷ cs) h = ground (arith, cancelled user' cs)

  kept :
      (p : ConfirmationRow → Bool) (cs : List ConfirmationRow)
      → any (can_consume id user) cs ≡ false
      → any (can_consume id user) (keep p cs) ≡ false
  kept p [] h = refl
  kept p (c ∷ cs) h = ground (arith, kept p cs)

  added :
      (c : ConfirmationRow) (cs : List ConfirmationRow)
      → (c.id == id) ≡ false
      → any (can_consume id user) cs ≡ false
      → any (can_consume id user) (cs ++ c ∷ []) ≡ false
  added c [] e h = ground arith
  added c (d ∷ cs) e h = ground (arith, added c cs)

  module _ (pg : Engine) (fresh : NeverDraws pg id) where
    save-Settled :
        (u : Uuid) (phone : Text) (source : Option Text) (summary : Text) (ws : List WriteIntent)
        (t : Instant) (db : Database)
        → Settled id user db
        → Ensures (Settled id user) (save_pending_confirmation pg u phone source summary ws t db)
    unfolding save_pending_confirmation
    save-Settled u phone source summary ws t db h = ground (
      arith,
      added (confirmation_row (pg.random db.drawn) u phone source summary ws t db.now)
          db.pending_confirmations (fresh db.drawn) h,
    )

    Step-Settled : {db db' : Database} → Step pg db db' → Settled id user db → Settled id user db'
    unfolding cancel_pending_confirmations reap_pending_confirmations claim_slot mark_outbound_sent
        reap_processed_messages mark_outbound_failed claim_outbound_by_dedup_key
        claim_due_outbound_messages
    Step-Settled (Step.tick t db) h = h
    Step-Settled (Step.flush m ws db r db' e) h =
        Ensures-ok (λ x. Settled id user x.1) _ (flush_writes-Settled pg id user m ws db h) e
    Step-Settled (Step.claim_message m t db) h = ground arith
    Step-Settled (Step.ask u phone source summary ws t db db' e) h =
        Ensures-ok (Settled id user) _ (save-Settled u phone source summary ws t db h) e
    Step-Settled (Step.cancel u db) h = cancelled u db.pending_confirmations h
    Step-Settled (Step.reap t db) h = kept _ db.pending_confirmations h
    Step-Settled (Step.reap_processed at db) h = h
    Step-Settled (Step.claim_reply key db) h = ground arith
    Step-Settled (Step.claim_due t limit db) h = h
    Step-Settled (Step.mark_sent i db) h = h
    Step-Settled (Step.mark_failed i error retryable db) h = h

    Steps-Settled : {db db' : Database} → Steps pg db db' → Settled id user db → Settled id user db'
    Steps-Settled (Steps.done db) h = h
    Steps-Settled (Steps.also s rest) h = Steps-Settled rest (Step-Settled s h)

-- Once a flush that holds the "yes" to a confirmation has committed, then after any further steps of
-- the processes every flush that holds it again is rolled back or fails, so that the writes behind
-- a confirmation are applied at most once, if the database does not give the same identifier to
-- another confirmation.
pub flush_writes-Consumes_once :
    (pg : Engine) (id user : Uuid) (m m' : Option Text) (ws ws' : List WriteIntent)
    (db db' later : Database)
    → NeverDraws pg id
    → Consumes id user ws
    → flush_writes pg m ws db ≡ ok (FlushResult.committed, db')
    → Steps pg db' later
    → Consumes id user ws'
    → Ensures (λ r. r ≡ (FlushResult.superseded, later)) (flush_writes pg m' ws' later)
flush_writes-Consumes_once pg id user m m' ws ws' db db' later fresh c e steps c' =
    flush_writes-refuses pg id user m' ws' later c' (
      Steps-Settled id user pg fresh steps
        (Ensures-ok _ _ (flush_writes-settles pg id user m ws db c) e refl))
