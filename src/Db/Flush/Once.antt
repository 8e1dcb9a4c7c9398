-- ===== src/Db/Flush/Once.antt =====
-- A confirmation is applied once: `consume_confirmation_in_tx` within `flush_writes` of crates/db.
use mathlib.Core.Logic.{◌⊎◌}
use andy.Base.{
  ◌≡◌, refl, Option, none, some, List, [], ◌∷◌, any, arith, Text, ◌∙◌, ap, inl, inr, Bool-cases,
  Option-cases,
}
use andy.Domain.{Uuid, WriteIntent}
use andy.Db.Tables.{Engine, Database, Ensures, Ensures-bind, Ensures-map}
use andy.Db.Confirmations.{can_consume, consume_confirmation_in_tx}
use andy.Db.Transactions.{FlushState}
use andy.Db.Flush.{
  apply_write_intent, apply_all, finish, flush_writes, complete_message, complete_if_any,
  FlushResult,
}
use andy.Db.Flush.Loop.{Leaves, always, apply_all-keeps, flush_writes-keeps}
use andy.Db.Flush.Quiet.{Settled, Quiet, apply_write_intent-Quiet, consume_rows-settles}

-- The flush holds the "yes" to the confirmation.
abbrev pub Consumes : Uuid → Uuid → List WriteIntent → Type 0
Consumes id user [] = ⊥
Consumes id user (w ∷ ws) = (w ≡ WriteIntent.consume_confirmation user id) ⊎ Consumes id user ws

module _ (pg : Engine) (id user : Uuid) where
  intent-Settled :
      (w : WriteIntent) (s : FlushState) (db : Database)
      → Unit {0}
      → Settled id user db
      → Ensures (λ a. Settled id user a.db) (apply_write_intent pg w s db)
  intent-Settled w s db _ h =
      Ensures-map (λ a. Quiet id user db a.db) _ (apply_write_intent pg w s db) (λ a q. q.settled h)
        (apply_write_intent-Quiet id user s db pg w)

  apply_all-Settled :
      (ws : List WriteIntent) (s : FlushState) (db : Database)
      → Settled id user db
      → Ensures (Leaves (Settled id user)) (apply_all pg ws s db)
  apply_all-Settled ws s db =
      apply_all-keeps pg (Settled id user) (λ _. Unit) intent-Settled ws s db (always ws)

  -- A settled confirmation rolls the flush back.
  pub apply_all-refuses :
      (ws : List WriteIntent) (s : FlushState) (db : Database)
      → Consumes id user ws
      → Settled id user db
      → Ensures (λ r. r ≡ none) (apply_all pg ws s db)
  unfolding apply_all apply_write_intent consume_confirmation_in_tx
  apply_all-refuses [] s db c h = elim c [ ]
  apply_all-refuses (w ∷ ws) s db (inl e) h = rw e (rw h refl)
  apply_all-refuses (w ∷ ws) s db (inr c) h =
      Ensures-bind (λ a. Quiet id user db a.db) (λ r. r ≡ none) (apply_write_intent pg w s db) _
        (apply_write_intent-Quiet id user s db pg w)
        λ a q. elim (Bool-cases a.proceed) [
          | inl e ↦ rw e (apply_all-refuses ws a.state a.db c (q.settled h))
          | inr e ↦ rw e refl
        ]

  -- A "yes" that goes through settles the confirmation.
  pub apply_all-settles :
      (ws : List WriteIntent) (s : FlushState) (db : Database)
      → Consumes id user ws
      → Ensures (Leaves (Settled id user)) (apply_all pg ws s db)
  unfolding apply_all apply_write_intent consume_confirmation_in_tx
  apply_all-settles [] s db c = elim c [ ]
  apply_all-settles (w ∷ ws) s db (inl e) =
      rw e (elim (Bool-cases (any (can_consume id user) db.pending_confirmations)) [
        | inl f ↦
            rw f (apply_all-Settled ws s _ (consume_rows-settles id user db.pending_confirmations))
        | inr f ↦ rw f tt
      ])
  apply_all-settles (w ∷ ws) s db (inr c) =
      Ensures-bind (λ a. Quiet id user db a.db) (Leaves (Settled id user))
        (apply_write_intent pg w s db) _ (apply_write_intent-Quiet id user s db pg w)
        λ a _. elim (Bool-cases a.proceed) [
          | inl e ↦ rw e (apply_all-settles ws a.state a.db c)
          | inr e ↦ rw e tt
        ]

  complete_if_any-confirmations :
      (m : Option Text) (db : Database) {db' : Database}
      → complete_if_any m db ≡ some db'
      → db'.pending_confirmations ≡ db.pending_confirmations
  unfolding complete_message
  complete_if_any-confirmations none db e = ground arith
  complete_if_any-confirmations (some m) db e = ground arith

  completed-Settled :
      (m : Text) (db db' : Database)
      → complete_message m db ≡ some db'
      → Settled id user db
      → Settled id user db'
  completed-Settled m db db' e h =
      ap (any (can_consume id user)) (complete_if_any-confirmations (some m) db e) ∙ h

  pub flush_writes-Settled :
      (m : Option Text) (ws : List WriteIntent) (db : Database)
      → Settled id user db
      → Ensures (λ r. Settled id user r.1) (flush_writes pg m ws db)
  flush_writes-Settled m ws db =
      flush_writes-keeps pg (Settled id user) (λ _. Unit) intent-Settled completed-Settled m ws db
        (always ws)

  finish-settles :
      (old : Database) (m : Option Text) (r : Option Database)
      → Leaves (Settled id user) r
      → (finish old m r).0 ≡ FlushResult.committed
      → Settled id user (finish old m r).1
  finish-settles old m none l c = cc
  finish-settles old m (some db) l c = elim (Option-cases (complete_if_any m db)) [
    | inl e ↦ (let f = rw (e, finish) at c in cc)
    | inr (db', e) ↦
        rw (e, finish) (ap (any (can_consume id user)) (complete_if_any-confirmations m db e) ∙ l)
  ]

  pub flush_writes-settles :
      (m : Option Text) (ws : List WriteIntent) (db : Database)
      → Consumes id user ws
      → Ensures (λ r. r.0 ≡ FlushResult.committed → Settled id user r.1) (flush_writes pg m ws db)
  unfolding flush_writes
  flush_writes-settles m ws db c =
      Ensures-bind (Leaves (Settled id user)) _ _ _ (apply_all-settles ws _ db c)
        λ r l. finish-settles db m r l

  pub flush_writes-refuses :
      (m : Option Text) (ws : List WriteIntent) (db : Database)
      → Consumes id user ws
      → Settled id user db
      → Ensures (λ r. r ≡ (FlushResult.superseded, db)) (flush_writes pg m ws db)
  unfolding flush_writes
  flush_writes-refuses m ws db c h =
      Ensures-bind (λ r. r ≡ none) _ _ _ (apply_all-refuses ws _ db c h) λ r e. rw e refl
