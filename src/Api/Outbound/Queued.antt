-- ===== src/Api/Outbound/Queued.antt =====
-- The deliveries of crates/api/src/outbound.rs touch the queue alone.
use andy.Base.{
  refl, true, false, Option, none, some, List, [], ◌∷◌, Text, inl, inr, Bool-cases, is_empty, trim,
  ℕ, suc, if◌then◌else◌,
}
use andy.Domain.{Instant}
use andy.Db.Tables.{Engine, Database, OutboundRow}
use andy.Db.Transactions.{truncate}
use andy.Db.Outbox.{
  OutboundMessageRow, claim_outbound_by_dedup_key, claim_due_outbound_messages, mark_outbound_sent,
  mark_outbound_failed, dedup_key_max,
}
use andy.Api.Program.{execute, query}
use andy.Api.Program.Holds.{Holds, Holds-bind, Holds-query, Holds-execute, Holds-silent, Holds-pure}
use andy.Api.Outbound.{
  SendblueError, Sendblue, send_message, safe_summary, is_retryable, class, record_answer,
  deliver_claimed, deliver_outbound_message, deliver_outbound_by_dedup_key, deliver_all,
  deliver_due_outbound,
}

module _ {κ} (P : Database → Type κ) (sendblue : Sendblue)
    (queue : (db : Database) (os : List OutboundRow)
      → P db
      → P (record db { outbound_messages = os })) where
  claim-keeps : (key : Text) (db : Database) → P db → P (claim_outbound_by_dedup_key key db).1
  unfolding claim_outbound_by_dedup_key
  claim-keeps key db b = elim (Bool-cases (is_empty (truncate (trim key) dedup_key_max))) [
    | inl e ↦ rw e b
    | inr e ↦ rw e (queue db _ b)
  ]

  answer-Holds :
      (message : OutboundMessageRow) (answer : Option SendblueError)
      → Holds P (record_answer sendblue message answer)
  unfolding record_answer mark_outbound_sent mark_outbound_failed
  answer-Holds message none =
      Holds-bind P (execute (mark_outbound_sent message.id)) _ (Holds-execute P _ λ db. queue db _)
        λ _. Holds-pure P true
  answer-Holds message (some error) =
      Holds-bind P
        (execute
          (mark_outbound_failed message.id (safe_summary error) (is_retryable (class error))))
        _ (Holds-execute P _ λ db. queue db _) λ _. Holds-pure P false

  message-Holds :
      (message : OutboundMessageRow) → Holds P (deliver_outbound_message sendblue message)
  unfolding deliver_outbound_message send_message
  message-Holds message =
      Holds-bind P (send_message sendblue message.phone message.content) _
        (Holds-silent P _ λ w. refl) (answer-Holds message)

  claimed-Holds : (claimed : Option OutboundMessageRow) → Holds P (deliver_claimed sendblue claimed)
  unfolding deliver_claimed
  claimed-Holds none = Holds-pure P none
  claimed-Holds (some message) =
      Holds-bind P (deliver_outbound_message sendblue message) _ (message-Holds message)
        λ sent. Holds-pure P (some sent)

  -- What does not depend on the queue, a delivery keeps.
  pub deliver-Holds : (key : Text) → Holds P (deliver_outbound_by_dedup_key sendblue key)
  unfolding deliver_outbound_by_dedup_key
  deliver-Holds key =
      Holds-bind P (query (claim_outbound_by_dedup_key key)) _ (Holds-query P _ (claim-keeps key))
        claimed-Holds

  all-Holds : (messages : List OutboundMessageRow) → Holds P (deliver_all sendblue messages)
  unfolding deliver_all
  all-Holds [] = Holds-pure P (0, 0)
  all-Holds (message ∷ messages) =
      Holds-bind P (deliver_outbound_message sendblue message) _ (message-Holds message)
        λ delivered. Holds-bind P (deliver_all sendblue messages) _ (all-Holds messages) λ counts.
          Holds-pure P (if delivered then (suc counts.0, counts.1) else (counts.0, suc counts.1))

  -- The same of a delivery of all that is due.
  pub due-Holds :
      (pg : Engine) (now : Instant) (limit : ℕ)
      → Holds P (deliver_due_outbound sendblue pg now limit)
  unfolding deliver_due_outbound claim_due_outbound_messages
  due-Holds pg now limit =
      Holds-bind P (query (claim_due_outbound_messages pg now limit)) _
        (Holds-query P _ λ db. queue db _) all-Holds
