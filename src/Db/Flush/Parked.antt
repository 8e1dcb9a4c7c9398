-- ===== src/Db/Flush/Parked.antt =====
-- What the waiting confirmations hold, over the flushes of crates/db/src/writes.rs.
use andy.Base.{◌≡◌, refl, ◌∙◌, Option, some, List, Text, arith}
use andy.Domain.{WriteIntent}
use andy.Db.Tables.{Engine, Database, UserRow, Ensures, Ensures-map}
use andy.Db.Flush.{apply_write_intent, flush_writes, complete_message}
use andy.Db.Flush.Loop.{always, flush_writes-keeps}
use andy.Db.Flush.Quiet.{Quiet, payloads, apply_write_intent-Quiet}

complete_message-payloads :
    (old : List (List WriteIntent)) (us : List UserRow) (m : Text) (db db' : Database)
    → complete_message m db ≡ some db'
    → (payloads db ≡ old) × (db.users ≡ us)
    → (payloads db' ≡ old) × (db'.users ≡ us)
unfolding complete_message
complete_message-payloads old us m db db' e h = ground arith

-- A flush leaves the users and what the confirmations hold.
pub flush_writes-payloads :
    (pg : Engine) (m : Option Text) (ws : List WriteIntent) (db : Database)
    → Ensures (λ r. (payloads r.1 ≡ payloads db) × (r.1.users ≡ db.users)) (flush_writes pg m ws db)
flush_writes-payloads pg m ws old =
    flush_writes-keeps pg (λ db. (payloads db ≡ payloads old) × (db.users ≡ old.users)) (λ _. Unit)
      (λ w s db _ h.
        Ensures-map (λ a. Quiet 0 0 db a.db) _ (apply_write_intent pg w s db)
          (λ a q. (q.parked ∙ h.0, q.users ∙ h.1)) (apply_write_intent-Quiet 0 0 s db pg w))
      (complete_message-payloads (payloads old) old.users) m ws old (always ws) (refl, refl)
