-- ===== src/Api/Service/Answer.antt =====
-- The answer "yes" to a confirmation (crates/api/src/service.rs).
use andy.Base.{◌≡◌, refl, some, List, Text, inl, arith}
use andy.Domain.{Uuid, WriteIntent}
use andy.Policy.{ConfirmReply}
use andy.Db.Tables.{ConfirmationRow, Ensures}
use andy.Db.Flush.{FlushResult, flush_writes}
use andy.Db.Flush.Quiet.{Settled}
use andy.Db.Flush.Once.{flush_writes-refuses}
use andy.Api.Program.{World, final}
use andy.Api.Service.{Service, answer_confirmation, commit_and_reply_writes, after_flush, reply_key}

-- A commit whose flush is refused changes nothing.
refused :
    (service : Service) (dedup key : Text) (ws : List WriteIntent) (w : World)
    → Ensures
        (λ r. r ≡ (FlushResult.superseded, w.db))
        (flush_writes service.engine (some dedup) ws w.db)
    → final (commit_and_reply_writes service dedup key ws w) ≡ w
unfolding commit_and_reply_writes after_flush
refused service dedup key ws w h = ground (arith, h)

-- A second "yes" to a confirmation that is no longer pending leaves the tables as they were and
-- sends nothing.
pub answer_confirmation-Settled :
    (service : Service) (user : Uuid) (phone dedup : Text) (pending : ConfirmationRow) (w : World)
    → Settled pending.id user w.db
    → final (answer_confirmation service user phone dedup ConfirmReply.agree pending w) ≡ w
unfolding answer_confirmation
answer_confirmation-Settled service user phone dedup pending w h =
    refused service dedup (reply_key dedup) _ w
      (flush_writes-refuses service.engine pending.id user (some dedup) _ w.db (inl refl) h)
