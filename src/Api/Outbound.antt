-- ===== src/Api/Outbound.antt =====
-- crates/api/src/outbound.rs: what the message provider answers, and the delivery of a queued reply.
pub mod Queued
pub mod Delivered
use andy.Base.{
  ℕ, suc, Bool, true, false, ◌&&◌, Option, none, some, List, [], ◌∷◌, ◌++◌, length, leb, Text,
  codes, decimal, ◌==◌, if◌then◌else◌,
}
use andy.Domain.{Instant}
use andy.Db.Tables.{Engine}
use andy.Db.Outbox.{
  OutboundMessageRow, claim_outbound_by_dedup_key, claim_due_outbound_messages, mark_outbound_sent,
  mark_outbound_failed,
}
use andy.Api.Program.{Outcome, Program, pure, ◌>>=◌, ◌>>◌, execute, query}

pub data ErrorClass : Type 0 where
  timeout auth rate_limited server_error client_error unknown : ErrorClass

unfoldable pub from_status : ℕ → ErrorClass
from_status status =
    if status == 401
    then ErrorClass.auth
    else if status == 403
    then ErrorClass.auth
    else if status == 429
    then ErrorClass.rate_limited
    else if leb 500 status && leb status 599
    then ErrorClass.server_error
    else if leb 400 status && leb status 499
    then ErrorClass.client_error
    else ErrorClass.unknown

abbrev pub error_class_str : ErrorClass → Text
error_class_str ErrorClass.timeout = codes "timeout"
error_class_str ErrorClass.auth = codes "auth"
error_class_str ErrorClass.rate_limited = codes "rate_limited"
error_class_str ErrorClass.server_error = codes "server_error"
error_class_str ErrorClass.client_error = codes "client_error"
error_class_str ErrorClass.unknown = codes "unknown"

abbrev pub is_retryable : ErrorClass → Bool
is_retryable ErrorClass.timeout = true
is_retryable ErrorClass.rate_limited = true
is_retryable ErrorClass.server_error = true
is_retryable ErrorClass.auth = false
is_retryable ErrorClass.client_error = false
is_retryable ErrorClass.unknown = false

-- `SendblueError`, without the path; `http` has the status, `request` says if it timed out.
pub data SendblueError : Type 0 where
  timed_out : SendblueError
  http : ℕ → SendblueError
  request : Bool → SendblueError

abbrev pub class : SendblueError → ErrorClass
class SendblueError.timed_out = ErrorClass.timeout
class (SendblueError.http status) = from_status status
class (SendblueError.request true) = ErrorClass.timeout
class (SendblueError.request false) = ErrorClass.unknown

abbrev pub safe_summary : SendblueError → Text
safe_summary SendblueError.timed_out = codes "timeout"
safe_summary (SendblueError.http status) =
    error_class_str (from_status status) ++ codes ":" ++ decimal status
safe_summary (SendblueError.request is_timeout) = codes "request_error"

-- The provider's answer to the n-th call, with its number and text: `none` if it took the message.
abbrev pub Sendblue : Type 0
Sendblue = ℕ → Text → Text → Option SendblueError

module _ (sendblue : Sendblue) where
  unfoldable pub send_message : Text → Text → Program (Option SendblueError)
  send_message phone content w =
      Outcome.done (sendblue (length w.sent) phone content)
        (record w { sent = (phone, content) ∷ w.sent })

  -- What the answer does to the row.
  unfoldable pub record_answer : OutboundMessageRow → Option SendblueError → Program Bool
  record_answer message none = do execute (mark_outbound_sent message.id); pure true
  record_answer message (some error) = do
    execute (mark_outbound_failed message.id (safe_summary error) (is_retryable (class error)))
    pure false

  unfoldable pub deliver_outbound_message : OutboundMessageRow → Program Bool
  unfolding send_message record_answer
  deliver_outbound_message message = do
    answer ← send_message message.phone message.content
    record_answer message answer

  unfoldable pub deliver_claimed : Option OutboundMessageRow → Program (Option Bool)
  unfolding deliver_outbound_message
  deliver_claimed none = pure none
  deliver_claimed (some message) = do
    delivered ← deliver_outbound_message message
    pure (some delivered)

  unfoldable pub deliver_outbound_by_dedup_key : Text → Program (Option Bool)
  unfolding deliver_claimed
  deliver_outbound_by_dedup_key dedup_key = do
    claimed ← query (claim_outbound_by_dedup_key dedup_key)
    deliver_claimed claimed

  -- The numbers of messages sent and failed.
  unfoldable pub deliver_all : List OutboundMessageRow → Program (ℕ × ℕ)
  unfolding deliver_outbound_message
  deliver_all [] = pure (0, 0)
  deliver_all (message ∷ messages) = do
    delivered ← deliver_outbound_message message
    counts ← deliver_all messages
    pure (if delivered then (suc counts.0, counts.1) else (counts.0, suc counts.1))

  unfoldable pub deliver_due_outbound : Engine → Instant → ℕ → Program (ℕ × ℕ)
  unfolding deliver_all
  deliver_due_outbound pg now limit = do
    messages ← query (claim_due_outbound_messages pg now limit)
    deliver_all messages
