-- ===== src/Db/Reapers.antt =====
-- `reap_processed_messages` and `reap_messages` of crates/db/src/ops.rs.
pub mod Messages
use andy.Base.{
  ℕ, ◌-◌, Bool, true, false, not, ◌&&◌, ◌||◌, Option, none, some, List, [], ◌∷◌, keep, length, ℤ,
  pos, ◌-ℤ◌, ◌*ℤ◌, ltb_ℤ, leb_ℤ, abs_ℕ, leb, ◌==◌, if◌then◌else◌,
}
use andy.Domain.{Uuid, Instant}
use andy.Db.Tables.{
  Database, MessageRow, ProcessedRow, MessageStatus, DbError, Result, ok, ◌>>◌, require,
}

-- `completed_at < $1`, which is null, and so not true, without a date.
abbrev pub before : Instant → Option Instant → Bool
before cutoff none = false
before cutoff (some at) = ltb_ℤ at cutoff

abbrev pub is_stale : Instant → Instant → ProcessedRow → Bool
is_stale completed_cutoff claimed_cutoff p = elim p.status [
  | MessageStatus.completed ↦ before completed_cutoff p.completed_at
  | MessageStatus.claimed ↦ ltb_ℤ p.claimed_at claimed_cutoff
]

-- The number of rows deleted, and the tables after.
unfoldable pub reap_processed_messages : Instant → ℤ → ℤ → Database → ℕ × Database
reap_processed_messages at keep_completed_days stale_claimed_hours db =
    let completed_cutoff = at -ℤ keep_completed_days *ℤ pos 86400000000 in
    let claimed_cutoff = at -ℤ stale_claimed_hours *ℤ pos 3600000000 in
    let stale = is_stale completed_cutoff claimed_cutoff in
    (
      length (keep stale db.processed_messages),
      record db { processed_messages = keep (λ p. not (stale p)) db.processed_messages },
    )

abbrev pub of_user : Uuid → MessageRow → Bool
of_user user_id m = m.user_id == user_id

-- The rows that stay: a row of the user is deleted if its `seq`, its place in the list, is below that
-- of the row with `newer` of the user's rows after it, so if it has more than `newer` after itself.
abbrev pub without_older : ℕ → Uuid → List MessageRow → List MessageRow
without_older newer user_id [] = []
without_older newer user_id (m ∷ ms) =
    let rest = without_older newer user_id ms in
    if of_user user_id m && not (leb (length (keep (of_user user_id) ms)) newer)
    then rest
    else m ∷ rest

-- The number of rows deleted, and the tables after. A negative offset is an error.
unfoldable pub reap_messages : Uuid → ℤ → Database → Result (ℕ × Database)
reap_messages user_id keep_latest db =
    let offset = keep_latest -ℤ pos 1 in
    let rest = without_older (abs_ℕ offset) user_id db.messages in
    require (leb_ℤ (pos 0) offset) DbError.out_of_range
    >> ok (length db.messages - length rest, record db { messages = rest })
