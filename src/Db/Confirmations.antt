-- ===== src/Db/Confirmations.antt =====
-- crates/db/src/confirmations.rs: risky writes that wait for a "yes".
use mathlib.Core.List.{reverse}
use andy.Base.{
  ℕ, suc, Bool, true, false, not, ◌&&◌, ◌||◌, Option, none, some, List, [], ◌∷◌, ◌++◌, any, keep,
  find, update_where, length, ltb_ℤ, Text, text_eq, trim, ◌==◌, if◌then◌else◌,
}
use andy.Domain.{Uuid, Instant, WriteIntent}
use andy.Db.Tables.{
  Engine, Database, ConfirmationRow, ConfirmationStatus, DbError, Result, ok, ◌>>◌, require,
  has_user,
}
use andy.Db.Transactions.{truncate}

-- `PHONE_MAX`
abbrev pub phone_max : ℕ
phone_max = 80

abbrev pub summary_max : ℕ
summary_max = 500

abbrev pub is_pending : ConfirmationStatus → Bool
is_pending ConfirmationStatus.pending = true
is_pending ConfirmationStatus.consumed = false
is_pending ConfirmationStatus.cancelled = false

-- The partial unique index on `source_message_id`.
abbrev pub same_source : Option Text → ConfirmationRow → Bool
same_source none c = false
same_source (some m) c = elim c.source_message_id [ none ↦ false | some n ↦ text_eq n m ]

abbrev pub confirmation_row :
    Uuid → Uuid → Text → Option Text → Text → List WriteIntent → Instant → Instant → ConfirmationRow
confirmation_row id user_id phone source summary writes expires_at now = record {
  id = id;
  user_id = user_id;
  phone = truncate (trim phone) phone_max;
  source_message_id = source;
  summary = truncate (trim summary) summary_max;
  payload = writes;
  status = ConfirmationStatus.pending;
  expires_at = expires_at;
  created_at = now;
}

-- The `insert` of a row whose source is new.
abbrev pub insert_confirmation : ConfirmationRow → Database → Result Database
insert_confirmation row db = do
  require (has_user db row.user_id) DbError.foreign_key_violation
  require (not (any (λ c. c.id == row.id) db.pending_confirmations)) DbError.unique_violation
  ok (record db {
    drawn = suc db.drawn;
    pending_confirmations = db.pending_confirmations ++ row ∷ [];
  })

unfoldable pub save_pending_confirmation :
    Engine
    → Uuid
    → Text
    → Option Text
    → Text
    → List WriteIntent
    → Instant
    → Database
    → Result Database
save_pending_confirmation pg user_id phone source summary writes expires_at db =
    let id = pg.random db.drawn in
    let row = confirmation_row id user_id phone source summary writes expires_at db.now in
    if any (same_source source) db.pending_confirmations then ok db else insert_confirmation row db

abbrev pub is_live : Uuid → Instant → ConfirmationRow → Bool
is_live user_id now c = (c.user_id == user_id) && (is_pending c.status && ltb_ℤ now c.expires_at)

-- The newest row that a "yes" can still apply.
unfoldable pub latest_pending_confirmation : Uuid → Instant → Database → Option ConfirmationRow
latest_pending_confirmation user_id now db =
    find (is_live user_id now) (reverse db.pending_confirmations)

abbrev pub can_consume : Uuid → Uuid → ConfirmationRow → Bool
can_consume id user_id c = (c.id == id) && ((c.user_id == user_id) && is_pending c.status)

abbrev pub consume_row : ConfirmationRow → ConfirmationRow
consume_row c = record c { status = ConfirmationStatus.consumed }

-- `consume_confirmation_in_tx`, and `consume_confirmation` outside a flush.
unfoldable pub consume_confirmation_in_tx : Uuid → Uuid → Database → Bool × Database
consume_confirmation_in_tx id user_id db = (
  any (can_consume id user_id) db.pending_confirmations,
  record db {
    pending_confirmations =
        update_where (can_consume id user_id) consume_row db.pending_confirmations;
  },
)

abbrev pub is_users_pending : Uuid → ConfirmationRow → Bool
is_users_pending user_id c = (c.user_id == user_id) && is_pending c.status

-- The number of rows cancelled, and the tables after.
unfoldable pub cancel_pending_confirmations : Uuid → Database → ℕ × Database
cancel_pending_confirmations user_id db = (
  length (keep (is_users_pending user_id) db.pending_confirmations),
  record db {
    pending_confirmations =
        update_where (is_users_pending user_id)
          (λ c. record c { status = ConfirmationStatus.cancelled }) db.pending_confirmations;
  },
)

abbrev pub is_reapable : Instant → ConfirmationRow → Bool
is_reapable now c = not (is_pending c.status) || ltb_ℤ c.expires_at now

unfoldable pub reap_pending_confirmations : Instant → Database → ℕ × Database
reap_pending_confirmations now db = (
  length (keep (is_reapable now) db.pending_confirmations),
  record db {
    pending_confirmations = keep (λ c. not (is_reapable now c)) db.pending_confirmations;
  },
)
