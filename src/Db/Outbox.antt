-- ===== src/Db/Outbox.antt =====
-- The outbound queue: `save_outbound_reply_in_tx` of crates/db/src/writes.rs, and the claims and
-- marks of crates/db/src/ops.rs.
pub mod Claims
pub mod Retry
use Prim.Native.Nat.{min, max, zero}
use andy.Base.{
  ℕ, suc, ◌+◌, ◌*◌, Bool, true, false, not, ◌&&◌, ◌||◌, Option, none, some, List, [], ◌∷◌, ◌++◌,
  any, keep, find, update_where, take, map, length, leb, ltb, option_eq, ℤ, pos, ◌+ℤ◌, leb_ℤ, Text,
  text_eq, trim, is_empty, ◌==◌, if◌then◌else◌,
}
use andy.Domain.{Uuid, Instant}
use andy.Db.Tables.{
  Engine, Database, OutboundRow, OutboundStatus, DbError, Result, ok, err, ◌>>=◌, ◌>>◌, require,
  has_user,
}
use andy.Db.Transactions.{truncate}
use andy.Db.Confirmations.{phone_max}

-- `OUTBOUND_CONTENT_MAX` and `DEDUP_KEY_MAX`
abbrev pub outbound_content_max : ℕ
outbound_content_max = 4000

abbrev pub dedup_key_max : ℕ
dedup_key_max = 200

-- The default of `max_attempts`.
abbrev pub default_max_attempts : ℕ
default_max_attempts = 8

-- A key that is blank counts as none.
abbrev pub clean_key : Option Text → Option Text
clean_key none = none
clean_key (some k) = if is_empty (trim k) then none else some (truncate (trim k) dedup_key_max)

abbrev pub has_key : Option Text → OutboundRow → Bool
has_key none o = false
has_key (some k) o = elim o.dedup_key [ none ↦ false | some j ↦ text_eq j k ]

-- The `do update` of the insert: a message that was sent stays sent.
abbrev pub refresh : Text → Text → Instant → OutboundRow → OutboundRow
refresh phone content now o = record o {
  phone = phone;
  content = content;
  status = elim o.status [ OutboundStatus.sent ↦ OutboundStatus.sent | _ ↦ OutboundStatus.pending ];
  next_attempt_at = elim o.status [ OutboundStatus.sent ↦ o.next_attempt_at | _ ↦ now ];
  updated_at = now;
}

abbrev pub new_outbound_row : Uuid → Uuid → Text → Text → Option Text → Instant → OutboundRow
new_outbound_row id user_id phone content dedup_key now = record {
  id = id;
  user_id = user_id;
  phone = phone;
  content = content;
  dedup_key = dedup_key;
  status = OutboundStatus.pending;
  attempt_count = 0;
  max_attempts = default_max_attempts;
  next_attempt_at = now;
  last_error = none;
  sent_at = none;
  dead_lettered_at = none;
  created_at = now;
  updated_at = now;
}

-- The `insert` of a row whose key is new.
abbrev pub insert_outbound : OutboundRow → Database → Result Database
insert_outbound row db = do
  require (has_user db row.user_id) DbError.foreign_key_violation
  require (not (any (λ o. o.id == row.id) db.outbound_messages)) DbError.unique_violation
  ok (record db { drawn = suc db.drawn; outbound_messages = db.outbound_messages ++ row ∷ [] })

module _ (pg : Engine) where
  -- `WriteIntent::OutboundReply`.
  unfoldable pub save_outbound_reply_in_tx :
      Uuid → Text → Text → Option Text → Database → Result Database
  save_outbound_reply_in_tx user_id phone content dedup_key db =
      let text = truncate (trim content) outbound_content_max in
      let to = truncate (trim phone) phone_max in
      let key = clean_key dedup_key in
      let row = new_outbound_row (pg.random db.drawn) user_id to text key db.now in
      let rows = update_where (has_key key) (refresh to text db.now) db.outbound_messages in
      if is_empty text || is_empty to
      then ok db
      else if any (has_key key) db.outbound_messages
      then ok (record db { outbound_messages = rows })
      else insert_outbound row db

-- `interval '15 minutes'`
abbrev pub claim_timeout : ℤ
claim_timeout = pos 900000000

-- The `where` of the two claims: due, or claimed so long ago that the claimer is taken for dead.
unfoldable pub is_due : Instant → OutboundRow → Bool
is_due now o = elim o.status [
  | OutboundStatus.pending ↦ leb_ℤ o.next_attempt_at now
  | OutboundStatus.sending ↦ leb_ℤ (o.updated_at +ℤ claim_timeout) now
  | OutboundStatus.sent ↦ false
  | OutboundStatus.failed ↦ false
]

-- The `set` of the two claims, at the database's time.
abbrev pub claim : Instant → OutboundRow → OutboundRow
claim now o = record o {
  status = OutboundStatus.sending;
  attempt_count = suc o.attempt_count;
  updated_at = now;
}

-- What a claim returns of a row.
pub record OutboundMessageRow : Type 0 where
  pub id : Uuid
  pub phone : Text
  pub content : Text
  pub dedup_key : Option Text
  pub attempt_count : ℕ

unfoldable pub outbound_from_row : OutboundRow → OutboundMessageRow
outbound_from_row o = record {
  id = o.id;
  phone = truncate (trim o.phone) phone_max;
  content = truncate (trim o.content) outbound_content_max;
  dedup_key = o.dedup_key;
  attempt_count = o.attempt_count;
}

-- The message claimed, and the tables after. At most one row has the key.
unfoldable pub claim_outbound_by_dedup_key : Text → Database → Option OutboundMessageRow × Database
unfolding outbound_from_row
claim_outbound_by_dedup_key dedup_key db =
    let key = truncate (trim dedup_key) dedup_key_max in
    let hit = λ (o : OutboundRow). has_key (some key) o && is_due db.now o in
    if is_empty key then (none, db) else (
      elim (find hit db.outbound_messages) [
        | none ↦ none
        | some o ↦ some (outbound_from_row (claim db.now o))
      ],
      record db { outbound_messages = update_where hit (claim db.now) db.outbound_messages },
    )

-- `limit.clamp(1, 50)`
abbrev pub clamp_limit : ℕ → ℕ
clamp_limit limit = max 1 (min 50 limit)

-- The oldest `n` rows that are due are claimed; the rows claimed, and the table after.
unfoldable pub claim_first :
    Instant → Instant → ℕ → List OutboundRow → List OutboundRow × List OutboundRow
claim_first at now zero os = ([], os)
claim_first at now (suc n) [] = ([], [])
claim_first at now (suc n) (o ∷ os) = elim (is_due at o) [
  | true ↦
      (let (claimed, rest) = claim_first at now n os in (claim now o ∷ claimed, claim now o ∷ rest))
  | false ↦ (let (claimed, rest) = claim_first at now (suc n) os in (claimed, o ∷ rest))
]

-- The messages claimed, in the order that the update returns them, and the tables after.
unfoldable pub claim_due_outbound_messages :
    Engine → Instant → ℕ → Database → List OutboundMessageRow × Database
unfolding claim_first outbound_from_row
claim_due_outbound_messages pg at limit db =
    let (claimed, rows) = claim_first at db.now (clamp_limit limit) db.outbound_messages in
    (map outbound_from_row (pg.returning claimed), record db { outbound_messages = rows })

unfoldable pub mark_outbound_sent : Uuid → Database → Database
mark_outbound_sent id db = record db {
  outbound_messages =
      update_where (λ o. o.id == id)
        (λ o. record o {
          status = OutboundStatus.sent;
          sent_at = some db.now;
          updated_at = db.now;
          last_error = none;
        })
        db.outbound_messages;
}

-- `least(3600, greatest(30, attempt_count * 30))`, in seconds.
unfoldable pub backoff_seconds : ℕ → ℕ
backoff_seconds attempts = min 3600 (max 30 (attempts * 30))

-- The `set` of `mark_outbound_failed`.
unfoldable pub fail_row : Instant → Text → Bool → OutboundRow → OutboundRow
fail_row now error retryable o =
    let again = retryable && ltb o.attempt_count o.max_attempts in
    record o {
      status = if again then OutboundStatus.pending else OutboundStatus.failed;
      dead_lettered_at = if again then o.dead_lettered_at else some now;
      last_error = some error;
      next_attempt_at =
          if again
          then now +ℤ pos (backoff_seconds o.attempt_count * 1000000)
          else o.next_attempt_at;
      updated_at = now;
    }

abbrev pub is_sending : OutboundRow → Bool
is_sending o = elim o.status [ OutboundStatus.sending ↦ true | _ ↦ false ]

unfoldable pub mark_outbound_failed : Uuid → Text → Bool → Database → Database
mark_outbound_failed id error retryable db = record db {
  outbound_messages =
      update_where (λ o. (o.id == id) && is_sending o)
        (fail_row db.now (truncate error outbound_content_max) retryable) db.outbound_messages;
}
