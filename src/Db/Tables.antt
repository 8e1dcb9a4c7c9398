-- ===== src/Db/Tables.antt =====
-- The tables of packages/db/migrations that crates/db reads and writes. A table is the list of its
-- rows, the oldest first. Columns that no statement reads are left out. `Engine` is what Postgres
-- supplies and the repository does not define.
use mathlib.Core.Path.{subst}
use andy.Base.{ℕ, ◌≡◌, refl, Bool, true, false, Option, List, any, ℤ, Text, ◌==◌}
use andy.Domain.{
  Uuid, NaiveDate, Instant, Category, TxKind, Cadence, MessageRole, MemoryKind, WriteIntent,
}

pub record TransactionRow : Type 0 where
  pub id : Uuid
  pub user_id : Uuid
  pub kind : TxKind
  pub amount_centavos : ℤ
  pub category : Category
  pub note : Option Text
  pub goal_id : Option Uuid
  pub local_date : NaiveDate
  pub source_message_id : Option Text
  pub account : Option Text

pub record GoalRow : Type 0 where
  pub id : Uuid
  pub user_id : Uuid
  pub name : Text
  pub target_centavos : ℤ
  pub saved_centavos : ℤ
  pub created_at : Instant
  pub target_date : Option NaiveDate

pub record BudgetRow : Type 0 where
  pub user_id : Uuid
  pub category : Category
  pub monthly_limit_centavos : ℤ

pub record MemoryRow : Type 0 where
  pub id : Uuid
  pub user_id : Uuid
  pub content : Text
  pub kind : MemoryKind

pub record MessageRow : Type 0 where
  pub user_id : Uuid
  pub role : MessageRole
  pub content : Text

pub record RecurringRow : Type 0 where
  pub id : Uuid
  pub user_id : Uuid
  pub label : Text
  pub kind : TxKind
  pub amount_centavos : ℤ
  pub category : Category
  pub cadence : Cadence
  pub day_of_month : Option ℤ
  pub day_of_week : Option ℤ
  pub last_reminded_date : Option NaiveDate

pub record TransferRow : Type 0 where
  pub user_id : Uuid
  pub amount_centavos : ℤ
  pub from_account : Option Text
  pub to_account : Option Text
  pub note : Option Text
  pub local_date : NaiveDate
  pub source_message_id : Option Text

-- The JSON snapshots of `ledger_events`, one constructor for each set of keys.
pub data Snapshot : Type 0 where
  -- kind, amount_centavos, category, local_date
  created : TxKind → ℤ → Category → NaiveDate → Snapshot
  -- kind, amount_centavos, category, goal_id, goal_saved_centavos, local_date
  contributed : TxKind → ℤ → Category → Option Uuid → Option ℤ → NaiveDate → Snapshot
  -- amount_centavos, category, goal_id
  edit_before : ℤ → Category → Option Uuid → Snapshot
  -- amount_centavos, category, goal_id, goal_saved_centavos
  edit_after : ℤ → Category → Option Uuid → Option ℤ → Snapshot

-- `ledger_event_type_check`
pub data EventType : Type 0 where
  tx_create tx_edit tx_delete : EventType

pub record LedgerEvent : Type 0 where
  pub user_id : Uuid
  pub transaction_id : Option Uuid
  pub event_type : EventType
  pub before : Option Snapshot
  pub after : Option Snapshot
  pub source_message_id : Option Text

-- `outbound_status_check`
pub data OutboundStatus : Type 0 where
  pending sending sent failed : OutboundStatus

pub record OutboundRow : Type 0 where
  pub id : Uuid
  pub user_id : Uuid
  pub phone : Text
  pub content : Text
  pub dedup_key : Option Text
  pub status : OutboundStatus
  pub attempt_count : ℕ
  pub max_attempts : ℕ
  pub next_attempt_at : Instant
  pub last_error : Option Text
  pub sent_at : Option Instant
  pub dead_lettered_at : Option Instant
  pub created_at : Instant
  pub updated_at : Instant

pub record Engine : Type 0 where
  -- `gen_random_uuid()`, at its n-th call
  pub random : ℕ → Uuid
  -- `lower(text)`
  pub lower : Text → Text
  -- `lower(btrim(regexp_replace(content, '[^[:alnum:]]+', ' ', 'g')))`
  pub words : Text → Text
  -- `regexp_replace(text, '\s+', '', 'g')`
  pub unspaced : Text → Text
  -- the order in which `update … returning` gives rows of the queue
  pub returning : List OutboundRow → List OutboundRow

-- `pending_confirmation_status_check`
pub data ConfirmationStatus : Type 0 where
  pending consumed cancelled : ConfirmationStatus

-- `payload` is the list that `payload_json` serialises.
pub record ConfirmationRow : Type 0 where
  pub id : Uuid
  pub user_id : Uuid
  pub phone : Text
  pub source_message_id : Option Text
  pub summary : Text
  pub payload : List WriteIntent
  pub status : ConfirmationStatus
  pub expires_at : Instant
  pub created_at : Instant

-- `msg_status`
pub data MessageStatus : Type 0 where
  claimed completed : MessageStatus

pub record ProcessedRow : Type 0 where
  pub message_id : Text
  pub status : MessageStatus
  pub claimed_at : Instant
  pub completed_at : Option Instant

pub record RateRow : Type 0 where
  pub key_hash : Text
  pub bucket_start : Instant
  pub count : ℕ

-- Its primary key is all of it.
pub record NudgeRow : Type 0 where
  pub user_id : Uuid
  pub kind : Text
  pub week_start_local_date : NaiveDate

pub record UserRow : Type 0 where
  pub id : Uuid
  pub phone : Text

-- `now` is `now()`, the start of the transaction; `drawn` counts the calls of `gen_random_uuid()`.
pub record Database : Type 0 where
  pub now : Instant
  pub drawn : ℕ
  pub users : List UserRow
  pub transactions : List TransactionRow
  pub savings_goals : List GoalRow
  pub budgets : List BudgetRow
  pub memories : List MemoryRow
  pub messages : List MessageRow
  pub recurring_items : List RecurringRow
  pub transfers : List TransferRow
  pub ledger_events : List LedgerEvent
  pub outbound_messages : List OutboundRow
  pub pending_confirmations : List ConfirmationRow
  pub processed_messages : List ProcessedRow
  pub inbound_rate_limits : List RateRow
  pub nudges : List NudgeRow
  -- The `week_start_local_date` of each row, which is its key.
  pub summary_runs : List NaiveDate

-- What makes a statement fail.
pub data DbError : Type 0 where
  unique_violation check_violation foreign_key_violation out_of_range decode : DbError

-- A statement aborts its transaction, or goes through with an answer.
pub data Result {ℓ} (Answer : Type ℓ) : Type ℓ where
  err : DbError → Result Answer
  ok : Answer → Result Answer

-- A constraint of the schema, which aborts the transaction if it fails.
abbrev pub require : Bool → DbError → Result (Unit {0})
require holds violation = elim holds [ true ↦ ok tt | false ↦ err violation ]

infixl 5 ◌>>◌ ◌>>=◌
-- One statement after the other, the second with the answer of the first.
abbrev pub ◌>>=◌ {ℓ κ} :
    {First : Type ℓ} {Second : Type κ} → Result First → (First → Result Second) → Result Second
err violation >>= next = err violation
ok answer >>= next = next answer

abbrev pub ◌>>◌ {ℓ κ} :
    {First : Type ℓ} {Second : Type κ} → Result First → Result Second → Result Second
statement >> next = statement >>= λ answer. next

-- The foreign key on `users`.
unfoldable pub has_user : Database → Uuid → Bool
has_user db user_id = any (λ u. u.id == user_id) db.users

-- `MAX_SAFE_CENTAVOS` of the CHECK constraints.
abbrev pub max_safe_centavos : ℤ
max_safe_centavos = ℤ.pos 9007199254740991

-- What a statement that succeeds ensures; one that fails aborts the transaction.
abbrev pub Ensures {ℓ κ} : {A : Type ℓ} → (A → Type κ) → Result A → Type κ
Ensures P (ok a) = P a
Ensures P (err e) = Unit

pub Ensures-bind {ℓ κ μ ν} :
    {A : Type ℓ} {B : Type κ} (P : A → Type μ) (Q : B → Type ν) (m : Result A) (f : A → Result B)
    → Ensures P m
    → ((a : A) → P a → Ensures Q (f a))
    → Ensures Q (m >>= f)
Ensures-bind P Q (ok a) f h k = k a h
Ensures-bind P Q (err e) f h k = tt

pub Ensures-require {ℓ κ} :
    {B : Type ℓ} (Q : B → Type κ) (c : Bool) (e : DbError) (k : Result B)
    → (c ≡ true → Ensures Q k)
    → Ensures Q (require c e >> k)
Ensures-require Q true e k h = h refl
Ensures-require Q false e k h = tt

ok-injective {ℓ} : {A : Type ℓ} {x y : A} → ok x ≡ ok y → x ≡ y
ok-injective e = cc

pub Ensures-ok {ℓ κ} :
    {A : Type ℓ} (P : A → Type κ) (m : Result A) {a : A} → Ensures P m → m ≡ ok a → P a
Ensures-ok P (ok b) h e = subst P (ok-injective e) h
Ensures-ok P (err x) h e = cc

pub Ensures-any {ℓ} : {A : Type ℓ} (m : Result A) → Ensures (λ a. Unit {0}) m
Ensures-any (ok a) = tt
Ensures-any (err e) = tt

pub Ensures-both {ℓ κ μ} :
    {A : Type ℓ} (P : A → Type κ) (Q : A → Type μ) (m : Result A)
    → Ensures P m
    → Ensures Q m
    → Ensures (λ a. P a × Q a) m
Ensures-both P Q (ok a) h k = (h, k)
Ensures-both P Q (err e) h k = tt

pub Ensures-map {ℓ κ μ} :
    {A : Type ℓ} (P : A → Type κ) (Q : A → Type μ) (m : Result A)
    → ((a : A) → P a → Q a)
    → Ensures P m
    → Ensures Q m
Ensures-map P Q (ok a) f h = f a h
Ensures-map P Q (err e) f h = tt
