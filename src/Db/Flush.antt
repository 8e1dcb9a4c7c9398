-- ===== src/Db/Flush.antt =====
-- `apply_write_intent` and `flush_writes` of crates/db/src/writes.rs, and `claim_slot` of
-- crates/db/src/queries.rs. A flush that fails, or is superseded, leaves the tables as they were:
-- its transaction is rolled back.
pub mod Frame
pub mod Steps
pub mod Quiet
pub mod Loop
pub mod Once
pub mod Forever
pub mod Inbound
pub mod Handled
pub mod Delivery
pub mod Exclusion
pub mod Book
pub mod Parked
pub mod Talk
pub mod Balances
use andy.Base.{
  ℕ, suc, Bool, true, false, not, ◌&&◌, ◌||◌, Option, none, some, List, [], ◌∷◌, ◌++◌, any, find,
  map_some, update_where, ℤ, pos, ◌+ℤ◌, leb_ℤ, Text, text_eq, ◌==◌, if◌then◌else◌,
}
use andy.Domain.{Uuid, NaiveDate, Instant, MessageRole, WriteIntent}
use andy.Shared.Allowlist.{normalize_phone}
use andy.Db.Tables.{
  Engine, Database, UserRow, TransferRow, MessageRow, ProcessedRow, MessageStatus, DbError, Result,
  ok, err, ◌>>=◌, ◌>>◌, require, has_user,
}
use andy.Db.Transactions.{
  FlushState, apply_transaction, apply_goal_contribution, apply_delete_last, apply_edit_last,
  truncate, truncate_note, account_max, amount_allowed,
}
use andy.Db.Goals.{
  apply_create_goal, apply_edit_goal, apply_delete_goal, apply_set_budget, apply_remove_budget,
}
use andy.Db.Memories.{save_memory_in_tx, forget_memory_in_tx}
use andy.Db.Recurring.{apply_add_recurring, apply_remove_recurring, apply_edit_recurring}
use andy.Db.Outbox.{save_outbound_reply_in_tx}
use andy.Db.Confirmations.{consume_confirmation_in_tx}

-- `WriteIntent::SaveTurn`.
unfoldable pub apply_save_turn : Uuid → MessageRole → Text → Database → Result Database
apply_save_turn user_id role content db = do
  require (has_user db user_id) DbError.foreign_key_violation
  ok (record db {
    messages =
        db.messages
        ++ record { user_id = user_id; role = role; content = truncate content 4000 } ∷ [];
  })

-- `WriteIntent::Transfer`, under `transfer_amount_positive`.
unfoldable pub apply_transfer :
    Uuid
    → ℤ
    → Option Text
    → Option Text
    → Option Text
    → NaiveDate
    → FlushState
    → Database
    → Result Database
apply_transfer user_id amount from to note local_date state db = do
  require (leb_ℤ (pos 1) amount) DbError.check_violation
  require (has_user db user_id) DbError.foreign_key_violation
  ok (record db {
    transfers =
        db.transfers
        ++ record {
          user_id = user_id;
          amount_centavos = amount;
          from_account = map_some (λ a. truncate a account_max) from;
          to_account = map_some (λ a. truncate a account_max) to;
          note = map_some truncate_note note;
          local_date = local_date;
          source_message_id = state.source_message_id;
        }
          ∷ [];
  })

-- What an intent leaves: whether the flush goes on, the flush's state and the tables.
pub record Applied : Type 0 where
  pub proceed : Bool
  pub state : FlushState
  pub db : Database

abbrev pub go_on : FlushState → Result Database → Result Applied
go_on state r = do db ← r; ok (record { proceed = true; state = state; db = db })

abbrev pub go_on_with : Result (FlushState × Database) → Result Applied
go_on_with r = do (state, db) ← r; ok (record { proceed = true; state = state; db = db })

module _ (pg : Engine) where
  unfoldable pub apply_write_intent : WriteIntent → FlushState → Database → Result Applied
  apply_write_intent (WriteIntent.transaction kind user amount category note date account) state
        db =
      go_on_with (apply_transaction pg kind user amount category note date account state db)
  apply_write_intent (WriteIntent.goal_contribution user goal amount date) state db =
      go_on_with (apply_goal_contribution pg user goal amount date state db)
  apply_write_intent (WriteIntent.delete_last user target same_turn) state db =
      go_on_with (apply_delete_last user target same_turn state db)
  apply_write_intent (WriteIntent.edit_last user target same_turn amount category note) state db =
      go_on_with (apply_edit_last user target same_turn amount category note state db)
  apply_write_intent (WriteIntent.create_goal user name target date) state db =
      go_on state (apply_create_goal pg user name target date db)
  apply_write_intent (WriteIntent.set_budget user category limit) state db =
      go_on state (apply_set_budget user category limit db)
  apply_write_intent (WriteIntent.remove_budget user category) state db =
      go_on state (apply_remove_budget user category db)
  apply_write_intent (WriteIntent.edit_goal user goal name target date) state db =
      go_on state (apply_edit_goal pg user goal name target date db)
  apply_write_intent (WriteIntent.delete_goal user goal) state db =
      go_on state (apply_delete_goal user goal db)
  apply_write_intent (WriteIntent.save_memory user content kind) state db =
      go_on state (save_memory_in_tx pg user content kind db)
  apply_write_intent (WriteIntent.forget_memory user query) state db =
      go_on state (forget_memory_in_tx pg user query db)
  apply_write_intent (WriteIntent.save_turn user role content) state db =
      go_on state (apply_save_turn user role content db)
  apply_write_intent (WriteIntent.outbound_reply user phone content key) state db =
      go_on state (save_outbound_reply_in_tx pg user phone content key db)
  apply_write_intent (WriteIntent.add_recurring user recurring) state db =
      go_on state (apply_add_recurring pg user recurring db)
  apply_write_intent (WriteIntent.remove_recurring user query) state db =
      go_on state (apply_remove_recurring pg user query db)
  apply_write_intent (WriteIntent.edit_recurring user query amount category cadence dom dow) state
        db =
      go_on state (apply_edit_recurring pg user query amount category cadence dom dow db)
  apply_write_intent (WriteIntent.transfer user amount from to note date) state db =
      go_on state (apply_transfer user amount from to note date state db)
  apply_write_intent (WriteIntent.consume_confirmation user id) state db =
      let (found, db') = consume_confirmation_in_tx id user db in
      ok (record { proceed = found; state = state; db = db' })

  -- The loop of `flush_writes`; `none` says that an intent called for the rollback.
  unfoldable pub apply_all : List WriteIntent → FlushState → Database → Result (Option Database)
  apply_all [] state db = ok (some db)
  apply_all (w ∷ ws) state db = do
    a ← apply_write_intent w state db
    let rest = apply_all ws a.state a.db
    (if a.proceed then rest else ok none)

pub data FlushResult : Type 0 where
  committed superseded : FlushResult

abbrev pub is_claimed : MessageStatus → Bool
is_claimed MessageStatus.claimed = true
is_claimed MessageStatus.completed = false

abbrev pub is_message : Text → ProcessedRow → Bool
is_message message_id p = text_eq p.message_id message_id

abbrev pub claimed_message : Text → ProcessedRow → Bool
claimed_message message_id p = is_message message_id p && is_claimed p.status

-- Completing a message: `none` if it is there and no longer claimed.
unfoldable pub complete_message : Text → Database → Option Database
complete_message message_id db =
    if any (claimed_message message_id) db.processed_messages
    then some (record db {
      processed_messages =
          update_where (claimed_message message_id)
            (λ p. record p { status = MessageStatus.completed; completed_at = some db.now })
            db.processed_messages;
    })
    else if any (is_message message_id) db.processed_messages
    then none
    else some (record db {
      processed_messages =
          db.processed_messages
          ++ record {
            message_id = message_id;
            status = MessageStatus.completed;
            claimed_at = db.now;
            completed_at = some db.now;
          }
            ∷ [];
    })

abbrev pub complete_if_any : Option Text → Database → Option Database
complete_if_any none db = some db
complete_if_any (some m) db = complete_message m db

-- Commit, or roll back to the tables `old`.
abbrev pub finish : Database → Option Text → Option Database → FlushResult × Database
finish old message_id none = (FlushResult.superseded, old)
finish old message_id (some db) = elim (complete_if_any message_id db) [
  | none ↦ (FlushResult.superseded, old)
  | some db' ↦ (FlushResult.committed, db')
]

unfoldable pub flush_writes :
    Engine → Option Text → List WriteIntent → Database → Result (FlushResult × Database)
flush_writes pg message_id intents db = do
  applied ←
      apply_all pg intents (record { last_inserted_tx_id = none; source_message_id = message_id })
        db
  ok (finish db message_id applied)

-- `insert into users … on conflict (phone) do update … returning id`.
unfoldable pub resolve_user_id : Engine → Text → Database → Result (Uuid × Database)
resolve_user_id pg phone db =
    let normalized = normalize_phone phone in
    let id = pg.random db.drawn in
    elim (find (λ u. text_eq u.phone normalized) db.users) [
      | some u ↦ ok (u.id, db)
      | none ↦ do
        require (not (has_user db id)) DbError.unique_violation
        ok (
          id,
          record db {
            drawn = suc db.drawn;
            users = db.users ++ record { id = id; phone = normalized } ∷ [];
          },
        )
    ]

pub data ClaimResult : Type 0 where
  process skip : ClaimResult

-- `CLAIM_TTL_MS`, in microseconds.
abbrev pub claim_ttl : ℤ
claim_ttl = pos 120000000

abbrev pub stale_claim : Text → Instant → ProcessedRow → Bool
stale_claim message_id now p = claimed_message message_id p && leb_ℤ (p.claimed_at +ℤ claim_ttl) now

unfoldable pub claim_slot : Text → Instant → Database → ClaimResult × Database
claim_slot message_id now db =
    if any (is_message message_id) db.processed_messages
    then if any (stale_claim message_id now) db.processed_messages
      then (
        ClaimResult.process,
        record db {
          processed_messages =
              update_where (stale_claim message_id now)
                (λ p. record p {
                  status = MessageStatus.claimed;
                  claimed_at = now;
                  completed_at = none;
                })
                db.processed_messages;
        },
      )
      else (ClaimResult.skip, db)
    else (
      ClaimResult.process,
      record db {
        processed_messages =
            db.processed_messages
            ++ record {
              message_id = message_id;
              status = MessageStatus.claimed;
              claimed_at = now;
              completed_at = none;
            }
              ∷ [];
      },
    )
