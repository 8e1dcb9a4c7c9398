-- ===== src/Db/Flush/Quiet.antt =====
-- No intent of a flush (crates/db/src/writes.rs) makes a confirmation that was answered wait again,
-- and none touches the inbound messages.
use andy.Base.{◌≡◌, refl, false, List, [], ◌∷◌, any, map, update_where, arith, ◌∙◌, ap}
use andy.Domain.{Uuid, WriteIntent}
use andy.Db.Tables.{Engine, Database, ConfirmationRow, Result, ok, err, Ensures}
use andy.Db.Confirmations.{can_consume, consume_row, consume_confirmation_in_tx}
use andy.Db.Transactions.{FlushState}
use andy.Db.Flush.{apply_write_intent, go_on, go_on_with}
use andy.Db.Flush.Frame

-- No pending confirmation of the user has the identifier.
abbrev pub Settled : Uuid → Uuid → Database → Type 0
Settled id user db = any (can_consume id user) db.pending_confirmations ≡ false

-- What the confirmations hold, in order.
abbrev pub payloads : Database → List (List WriteIntent)
payloads db = map (λ (c : ConfirmationRow). c.payload) db.pending_confirmations

pub record Quiet (id user : Uuid) (db db' : Database) : Type 0 where
  pub settled : Settled id user db → Settled id user db'
  pub users : db'.users ≡ db.users
  pub parked : payloads db' ≡ payloads db
  pub processed : db'.processed_messages ≡ db.processed_messages
  pub sent : (reply : Uuid) → Frame.Sent reply db → Frame.Sent reply db'

-- Consuming any confirmation leaves a settled one settled.
pub consume_rows-Settled :
    (id user id' user' : Uuid) (cs : List ConfirmationRow)
    → any (can_consume id user) cs ≡ false
    → any (can_consume id user) (update_where (can_consume id' user') consume_row cs) ≡ false
consume_rows-Settled id user id' user' [] h = refl
consume_rows-Settled id user id' user' (c ∷ cs) h =
    ground (arith, consume_rows-Settled id user id' user' cs)

-- Consuming it settles it.
pub consume_rows-settles :
    (id user : Uuid) (cs : List ConfirmationRow)
    → any (can_consume id user) (update_where (can_consume id user) consume_row cs) ≡ false
consume_rows-settles id user [] = refl
consume_rows-settles id user (c ∷ cs) = ground (arith, consume_rows-settles id user cs)

consume_rows-payloads :
    (id user : Uuid) (cs : List ConfirmationRow)
    → map (λ (c : ConfirmationRow). c.payload) (update_where (can_consume id user) consume_row cs)
      ≡ map (λ (c : ConfirmationRow). c.payload) cs
consume_rows-payloads id user [] = refl
consume_rows-payloads id user (c ∷ cs) = ground (arith, consume_rows-payloads id user cs)

module _ (id user : Uuid) (s : FlushState) (db : Database) where
  Keeps-Quiet : (db' : Database) → Frame.Keeps db db' → Quiet id user db db'
  Keeps-Quiet db' k = record {
    settled = λ h. ap (any (can_consume id user)) k.confirmations ∙ h;
    users = k.users;
    parked = ap (map λ (c : ConfirmationRow). c.payload) k.confirmations;
    processed = k.processed;
    sent = k.sent;
  }

  go_on-Keeps :
      (r : Result Database)
      → Ensures (Frame.Keeps db) r
      → Ensures (λ a. Quiet id user db a.db) (go_on s r)
  go_on-Keeps (ok db') k = Keeps-Quiet db' k
  go_on-Keeps (err e) k = tt

  go_on-KeepsLedger :
      (r : Result Database)
      → Ensures (Frame.KeepsLedger db) r
      → Ensures (λ a. Quiet id user db a.db) (go_on s r)
  go_on-KeepsLedger (ok db') k = Keeps-Quiet db' k.rest
  go_on-KeepsLedger (err e) k = tt

  go_on_with-Keeps :
      (r : Result (FlushState × Database))
      → Ensures (λ x. Frame.Keeps db x.1) r
      → Ensures (λ a. Quiet id user db a.db) (go_on_with r)
  go_on_with-Keeps (ok (s', db')) k = Keeps-Quiet db' k
  go_on_with-Keeps (err e) k = tt

  pub apply_write_intent-Quiet :
      (pg : Engine) (w : WriteIntent)
      → Ensures (λ a. Quiet id user db a.db) (apply_write_intent pg w s db)
  unfolding apply_write_intent consume_confirmation_in_tx
  apply_write_intent-Quiet pg (WriteIntent.transaction kind u amount category memo date account) =
      go_on_with-Keeps _ (Frame.transaction-Keeps pg kind u amount category memo date account s db)
  apply_write_intent-Quiet pg (WriteIntent.goal_contribution u goal amount date) =
      go_on_with-Keeps _ (Frame.goal_contribution-Keeps pg u goal amount date s db)
  apply_write_intent-Quiet pg (WriteIntent.delete_last u target same) =
      go_on_with-Keeps _ (Frame.delete_last-Keeps u target same s db)
  apply_write_intent-Quiet pg (WriteIntent.edit_last u target same amount category memo) =
      go_on_with-Keeps _ (Frame.edit_last-Keeps u target same amount category memo s db)
  apply_write_intent-Quiet pg (WriteIntent.create_goal u name target date) =
      go_on-Keeps _ (Frame.create_goal-Keeps pg u name target date db)
  apply_write_intent-Quiet pg (WriteIntent.set_budget u category limit) =
      go_on-KeepsLedger _ (Frame.apply_set_budget-Keeps u category limit db)
  apply_write_intent-Quiet pg (WriteIntent.remove_budget u category) =
      go_on-KeepsLedger _ (Frame.apply_remove_budget-Keeps u category db)
  apply_write_intent-Quiet pg (WriteIntent.edit_goal u goal name target date) =
      go_on-Keeps _ (Frame.edit_goal-Keeps pg u goal name target date db)
  apply_write_intent-Quiet pg (WriteIntent.delete_goal u goal) =
      go_on-Keeps _ (Frame.delete_goal-Keeps u goal db)
  apply_write_intent-Quiet pg (WriteIntent.save_memory u content kind) =
      go_on-KeepsLedger _ (Frame.save_memory-Keeps pg u content kind db)
  apply_write_intent-Quiet pg (WriteIntent.forget_memory u query) =
      go_on-KeepsLedger _ (Frame.forget_memory-Keeps pg u query db)
  apply_write_intent-Quiet pg (WriteIntent.save_turn u role content) =
      go_on-KeepsLedger _ (Frame.apply_save_turn-Keeps u role content db)
  apply_write_intent-Quiet pg (WriteIntent.outbound_reply u phone content key) =
      go_on-KeepsLedger _ (Frame.save_outbound_reply-Keeps pg u phone content key db)
  apply_write_intent-Quiet pg (WriteIntent.add_recurring u recurring) =
      go_on-KeepsLedger _ (Frame.add_recurring-Keeps pg u recurring db)
  apply_write_intent-Quiet pg (WriteIntent.remove_recurring u query) =
      go_on-KeepsLedger _ (Frame.remove_recurring-Keeps pg u query db)
  apply_write_intent-Quiet pg (WriteIntent.edit_recurring u query amount category cadence dom dow) =
      go_on-KeepsLedger _ (Frame.edit_recurring-Keeps pg u query amount category cadence dom dow db)
  apply_write_intent-Quiet pg (WriteIntent.transfer u amount from to memo date) =
      go_on-KeepsLedger _ (Frame.apply_transfer-Keeps u amount from to memo date s db)
  apply_write_intent-Quiet pg (WriteIntent.consume_confirmation u other) = record {
    settled = consume_rows-Settled id user other u db.pending_confirmations;
    users = refl;
    parked = consume_rows-payloads other u db.pending_confirmations;
    processed = refl;
    sent = λ reply h. h;
  }
