-- ===== src/Tests/Fixtures.antt =====
-- A small database of the schema that crates/db uses.
use mathlib.Core.List.{reverse}
use andy.Base.{
  refl, ◌+ℤ◌, ℕ, ◌+◌, true, false, none, some, List, [], ◌∷◌, pos, Text, codes, to_ascii_lowercase,
}
use andy.Domain.{Category, TxKind, WriteIntent, MessageRole}
use andy.Db.Ledger.GoalRows.{IsBook}
use andy.Db.Tables.{
  Engine, Database, UserRow, TransactionRow, GoalRow, ConfirmationRow, ConfirmationStatus,
  OutboundRow, OutboundStatus, ProcessedRow, MessageStatus,
}

-- Postgres with identifiers from 100 on.
abbrev pub engine : Engine
engine = record {
  random = λ n. 100 + n;
  lower = to_ascii_lowercase;
  words = to_ascii_lowercase;
  unspaced = λ s. s;
  returning = reverse;
}

abbrev pub owner : UserRow
owner = record { id = 1; phone = codes "+63917" }

-- 5 pesos put into the goal 10.
abbrev pub deposit : TransactionRow
deposit = record {
  id = 50;
  user_id = 1;
  kind = TxKind.expense;
  amount_centavos = pos 500;
  category = Category.savings_goals;
  note = none;
  goal_id = some 10;
  local_date = pos 1;
  source_message_id = none;
  account = none;
}

abbrev pub laptop : GoalRow
laptop = record {
  id = 10;
  user_id = 1;
  name = codes "laptop";
  target_centavos = pos 100000;
  saved_centavos = pos 500;
  created_at = pos 0;
  target_date = none;
}

-- The removal of the deposit, waiting for a "yes".
abbrev pub waiting : ConfirmationRow
waiting = record {
  id = 20;
  user_id = 1;
  phone = codes "+63917";
  source_message_id = some (codes "m1");
  summary = codes "remove a transaction";
  payload = WriteIntent.delete_last 1 (some 50) false ∷ [];
  status = ConfirmationStatus.pending;
  expires_at = pos 5000;
  created_at = pos 0;
}

abbrev pub queued : ℕ → OutboundStatus → OutboundRow
queued id status = record {
  id = id;
  user_id = 1;
  phone = codes "+63917";
  content = codes "hi";
  dedup_key = none;
  status = status;
  attempt_count = 0;
  max_attempts = 2;
  next_attempt_at = pos 0;
  last_error = none;
  sent_at = none;
  dead_lettered_at = none;
  created_at = pos 0;
  updated_at = pos 0;
}

abbrev pub start : Database
start = record {
  now = pos 1000;
  drawn = 0;
  users = owner ∷ [];
  transactions = deposit ∷ [];
  savings_goals = laptop ∷ [];
  budgets = [];
  memories = [];
  messages = [];
  recurring_items = [];
  transfers = [];
  ledger_events = [];
  outbound_messages =
      queued 30 OutboundStatus.pending
      ∷ queued 31 OutboundStatus.sent
      ∷ queued 32 OutboundStatus.pending
      ∷ [];
  pending_confirmations = waiting ∷ [];
  processed_messages = [];
  inbound_rate_limits = [];
  nudges = [];
  summary_runs = [];
}

abbrev pub completed : Text → ProcessedRow
completed m = record {
  message_id = m;
  status = MessageStatus.completed;
  claimed_at = pos 1000;
  completed_at = some (pos 1000);
}

-- `start` once the confirmation has been consumed for the message "m2".
abbrev pub confirmed : Database
confirmed = record start {
  pending_confirmations = record waiting { status = ConfirmationStatus.consumed } ∷ [];
  processed_messages = completed (codes "m2") ∷ [];
}

-- What the model asks for: a contribution, an edit of it and a turn of the conversation.
abbrev pub intents : List WriteIntent
intents =
    WriteIntent.goal_contribution 1 10 (pos 700) (pos 2)
    ∷ WriteIntent.edit_last 1 none true (some (pos 300)) none none
    ∷ WriteIntent.save_turn 1 MessageRole.user (codes "put 3 pesos in laptop")
    ∷ []

pub start-IsBook : IsBook 1 start
unfolding ◌+ℤ◌
start-IsBook = record {
  balanced = record {
    distinct = (refl, tt);
    allowed = (refl, tt);
    goals = (record { owned = refl; balanced = refl }, tt);
  };
  linked = (refl, tt);
}
