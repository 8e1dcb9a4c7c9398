-- ===== src/Db/Flush/Talk.antt =====
-- Flushes of crates/db/src/writes.rs that only record a conversation and queue a reply.
use andy.Base.{◌≡◌, refl, ◌∙◌, Bool, true, false, Option, some, List, All, Text, arith}
use andy.Domain.{Uuid, MessageRole, WriteIntent}
use andy.Db.Tables.{Engine, Database, Result, ok, err, Ensures, Ensures-map}
use andy.Db.Transactions.{FlushState}
use andy.Db.Outbox.{save_outbound_reply_in_tx}
use andy.Db.Flush.{apply_write_intent, apply_save_turn, go_on, flush_writes, complete_message}
use andy.Db.Flush.Loop.{flush_writes-keeps}

-- The tables that hold the user's records are the same.
pub record SameBooks (db db' : Database) : Type 0 where
  pub transactions : db'.transactions ≡ db.transactions
  pub savings_goals : db'.savings_goals ≡ db.savings_goals
  pub budgets : db'.budgets ≡ db.budgets
  pub memories : db'.memories ≡ db.memories
  pub recurring_items : db'.recurring_items ≡ db.recurring_items
  pub transfers : db'.transfers ≡ db.transfers
  pub ledger_events : db'.ledger_events ≡ db.ledger_events

pub SameBooks-refl : (db : Database) → SameBooks db db
SameBooks-refl db = record {
  transactions = refl;
  savings_goals = refl;
  budgets = refl;
  memories = refl;
  recurring_items = refl;
  transfers = refl;
  ledger_events = refl;
}

pub SameBooks-trans : {a b c : Database} → SameBooks a b → SameBooks b c → SameBooks a c
SameBooks-trans p q = record {
  transactions = q.transactions ∙ p.transactions;
  savings_goals = q.savings_goals ∙ p.savings_goals;
  budgets = q.budgets ∙ p.budgets;
  memories = q.memories ∙ p.memories;
  recurring_items = q.recurring_items ∙ p.recurring_items;
  transfers = q.transfers ∙ p.transfers;
  ledger_events = q.ledger_events ∙ p.ledger_events;
}

-- Turns of the conversation and replies.
abbrev pub is_talk : WriteIntent → Bool
is_talk (WriteIntent.save_turn _ _ _) = true
is_talk (WriteIntent.outbound_reply _ _ _ _) = true
is_talk _ = false

abbrev pub AllTalk : List WriteIntent → Type 0
AllTalk ws = All (λ w. is_talk w ≡ true) ws

save_turn-SameBooks :
    (user : Uuid) (role : MessageRole) (content : Text) (db : Database)
    → Ensures (SameBooks db) (apply_save_turn user role content db)
unfolding apply_save_turn
save_turn-SameBooks user role content db = ground arith

module _ (pg : Engine) where
  reply-SameBooks :
      (user : Uuid) (phone content : Text) (key : Option Text) (db : Database)
      → Ensures (SameBooks db) (save_outbound_reply_in_tx pg user phone content key db)
  unfolding save_outbound_reply_in_tx
  reply-SameBooks user phone content key db = ground arith

  go_on-SameBooks :
      (s : FlushState) (db : Database) (r : Result Database)
      → Ensures (SameBooks db) r
      → Ensures (λ a. SameBooks db a.db) (go_on s r)
  go_on-SameBooks s db (ok db') k = k
  go_on-SameBooks s db (err e) k = tt

  talk-SameBooks :
      (w : WriteIntent) (s : FlushState) (db : Database)
      → is_talk w ≡ true
      → Ensures (λ a. SameBooks db a.db) (apply_write_intent pg w s db)
  unfolding apply_write_intent
  talk-SameBooks (WriteIntent.save_turn user role content) s db h =
      go_on-SameBooks s db _ (save_turn-SameBooks user role content db)
  talk-SameBooks (WriteIntent.outbound_reply user phone content key) s db h =
      go_on-SameBooks s db _ (reply-SameBooks user phone content key db)
  talk-SameBooks _ s db h = cc

  complete_message-SameBooks :
      (m : Text) (db : Database) {db' : Database}
      → complete_message m db ≡ some db'
      → SameBooks db db'
  unfolding complete_message
  complete_message-SameBooks m db e = ground arith

  pub flush_writes-SameBooks :
      (m : Option Text) (ws : List WriteIntent) (db : Database)
      → AllTalk ws
      → Ensures (λ r. SameBooks db r.1) (flush_writes pg m ws db)
  flush_writes-SameBooks m ws old h =
      flush_writes-keeps pg (SameBooks old) (λ w. is_talk w ≡ true)
        (λ w s db g k.
          Ensures-map (λ a. SameBooks db a.db) _ (apply_write_intent pg w s db)
            (λ a. SameBooks-trans k) (talk-SameBooks w s db g))
        (λ n db db' e k. SameBooks-trans k (complete_message-SameBooks n db e)) m ws old h
        (SameBooks-refl old)
