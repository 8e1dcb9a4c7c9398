-- ===== src/Db/Flush/Book.antt =====
-- A flush of crates/db/src/writes.rs keeps the ledger of its user well formed.
use andy.Base.{◌≡◌, sym, Bool, Option, List, All, ℤ, Text, inl, inr, Option-cases}
use mathlib.Core.Path.{subst}
use andy.Domain.{Uuid, Category, WriteIntent}
use andy.Db.Tables.{Engine, Database, Result, ok, err, Ensures, Ensures-bind}
use andy.Db.Confirmations.{consume_confirmation_in_tx}
use andy.Db.Transactions.{FlushState, apply_delete_last, apply_edit_last, target_of}
use andy.Db.Ledger.Balance.{IsLedger, WellFormed}
use andy.Db.Ledger.Operations.{
  apply_transaction-WellFormed, apply_goal_contribution-WellFormed, delete_transaction-WellFormed,
}
use andy.Db.Ledger.Edits.{edit_transaction-WellFormed}
use andy.Db.Ledger.Links.{
  Linked, IsLinked, delete_transaction-IsLinked, edit_transaction-IsLinked,
  apply_transaction-IsLinked, apply_goal_contribution-IsLinked,
}
use andy.Db.Ledger.GoalRows.{IsBook, apply_create_goal-IsBook, apply_edit_goal-IsBook}
use andy.Db.Ledger.GoalDeletion.{apply_delete_goal-IsBook}
use andy.Db.Flush.{apply_write_intent, go_on, go_on_with}
use andy.Db.Flush.Frame

-- The user that an intent is for.
abbrev pub intent_user : WriteIntent → Uuid
intent_user (WriteIntent.transaction kind u amount category memo date account) = u
intent_user (WriteIntent.goal_contribution u goal amount date) = u
intent_user (WriteIntent.delete_last u target same) = u
intent_user (WriteIntent.edit_last u target same amount category memo) = u
intent_user (WriteIntent.create_goal u name target date) = u
intent_user (WriteIntent.set_budget u category limit) = u
intent_user (WriteIntent.remove_budget u category) = u
intent_user (WriteIntent.edit_goal u goal name target date) = u
intent_user (WriteIntent.delete_goal u goal) = u
intent_user (WriteIntent.save_memory u content kind) = u
intent_user (WriteIntent.forget_memory u query) = u
intent_user (WriteIntent.save_turn u role content) = u
intent_user (WriteIntent.outbound_reply u phone content key) = u
intent_user (WriteIntent.add_recurring u recurring) = u
intent_user (WriteIntent.remove_recurring u query) = u
intent_user (WriteIntent.edit_recurring u query amount category cadence dom dow) = u
intent_user (WriteIntent.transfer u amount from to memo date) = u
intent_user (WriteIntent.consume_confirmation u id) = u

abbrev pub AllFor : Uuid → List WriteIntent → Type 0
AllFor user ws = All (λ w. intent_user w ≡ user) ws

-- The invariant is about two tables.
pub IsBook-same :
    (user : Uuid) (db db' : Database)
    → db'.transactions ≡ db.transactions
    → db'.savings_goals ≡ db.savings_goals
    → IsBook user db
    → IsBook user db'
IsBook-same user db db' ts gs b = record {
  balanced =
      subst (λ rows. IsLedger user rows db'.savings_goals) (sym ts)
        (subst (IsLedger user db.transactions) (sym gs) b.balanced);
  linked =
      subst (λ rows. Linked rows db'.savings_goals) (sym ts)
        (subst (Linked db.transactions) (sym gs) b.linked);
}

module _ (user : Uuid) where
  both :
      (r : Result Database)
      → Ensures (WellFormed user) r
      → Ensures IsLinked r
      → Ensures (IsBook user) r
  both (ok db) w l = record { balanced = w; linked = l }
  both (err e) w l = tt

  go_on_with-both :
      (r : Result (FlushState × Database))
      → Ensures (λ x. WellFormed user x.1) r
      → Ensures (λ x. IsLinked x.1) r
      → Ensures (λ a. IsBook user a.db) (go_on_with r)
  go_on_with-both (ok x) w l = record { balanced = w; linked = l }
  go_on_with-both (err e) w l = tt

  go_on_with-IsBook :
      (r : Result (FlushState × Database))
      → Ensures (λ x. IsBook user x.1) r
      → Ensures (λ a. IsBook user a.db) (go_on_with r)
  go_on_with-IsBook (ok x) b = b
  go_on_with-IsBook (err e) b = tt

  go_on-IsBook :
      (s : FlushState) (r : Result Database)
      → Ensures (IsBook user) r
      → Ensures (λ a. IsBook user a.db) (go_on s r)
  go_on-IsBook s (ok db) b = b
  go_on-IsBook s (err e) b = tt

  module _ (s : FlushState) (db : Database) (b : IsBook user db) where
    Keeps-IsBook :
        (r : Result Database)
        → Ensures (Frame.KeepsLedger db) r
        → Ensures (λ a. IsBook user a.db) (go_on s r)
    Keeps-IsBook (ok db') k = IsBook-same user db db' k.transactions k.goals b
    Keeps-IsBook (err e) k = tt

    apply_delete_last-IsBook :
        (target : Option Uuid) (same : Bool)
        → Ensures (λ x. IsBook user x.1) (apply_delete_last user target same s db)
    unfolding apply_delete_last
    apply_delete_last-IsBook target same = elim (Option-cases (target_of target same s)) [
      | inl e ↦ rw (e, apply_delete_last) b
      | inr (id, e) ↦
          rw (e, apply_delete_last)
            (Ensures-bind (IsBook user) (λ x. IsBook user x.1) _ _
              (both _ (delete_transaction-WellFormed user id s.source_message_id db b.balanced)
                (delete_transaction-IsLinked user id s.source_message_id db b.linked))
              λ db' b'. b')
    ]

    apply_edit_last-IsBook :
        (target : Option Uuid) (same : Bool) (amount : Option ℤ) (category : Option Category)
        (memo : Option Text)
        → Ensures
            (λ x. IsBook user x.1)
            (apply_edit_last user target same amount category memo s db)
    unfolding apply_edit_last
    apply_edit_last-IsBook target same amount category memo =
        elim (Option-cases (target_of target same s)) [
          | inl e ↦ rw (e, apply_edit_last) b
          | inr (id, e) ↦
              rw (e, apply_edit_last)
                (Ensures-bind (IsBook user) (λ x. IsBook user x.1) _ _
                  (both _
                    (edit_transaction-WellFormed user id amount category memo s.source_message_id db
                      b.balanced)
                    (edit_transaction-IsLinked user id amount category memo s.source_message_id db
                      b.linked))
                  λ db' b'. b')
        ]

    -- An intent of the user keeps the user's ledger.
    pub apply_write_intent-IsBook :
        (pg : Engine) (w : WriteIntent)
        → intent_user w ≡ user
        → Ensures (λ a. IsBook user a.db) (apply_write_intent pg w s db)
    unfolding apply_write_intent consume_confirmation_in_tx
    apply_write_intent-IsBook pg (WriteIntent.transaction kind u amount category memo date account)
          e =
        rw e (
          go_on_with-both _
            (apply_transaction-WellFormed pg user kind amount category memo date account s db
              b.balanced)
            (apply_transaction-IsLinked pg user kind amount category memo date account s db
              b.linked))
    apply_write_intent-IsBook pg (WriteIntent.goal_contribution u goal amount date) e = rw e (
        go_on_with-both _
          (apply_goal_contribution-WellFormed pg user goal amount date s db b.balanced)
          (apply_goal_contribution-IsLinked pg user goal amount date s db b.linked))
    apply_write_intent-IsBook pg (WriteIntent.delete_last u target same) e =
        rw e (go_on_with-IsBook _ (apply_delete_last-IsBook target same))
    apply_write_intent-IsBook pg (WriteIntent.edit_last u target same amount category memo) e =
        rw e (go_on_with-IsBook _ (apply_edit_last-IsBook target same amount category memo))
    apply_write_intent-IsBook pg (WriteIntent.create_goal u name target date) e =
        rw e (go_on-IsBook s _ (apply_create_goal-IsBook user db b pg name target date))
    apply_write_intent-IsBook pg (WriteIntent.edit_goal u goal name target date) e =
        rw e (go_on-IsBook s _ (apply_edit_goal-IsBook user db b pg goal name target date))
    apply_write_intent-IsBook pg (WriteIntent.delete_goal u goal) e =
        rw e (go_on-IsBook s _ (apply_delete_goal-IsBook user goal db b))
    apply_write_intent-IsBook pg (WriteIntent.set_budget u category limit) e =
        Keeps-IsBook _ (Frame.apply_set_budget-Keeps u category limit db)
    apply_write_intent-IsBook pg (WriteIntent.remove_budget u category) e =
        Keeps-IsBook _ (Frame.apply_remove_budget-Keeps u category db)
    apply_write_intent-IsBook pg (WriteIntent.save_memory u content kind) e =
        Keeps-IsBook _ (Frame.save_memory-Keeps pg u content kind db)
    apply_write_intent-IsBook pg (WriteIntent.forget_memory u query) e =
        Keeps-IsBook _ (Frame.forget_memory-Keeps pg u query db)
    apply_write_intent-IsBook pg (WriteIntent.save_turn u role content) e =
        Keeps-IsBook _ (Frame.apply_save_turn-Keeps u role content db)
    apply_write_intent-IsBook pg (WriteIntent.outbound_reply u phone content key) e =
        Keeps-IsBook _ (Frame.save_outbound_reply-Keeps pg u phone content key db)
    apply_write_intent-IsBook pg (WriteIntent.add_recurring u recurring) e =
        Keeps-IsBook _ (Frame.add_recurring-Keeps pg u recurring db)
    apply_write_intent-IsBook pg (WriteIntent.remove_recurring u query) e =
        Keeps-IsBook _ (Frame.remove_recurring-Keeps pg u query db)
    apply_write_intent-IsBook pg
          (WriteIntent.edit_recurring u query amount category cadence dom dow) e =
        Keeps-IsBook _ (Frame.edit_recurring-Keeps pg u query amount category cadence dom dow db)
    apply_write_intent-IsBook pg (WriteIntent.transfer u amount from to memo date) e =
        Keeps-IsBook _ (Frame.apply_transfer-Keeps u amount from to memo date s db)
    apply_write_intent-IsBook pg (WriteIntent.consume_confirmation u id) e = record {
      balanced = b.balanced;
      linked = b.linked;
    }
