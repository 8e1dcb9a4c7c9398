-- ===== src/Ai/Sound.antt =====
-- What the writes that the tools of crates/ai buffer have in common.
pub mod Entries
pub mod Goals
pub mod Reminders
pub mod Calls
pub mod Turns
use andy.Base.{
  ◌≡◌, refl, ◌⊎◌, inl, inr, Bool, true, false, ◌||◌, Option, none, some, List, [], ◌∷◌, ◌++◌, any,
  is_some, map_some, text_eq, is_empty, ℤ, Text, ◌==◌, if◌then◌else◌,
}
use andy.Domain.{Uuid, Category, category_eq, TxKind, MemoryKind, WriteIntent}
use andy.Domain.Rows.{GoalRow, TransactionRow, RecurringRow}
use andy.Shared.Amounts.Bounds.{IsEntry}
use andy.Ai.Checked.{Fine, holds}
use andy.Ai.Context.{Libraries, FinanceToolContext}
use andy.Ai.Fields.{is_blank, should_save_memory}
use andy.Ai.Fields.Laws.{IsLogDate, HasDay}
use andy.Ai.Targets.{TransactionTarget, target_of_row, logged_category, last_buffered_transaction}
use andy.Ai.Writes.{Step, decline}

abbrev pub Maybe {ℓ κ} : {A : Type ℓ} → (A → Type κ) → Option A → Type κ
Maybe P none = Unit
Maybe P (some a) = P a

abbrev pub has_id : Uuid → GoalRow → Bool
has_id id goal = goal.id == id

abbrev pub IsKnown : FinanceToolContext → Uuid → Type 0
IsKnown ctx id = any (has_id id) ctx.snapshot.goals ≡ true

-- Whether a write edits or deletes the transaction that was logged in the same turn.
abbrev pub aims_back : WriteIntent → Bool
aims_back (WriteIntent.delete_last u target same_turn) = same_turn
aims_back (WriteIntent.edit_last u target same_turn cents category memo) = same_turn
aims_back w = false

abbrev pub IsItem : FinanceToolContext → Text → Type 0
IsItem ctx label =
    any (λ (item : RecurringRow). text_eq item.label label) ctx.snapshot.recurring ≡ true

-- A transaction whose category may change: no contribution to a goal, and no income.
abbrev pub IsOpen : Option TransactionTarget → Type 0
IsOpen none = ⊥
IsOpen (some t) = (t.goal_linked ≡ false) × (category_eq t.category Category.income ≡ false)

abbrev pub recategorizes : WriteIntent → Bool
recategorizes (WriteIntent.edit_last u target same_turn cents category memo) = is_some category
recategorizes w = false

-- A write that aims at the same turn follows a transaction of the turn, and changes its category only
-- if that may change.
abbrev pub IsAimed : List WriteIntent → WriteIntent → Type 0
IsAimed ws w =
    aims_back w ≡ true
    → (is_some (last_buffered_transaction ws) ≡ true)
      × (recategorizes w ≡ true → IsOpen (last_buffered_transaction ws))

-- The other edits and deletions aim at the last transaction of the ledger.
abbrev pub IsLast : FinanceToolContext → Option Uuid → Type 0
IsLast ctx target =
    (target ≡ map_some (λ (t : TransactionRow). t.id) ctx.snapshot.last_transaction)
    × (is_some target ≡ true)

abbrev pub flat : Option (Option ℤ) → Option ℤ
flat none = none
flat (some day) = day

pub unaimed {ℓ} : {A : Type ℓ} → false ≡ true → A
unaimed e = absurd (cc)

module _ (lib : Libraries) (ctx : FinanceToolContext) where
  -- A write that the tools may buffer: it is the user's, its amounts are entries, its dates can be
  -- logged, what it names is one of the user's, its names are filled in, its days fit the cadence that
  -- is given, and an edit changes something. The tools buffer no replies and consume no confirmations.
  abbrev pub IsSound : WriteIntent → Type 0
  IsSound (WriteIntent.transaction kind u cents category memo date account) =
      (u ≡ ctx.user_id)
      × IsEntry cents
      × IsLogDate lib ctx.today date
      × (logged_category kind category ≡ category)
  IsSound (WriteIntent.goal_contribution u goal cents date) =
      (u ≡ ctx.user_id) × IsEntry cents × IsLogDate lib ctx.today date × IsKnown ctx goal
  IsSound (WriteIntent.delete_last u target same_turn) =
      (u ≡ ctx.user_id) × (same_turn ≡ false → IsLast ctx target)
  IsSound (WriteIntent.edit_last u target same_turn cents category memo) =
      (u ≡ ctx.user_id)
      × Maybe IsEntry cents
      × (is_some cents || (is_some category || is_some memo) ≡ true)
      × (same_turn ≡ false → IsLast ctx target)
      × (same_turn ≡ false
          → is_some category ≡ true
          → IsOpen (map_some target_of_row ctx.snapshot.last_transaction))
  IsSound (WriteIntent.create_goal u name target date) =
      (u ≡ ctx.user_id) × IsEntry target × (is_empty name ≡ false)
  IsSound (WriteIntent.set_budget u category limit) = (u ≡ ctx.user_id) × IsEntry limit
  IsSound (WriteIntent.remove_budget u category) = u ≡ ctx.user_id
  IsSound (WriteIntent.edit_goal u goal name target date) =
      (u ≡ ctx.user_id)
      × Maybe IsEntry target
      × IsKnown ctx goal
      × Maybe (λ name. is_empty name ≡ false) name
      × (is_some name || (is_some target || is_some date) ≡ true)
  IsSound (WriteIntent.delete_goal u goal) = (u ≡ ctx.user_id) × IsKnown ctx goal
  IsSound (WriteIntent.save_memory u content kind) =
      (u ≡ ctx.user_id) × (should_save_memory content kind ≡ true) × (is_empty content ≡ false)
  IsSound (WriteIntent.forget_memory u query) = (u ≡ ctx.user_id) × (is_blank query ≡ false)
  IsSound (WriteIntent.save_turn u role content) = u ≡ ctx.user_id
  IsSound (WriteIntent.outbound_reply u phone content key) = ⊥
  IsSound (WriteIntent.add_recurring u r) =
      (u ≡ ctx.user_id)
      × IsEntry r.amount_centavos
      × HasDay r.cadence r.day_of_month r.day_of_week
      × (logged_category r.kind r.category ≡ r.category)
  IsSound (WriteIntent.remove_recurring u query) = (u ≡ ctx.user_id) × IsItem ctx query
  IsSound (WriteIntent.edit_recurring u query cents category every dom dow) =
      (u ≡ ctx.user_id)
      × Maybe IsEntry cents
      × IsItem ctx query
      × Maybe (λ every. HasDay every (flat dom) (flat dow)) every
      × (is_some cents
            || (is_some category || (is_some every || (is_some (flat dom) || is_some (flat dow))))
          ≡ true)
  IsSound (WriteIntent.transfer u cents from to memo date) =
      (u ≡ ctx.user_id)
      × IsEntry cents
      × IsLogDate lib ctx.today date
      × (is_some from || is_some to ≡ true)
  IsSound (WriteIntent.consume_confirmation u id) = ⊥

  -- A step adds at most one write, and that one is sound and aimed at a transaction.
  abbrev pub AddsOne : List WriteIntent → Step → Type 0
  AddsOne ws step =
      (step.1 ≡ ws) ⊎ ((w : WriteIntent) × (step.1 ≡ ws ++ w ∷ []) × IsSound w × IsAimed ws w)

  pub declined : (ws : List WriteIntent) (reason : Text) → Fine (AddsOne ws) (decline ws reason)
  declined ws reason = holds (inl refl)
