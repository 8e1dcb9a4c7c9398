-- ===== src/Ai/Targets.antt =====
-- The transaction that `edit_last` and `delete_last` of crates/ai/src/finance_tools.rs aim at.
pub mod Flushed
use andy.Base.{Bool, true, false, Option, none, some, List, [], ◌∷◌, is_some, Text}
use mathlib.Core.List.{reverse}
use andy.Domain.{Uuid, Category, TxKind, WriteIntent}
use andy.Domain.Rows.{TransactionRow}

-- `id` is `Uuid::nil()`, and not used, for a transaction of the same turn.
pub record TransactionTarget : Type 0 where
  pub id : Uuid
  pub same_turn : Bool
  pub category : Category
  pub note : Option Text
  pub goal_linked : Bool

-- `From<&TransactionRow>`
abbrev pub target_of_row : TransactionRow → TransactionTarget
target_of_row value = record {
  id = value.id;
  same_turn = false;
  category = value.category;
  note = value.note;
  goal_linked = is_some value.goal_id;
}

-- What one write says of the search: it is the transaction, it ends the search, or neither.
pub data Found : Type 0 where
  here : TransactionTarget → Found
  deleted unrelated : Found

abbrev pub logged_category : TxKind → Category → Category
logged_category TxKind.income category = Category.income
logged_category TxKind.expense category = category

unfoldable pub found_in : WriteIntent → Found
found_in (WriteIntent.transaction kind user amount category note date account) =
    Found.here (record {
      id = 0;
      same_turn = true;
      category = logged_category kind category;
      note = note;
      goal_linked = false;
    })
found_in (WriteIntent.goal_contribution user goal amount date) = Found.here (record {
  id = 0;
  same_turn = true;
  category = Category.savings_goals;
  note = none;
  goal_linked = true;
})
found_in (WriteIntent.delete_last user target true) = Found.deleted
found_in _ = Found.unrelated

-- The loop over the writes, the latest first.
abbrev pub search_back : List WriteIntent → Option TransactionTarget
search_back [] = none
search_back (w ∷ ws) = elim (found_in w) [
  | Found.here target ↦ some target
  | Found.deleted ↦ none
  | Found.unrelated ↦ search_back ws
]

unfoldable pub last_buffered_transaction : List WriteIntent → Option TransactionTarget
unfolding found_in
last_buffered_transaction writes = search_back (reverse writes)
