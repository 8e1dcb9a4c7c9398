-- ===== src/Ai/Writes.antt =====
-- The tools of crates/ai/src/finance_tools.rs that buffer writes on transactions, budgets and
-- memories. A tool takes the writes buffered so far and gives its answer with the writes after it; a
-- tool that is refused has buffered nothing.
pub mod Goals
pub mod Reminders
use andy.Base.{
  Bool, true, false, not, ◌&&◌, Option, none, some, List, [], ◌∷◌, ◌++◌, map_some, is_some, ℤ, Text,
  codes, trim, is_empty, if◌then◌else◌,
}
use andy.Domain.{NaiveDate, Category, category_str, category_eq, TxKind, WriteIntent}
use andy.Shared.Money.{format_php}
use andy.Shared.Categories.{coerce_category}
use andy.Shared.ExpenseCategory.{coerce_expense_category}
use andy.Ai.Json.{Json, object, optional}
use andy.Ai.Checked.{Checked, fine, refused, ◌>>=◌, each}
use andy.Ai.Context.{Libraries, FinanceToolContext}
use andy.Ai.Args.{
  LogExpenseArgs, LogIncomeArgs, TransferArgs, EditLastArgs, BudgetArgs, RememberArgs, ForgetArgs,
}
use andy.Ai.Fields.{
  amount, log_date, is_blank, only_if, clean_account, memory_kind, should_save_memory,
}
use andy.Ai.Targets.{TransactionTarget, target_of_row, last_buffered_transaction}

-- The answer to the model and the writes buffered after the tool.
abbrev pub Step : Type 0
Step = Json × List WriteIntent

-- `json!({ "ok": false, "error": … })`
abbrev pub failure : Text → Json
failure reason = object ((codes "ok", Json.bool false) ∷ (codes "error", Json.str reason) ∷ [])

-- `json!({ "ok": true, … })`
abbrev pub success : List (Text × Json) → Json
success ms = object ((codes "ok", Json.bool true) ∷ ms)

abbrev pub php : ℤ → Json
php c = Json.str (format_php c)

abbrev pub category_json : Category → Json
category_json c = Json.str (category_str c)

abbrev pub decline : List WriteIntent → Text → Checked Step
decline writes reason = fine (failure reason, writes)

-- `writes.push(…); Ok(json!({ "ok": true, … }))`
abbrev pub push : List WriteIntent → WriteIntent → List (Text × Json) → Checked Step
push writes w ms = fine (success ms, writes ++ w ∷ [])

-- A note that is not blank.
abbrev pub note_of : Option Text → Option Text
note_of = only_if (λ n. not (is_blank n))

module _ (lib : Libraries) (ctx : FinanceToolContext) (writes : List WriteIntent) where
  abbrev pub date_json : NaiveDate → Json
  date_json d = Json.str (lib.calendar.date_text d)

  unfoldable pub log_expense : LogExpenseArgs → Checked Step
  log_expense args = do
    cents ← amount lib args.amount
    date ← log_date lib args.date ctx.today
    let category = coerce_expense_category (some args.category) args.note
    push writes
        (WriteIntent.transaction TxKind.expense ctx.user_id cents category (note_of args.note) date
          (clean_account args.account))
        ((codes "logged", php cents)
          ∷ (codes "category", category_json category)
          ∷ (codes "date", date_json date)
          ∷ [])

  unfoldable pub log_income : LogIncomeArgs → Checked Step
  log_income args = do
    cents ← amount lib args.amount
    date ← log_date lib args.date ctx.today
    push writes
        (WriteIntent.transaction TxKind.income ctx.user_id cents Category.income (note_of args.note)
          date (clean_account args.account))
        ((codes "logged", php cents) ∷ (codes "date", date_json date) ∷ [])

  unfoldable pub log_transfer : TransferArgs → Checked Step
  log_transfer args = do
    cents ← amount lib args.amount
    date ← log_date lib args.date ctx.today
    let from = clean_account args.from_account
    let to = clean_account args.to_account
    (if not (is_some from) && not (is_some to)
        then decline writes (codes "a transfer needs a from or to account")
        else push writes (WriteIntent.transfer ctx.user_id cents from to (note_of args.note) date) (
            (codes "transferred", php cents)
            ∷ (codes "from", optional Json.str from)
            ∷ (codes "to", optional Json.str to)
            ∷ (codes "date", date_json date)
            ∷ []))

  -- The transaction of this turn, or else the last one of the ledger.
  abbrev pub edit_target : Option TransactionTarget → Option TransactionTarget
  edit_target (some t) = some t
  edit_target none = map_some target_of_row ctx.snapshot.last_transaction

  -- Why the category of the target cannot be changed.
  abbrev pub fixed_category : TransactionTarget → Option Text
  fixed_category target =
      if target.goal_linked
      then some (
          codes
            "that's a goal contribution — its category stays Savings/Goals. edit the amount instead.")
      else if category_eq target.category Category.income
      then some (codes "that's income — it stays under Income. edit the amount instead.")
      else none

  abbrev pub push_edit : TransactionTarget → Option ℤ → Option Category → Option Text → Checked Step
  push_edit target cents category note =
      if not (is_some cents) && (not (is_some category) && not (is_some note))
      then decline writes (codes "no change specified — pass the new amount, category, or note")
      else push writes
          (WriteIntent.edit_last ctx.user_id (if not target.same_turn then some target.id else none)
            target.same_turn cents category note)
          ((codes "updated", Json.bool true) ∷ [])

  abbrev pub note_or : Option Text → Option Text → Option Text
  note_or (some n) other = some n
  note_or none other = other

  abbrev pub edit_category :
      TransactionTarget → Option ℤ → EditLastArgs → Option Text → Checked Step
  edit_category target cents args none = push_edit target cents none args.note
  edit_category target cents args (some category) = elim (fixed_category target) [
    | some reason ↦ decline writes reason
    | none ↦
        push_edit target cents
          (some (coerce_expense_category (some category) (note_or args.note target.note))) args.note
  ]

  unfoldable pub edit_last : EditLastArgs → Checked Step
  edit_last args = elim (edit_target (last_buffered_transaction writes)) [
    | none ↦ decline writes (codes "nothing to edit")
    | some target ↦ do
      cents ← each (amount lib) args.amount
      edit_category target cents args args.category
  ]

  unfoldable pub delete_last : Checked Step
  delete_last = elim (last_buffered_transaction writes) [
    | some target ↦
        push writes (WriteIntent.delete_last ctx.user_id none true)
          ((codes "deleted", Json.bool true) ∷ [])
    | none ↦ elim ctx.snapshot.last_transaction [
      | none ↦ decline writes (codes "nothing to delete")
      | some last ↦
          push writes (WriteIntent.delete_last ctx.user_id (some last.id) false)
            ((codes "deleted", Json.bool true) ∷ [])
    ]
  ]

  unfoldable pub set_budget : BudgetArgs → Checked Step
  set_budget args = elim args.monthly_limit [
    | none ↦ decline writes (codes "monthlyLimit is required")
    | some monthly_limit ↦ do
      limit ← amount lib monthly_limit
      let category = coerce_category args.category
      push writes (WriteIntent.set_budget ctx.user_id category limit)
          ((codes "category", category_json category) ∷ (codes "monthlyLimit", php limit) ∷ [])
  ]

  unfoldable pub remove_budget : BudgetArgs → Checked Step
  remove_budget args =
      let category = coerce_category args.category in
      push writes (WriteIntent.remove_budget ctx.user_id category)
        ((codes "removed", category_json category) ∷ [])

  unfoldable pub remember : RememberArgs → Checked Step
  remember args =
      let content = trim args.fact in
      let kind = memory_kind args.kind in
      if is_empty content
      then decline writes (codes "nothing to remember")
      else if not (should_save_memory content kind)
      then decline writes
          (codes "memory must be a durable fact or preference, not a one-off message")
      else push writes (WriteIntent.save_memory ctx.user_id content kind)
          ((codes "remembered", Json.str content) ∷ [])

  unfoldable pub forget_memory : ForgetArgs → Checked Step
  forget_memory args =
      if is_blank args.query
      then decline writes (codes "what should i forget?")
      else push writes (WriteIntent.forget_memory ctx.user_id args.query)
          ((codes "forgetting", Json.bool true) ∷ [])
