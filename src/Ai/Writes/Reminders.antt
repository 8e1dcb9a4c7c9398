-- ===== src/Ai/Writes/Reminders.antt =====
-- The tools of crates/ai/src/finance_tools.rs that buffer writes on recurring reminders.
use andy.Base.{
  Bool, not, ◌&&◌, Option, none, some, List, [], ◌∷◌, map_some, is_some, ℤ, Text, codes,
  if◌then◌else◌,
}
use andy.Domain.{Category, TxKind, Cadence, RecurringInput, WriteIntent}
use andy.Shared.Categories.{coerce_category}
use andy.Ai.Json.{Json}
use andy.Ai.Checked.{Checked, fine, ◌>>=◌, ◌>>◌, each}
use andy.Ai.Context.{Libraries, FinanceToolContext}
use andy.Ai.Args.{AddRecurringArgs, EditRecurringArgs, RemoveRecurringArgs}
use andy.Ai.Fields.{amount, cadence, validate_recurring_days, tx_kind, find_one_recurring}
use andy.Ai.Writes.{Step, decline, push, php}

abbrev pub recurring_category : TxKind → Text → Category
recurring_category TxKind.income category = Category.income
recurring_category TxKind.expense category = coerce_category category

module _ (lib : Libraries) (ctx : FinanceToolContext) (writes : List WriteIntent) where
  unfoldable pub add_recurring : AddRecurringArgs → Checked Step
  add_recurring args = do
    cents ← amount lib args.amount
    every ← cadence args.cadence
    validate_recurring_days every args.day_of_month args.day_of_week
    let kind = tx_kind args.kind
    let input : RecurringInput = record {
      label = args.label;
      kind = kind;
      amount_centavos = cents;
      category = recurring_category kind args.category;
      cadence = every;
      day_of_month = args.day_of_month;
      day_of_week = args.day_of_week;
    }
    push writes (WriteIntent.add_recurring ctx.user_id input) (
        (codes "label", Json.str args.label)
        ∷ (codes "amount", php cents)
        ∷ (codes "cadence", Json.str args.cadence)
        ∷ [])

  abbrev pub nothing_new : Option ℤ → Option Category → Option Cadence → Option ℤ → Option ℤ → Bool
  nothing_new cents category every day_of_month day_of_week =
      not (is_some cents)
      && (not (is_some category)
          && (not (is_some every) && (not (is_some day_of_month) && not (is_some day_of_week))))

  -- The days are looked at only if a cadence is given.
  abbrev pub check_days : Option Cadence → Option ℤ → Option ℤ → Checked (Unit {0})
  check_days none day_of_month day_of_week = fine tt
  check_days (some every) day_of_month day_of_week =
      validate_recurring_days every day_of_month day_of_week

  abbrev pub push_edit : EditRecurringArgs → Text → Option ℤ → Option Cadence → Checked Step
  push_edit args label cents every =
      let category = map_some coerce_category args.category in
      if nothing_new cents category every args.day_of_month args.day_of_week
      then decline writes
          (codes "no change specified — pass a new amount, category, cadence, or day")
      else push writes
          (WriteIntent.edit_recurring ctx.user_id label cents category every
            (map_some some args.day_of_month) (map_some some args.day_of_week))
          ((codes "label", Json.str label) ∷ [])

  unfoldable pub edit_recurring : EditRecurringArgs → Checked Step
  edit_recurring args = do
    hit ← find_one_recurring ctx.snapshot.recurring args.label
    cents ← each (amount lib) args.amount
    every ← each cadence args.cadence
    check_days every args.day_of_month args.day_of_week
    push_edit args hit.label cents every

  unfoldable pub remove_recurring : RemoveRecurringArgs → Checked Step
  remove_recurring args = do
    hit ← find_one_recurring ctx.snapshot.recurring args.label
    push writes (WriteIntent.remove_recurring ctx.user_id hit.label)
        ((codes "removed", Json.str hit.label) ∷ [])
