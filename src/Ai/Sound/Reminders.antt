-- ===== src/Ai/Sound/Reminders.antt =====
-- The tools on reminders (crates/ai/src/finance_tools.rs) add sound writes.
use andy.Base.{
  ◌≡◌, refl, inl, inr, arith, none, some, codes, text_eq, text_eq_refl, Option, List, map_some, ℤ,
  Text, Bool-cases,
}
use andy.Domain.{Cadence, TxKind, WriteIntent}
use andy.Shared.Amounts.Bounds.{IsEntry}
use andy.Shared.Categories.{coerce_category}
use andy.Ai.Checked.{each, Fine, holds, Fine-any, Fine-bind, Fine-eq}
use andy.Ai.Context.{Libraries, FinanceToolContext}
use andy.Ai.Args.{AddRecurringArgs, EditRecurringArgs, RemoveRecurringArgs}
use andy.Ai.Targets.{logged_category}
use andy.Ai.Fields.{amount, cadence, tx_kind, validate_recurring_days, find_one_recurring}
use andy.Ai.Fields.Laws.{amount-IsEntry, HasDay, validate_recurring_days-HasDay, find_one-any}
use andy.Ai.Writes.Reminders.{
  recurring_category, add_recurring, nothing_new, check_days, push_edit, edit_recurring,
  remove_recurring,
}
use andy.Ai.Sound.{Maybe, IsItem, flat, AddsOne, declined, unaimed}
use andy.Ai.Sound.Entries.{each-IsEntry}

find_one_recurring-IsItem :
    (ctx : FinanceToolContext) (query : Text)
    → Fine (λ item. IsItem ctx item.label) (find_one_recurring ctx.snapshot.recurring query)
unfolding find_one_recurring
find_one_recurring-IsItem ctx query =
    Fine-eq (λ item. IsItem ctx item.label) _
      λ item e.
        find_one-any (λ i. i.label) (codes "recurring label is required")
          (codes "no recurring reminder matching ") (codes " — say the exact label.")
          ctx.snapshot.recurring query (λ i. text_eq i.label item.label) item e
          (text_eq_refl item.label)

recurring_category-logged :
    (kind : TxKind) (category : Text)
    → logged_category kind (recurring_category kind category) ≡ recurring_category kind category
recurring_category-logged TxKind.income category = refl
recurring_category-logged TxKind.expense category = refl

flat-some : (day : Option ℤ) → flat (map_some some day) ≡ day
flat-some none = refl
flat-some (some day) = refl

module _ (lib : Libraries) (ctx : FinanceToolContext) (ws : List WriteIntent) where
  pub add_recurring-AddsOne :
      (args : AddRecurringArgs) → Fine (AddsOne lib ctx ws) (add_recurring lib ctx ws args)
  unfolding add_recurring
  add_recurring-AddsOne args =
      Fine-bind IsEntry (AddsOne lib ctx ws) (amount lib args.amount) _
        (amount-IsEntry lib args.amount)
        λ c h.
          Fine-bind (λ every. Unit {0}) (AddsOne lib ctx ws) (cadence args.cadence) _ (Fine-any _)
            λ every u.
              Fine-bind (λ v. HasDay every args.day_of_month args.day_of_week) (AddsOne lib ctx ws)
                (validate_recurring_days every args.day_of_month args.day_of_week) _
                (validate_recurring_days-HasDay every args.day_of_month args.day_of_week)
                λ v k. holds (
                  inr (
                    _,
                    refl,
                    (refl, h, k, recurring_category-logged (tx_kind args.kind) args.category),
                    unaimed,
                  ))

  push_edit-AddsOne :
      (args : EditRecurringArgs) (label : Text) (cents : Option ℤ) (every : Option Cadence)
      → Maybe IsEntry cents
      → IsItem ctx label
      → Maybe (λ every. HasDay every args.day_of_month args.day_of_week) every
      → Fine (AddsOne lib ctx ws) (push_edit lib ctx ws args label cents every)
  push_edit-AddsOne args label cents every h i d =
      elim (Bool-cases (
        nothing_new lib ctx ws cents (map_some coerce_category args.category) every
          args.day_of_month args.day_of_week)) [
            | inl e ↦ rw e (declined lib ctx ws _)
            | inr e ↦ rw e (
                holds (
                  inr (
                    _,
                    refl,
                    (
                      refl,
                      h,
                      i,
                      rw (flat-some args.day_of_month, flat-some args.day_of_week) d,
                      rw (flat-some args.day_of_month, flat-some args.day_of_week)
                          (ground (arith, e)),
                    ),
                    unaimed,
                  )))
          ]

  check_days-HasDay :
      (every : Option Cadence) (dom dow : Option ℤ)
      → Fine
          (λ w. Maybe (λ every. HasDay every dom dow) every)
          (check_days lib ctx ws every dom dow)
  check_days-HasDay none dom dow = holds tt
  check_days-HasDay (some every) dom dow = validate_recurring_days-HasDay every dom dow

  pub edit_recurring-AddsOne :
      (args : EditRecurringArgs) → Fine (AddsOne lib ctx ws) (edit_recurring lib ctx ws args)
  unfolding edit_recurring
  edit_recurring-AddsOne args =
      Fine-bind (λ hit. IsItem ctx hit.label) (AddsOne lib ctx ws)
        (find_one_recurring ctx.snapshot.recurring args.label) _
        (find_one_recurring-IsItem ctx args.label)
        λ hit i.
          Fine-bind (Maybe IsEntry) (AddsOne lib ctx ws) (each (amount lib) args.amount) _
            (each-IsEntry lib args.amount)
            λ cents h.
              Fine-bind (λ every. Unit {0}) (AddsOne lib ctx ws) (each cadence args.cadence) _
                (Fine-any _)
                λ every v.
                  Fine-bind
                    (λ w. Maybe (λ every. HasDay every args.day_of_month args.day_of_week) every)
                    (AddsOne lib ctx ws)
                    (check_days lib ctx ws every args.day_of_month args.day_of_week) _
                    (check_days-HasDay every args.day_of_month args.day_of_week)
                    λ w d. push_edit-AddsOne args hit.label cents every h i d

  pub remove_recurring-AddsOne :
      (args : RemoveRecurringArgs) → Fine (AddsOne lib ctx ws) (remove_recurring lib ctx ws args)
  unfolding remove_recurring
  remove_recurring-AddsOne args =
      Fine-bind (λ hit. IsItem ctx hit.label) (AddsOne lib ctx ws)
        (find_one_recurring ctx.snapshot.recurring args.label) _
        (find_one_recurring-IsItem ctx args.label)
        λ hit i. holds (inr (_, refl, (refl, i), unaimed))
