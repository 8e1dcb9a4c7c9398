-- ===== src/Ai/Sound/Goals.antt =====
-- The tools on savings goals (crates/ai/src/finance_tools.rs) add sound writes.
use andy.Base.{
  ◌≡◌, refl, inl, inr, false, none, some, arith, not, ◌&&◌, Option, List, map_some, is_some,
  is_empty, trim, ℤ, Text, codes, ==_refl, Bool-cases,
}
use andy.Domain.{NaiveDate, WriteIntent}
use andy.Domain.Rows.{GoalRow}
use andy.Shared.Amounts.Bounds.{IsEntry}
use andy.Ai.Checked.{each, Fine, holds, Fine-any, Fine-bind, Fine-eq}
use andy.Ai.Context.{Libraries, FinanceToolContext}
use andy.Ai.Args.{CreateGoalArgs, ContributeGoalArgs, EditGoalArgs, DeleteGoalArgs}
use andy.Ai.Fields.{amount, optional_calendar, find_one_goal}
use andy.Ai.Fields.Laws.{amount-IsEntry, find_one-any}
use andy.Ai.Writes.Goals.{
  names_nothing, create_goal, contribute_to_goal, new_deadline, push_edit, edit_found, edit_goal,
  delete_goal,
}
use andy.Ai.Sound.{Maybe, has_id, IsKnown, AddsOne, declined, unaimed}
use andy.Ai.Sound.Entries.{each-IsEntry, entry_and_date}

find_one_goal-IsKnown :
    (ctx : FinanceToolContext) (query : Text)
    → Fine (λ goal. IsKnown ctx goal.id) (find_one_goal ctx.snapshot.goals query)
unfolding find_one_goal
find_one_goal-IsKnown ctx query =
    Fine-eq (λ goal. IsKnown ctx goal.id) _
      λ goal e.
        find_one-any (λ g. g.name) (codes "goal name is required") (codes "no goal matching ")
          (codes " — say the exact name.") ctx.snapshot.goals query (has_id goal.id) goal e
          (==_refl goal.id)

module _ (lib : Libraries) (ctx : FinanceToolContext) (ws : List WriteIntent) where
  pub create_goal-AddsOne :
      (args : CreateGoalArgs) → Fine (AddsOne lib ctx ws) (create_goal lib ctx ws args)
  unfolding create_goal
  create_goal-AddsOne args = elim (Bool-cases (is_empty (trim args.name))) [
    | inl e ↦ rw e (declined lib ctx ws _)
    | inr e ↦ rw e (
        Fine-bind IsEntry (AddsOne lib ctx ws) (amount lib args.target) _
          (amount-IsEntry lib args.target)
          λ c h.
            Fine-bind (λ d. Unit {0}) (AddsOne lib ctx ws) (optional_calendar lib args.target_date)
              _ (Fine-any _) λ d u. holds (inr (_, refl, (refl, h, e), unaimed)))
  ]

  pub contribute_to_goal-AddsOne :
      (args : ContributeGoalArgs) → Fine (AddsOne lib ctx ws) (contribute_to_goal lib ctx ws args)
  unfolding contribute_to_goal
  contribute_to_goal-AddsOne args = entry_and_date lib ctx ws args.amount args.date _ λ c d hc hd.
      Fine-bind (λ goal. IsKnown ctx goal.id) (AddsOne lib ctx ws)
        (find_one_goal ctx.snapshot.goals args.goal_name) _
        (find_one_goal-IsKnown ctx args.goal_name)
        λ goal k. holds (inr (_, refl, (refl, hc, hd, k), unaimed))

  push_edit-AddsOne :
      (goal : GoalRow) (name : Option Text) (target : Option ℤ)
      (target_date : Option (Option NaiveDate))
      → IsKnown ctx goal.id
      → Maybe IsEntry target
      → Maybe (λ name. is_empty name ≡ false) name
      → Fine (AddsOne lib ctx ws) (push_edit lib ctx ws goal name target target_date)
  push_edit-AddsOne goal name target target_date k h f =
      elim (Bool-cases
        (not (is_some name) && (not (is_some target) && not (is_some target_date)))) [
          | inl e ↦ rw e (declined lib ctx ws _)
          | inr e ↦ rw e (holds (inr (_, refl, (refl, h, k, f, ground (arith, e)), unaimed)))
        ]

  filled_name :
      (name : Option Text) → names_nothing name ≡ false → Maybe (λ name. is_empty name ≡ false) name
  filled_name none e = tt
  filled_name (some name) e = e

  edit_found-AddsOne :
      (args : EditGoalArgs) (goal : GoalRow)
      → IsKnown ctx goal.id
      → Fine (AddsOne lib ctx ws) (edit_found lib ctx ws args goal)
  edit_found-AddsOne args goal k = elim (Bool-cases (names_nothing (map_some trim args.new_name))) [
    | inl e ↦ rw e (declined lib ctx ws _)
    | inr e ↦ rw e (
        Fine-bind (Maybe IsEntry) (AddsOne lib ctx ws) (each (amount lib) args.target) _
          (each-IsEntry lib args.target)
          λ target h.
            Fine-bind (λ d. Unit {0}) (AddsOne lib ctx ws)
              (new_deadline lib ctx ws args.target_date) _ (Fine-any _)
              λ d u.
                push_edit-AddsOne goal (map_some trim args.new_name) target d k h
                  (filled_name (map_some trim args.new_name) e))
  ]

  pub edit_goal-AddsOne :
      (args : EditGoalArgs) → Fine (AddsOne lib ctx ws) (edit_goal lib ctx ws args)
  unfolding edit_goal
  edit_goal-AddsOne args =
      Fine-bind (λ goal. IsKnown ctx goal.id) (AddsOne lib ctx ws)
        (find_one_goal ctx.snapshot.goals args.goal_name) _
        (find_one_goal-IsKnown ctx args.goal_name) (edit_found-AddsOne args)

  pub delete_goal-AddsOne :
      (args : DeleteGoalArgs) → Fine (AddsOne lib ctx ws) (delete_goal lib ctx ws args)
  unfolding delete_goal
  delete_goal-AddsOne args =
      Fine-bind (λ goal. IsKnown ctx goal.id) (AddsOne lib ctx ws)
        (find_one_goal ctx.snapshot.goals args.goal_name) _
        (find_one_goal-IsKnown ctx args.goal_name)
        λ goal k. holds (inr (_, refl, (refl, k), unaimed))
