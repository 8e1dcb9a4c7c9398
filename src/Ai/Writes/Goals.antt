-- ===== src/Ai/Writes/Goals.antt =====
-- The tools of crates/ai/src/finance_tools.rs that buffer writes on savings goals.
use andy.Base.{
  Bool, false, not, ◌&&◌, Option, none, some, List, [], ◌∷◌, map_some, is_some, ℤ, Text, codes,
  trim, is_empty, one_of, if◌then◌else◌,
}
use andy.Domain.{NaiveDate, WriteIntent}
use andy.Domain.Rows.{GoalRow}
use andy.Ai.Json.{Json, optional}
use andy.Ai.Checked.{Checked, fine, ◌>>=◌, each}
use andy.Ai.Context.{Libraries, FinanceToolContext}
use andy.Ai.Args.{CreateGoalArgs, ContributeGoalArgs, EditGoalArgs, DeleteGoalArgs}
use andy.Ai.Fields.{amount, log_date, optional_calendar, calendar, lowered, find_one_goal}
use andy.Ai.Writes.{Step, decline, push, php}

-- `name.as_deref() == Some("")`
abbrev pub names_nothing : Option Text → Bool
names_nothing none = false
names_nothing (some name) = is_empty name

module _ (lib : Libraries) (ctx : FinanceToolContext) (writes : List WriteIntent) where
  abbrev pub date_json : NaiveDate → Json
  date_json d = Json.str (lib.calendar.date_text d)

  unfoldable pub create_goal : CreateGoalArgs → Checked Step
  create_goal args =
      let name = trim args.name in
      let named : Checked Step = (do
        target ← amount lib args.target
        target_date ← optional_calendar lib args.target_date
        push writes (WriteIntent.create_goal ctx.user_id name target target_date) (
            (codes "name", Json.str name)
            ∷ (codes "target", php target)
            ∷ (codes "targetDate", optional date_json target_date)
            ∷ [])) in
      if is_empty name then decline writes (codes "what should i call this goal?") else named

  unfoldable pub contribute_to_goal : ContributeGoalArgs → Checked Step
  contribute_to_goal args = do
    cents ← amount lib args.amount
    date ← log_date lib args.date ctx.today
    goal ← find_one_goal ctx.snapshot.goals args.goal_name
    push writes (WriteIntent.goal_contribution ctx.user_id goal.id cents date) (
        (codes "goal", Json.str goal.name)
        ∷ (codes "added", php cents)
        ∷ (codes "date", date_json date)
        ∷ [])

  -- `None` leaves the deadline, `Some(None)` clears it.
  abbrev pub new_deadline : Option Text → Checked (Option (Option NaiveDate))
  new_deadline none = fine none
  new_deadline (some raw) =
      if one_of (lowered raw) ([] ∷ codes "none" ∷ codes "clear" ∷ [])
      then fine (some none)
      else calendar lib raw >>= λ date. fine (some (some date))

  abbrev pub push_edit : GoalRow → Option Text → Option ℤ → Option (Option NaiveDate) → Checked Step
  push_edit goal name target target_date =
      if not (is_some name) && (not (is_some target) && not (is_some target_date))
      then decline writes (codes "no change specified — pass a new name, target, or deadline")
      else push writes (WriteIntent.edit_goal ctx.user_id goal.id name target target_date)
          ((codes "goal", Json.str goal.name) ∷ [])

  abbrev pub edit_found : EditGoalArgs → GoalRow → Checked Step
  edit_found args goal =
      let name = map_some trim args.new_name in
      let named : Checked Step = (do
        target ← each (amount lib) args.target
        target_date ← new_deadline args.target_date
        push_edit goal name target target_date) in
      if names_nothing name then decline writes (codes "the new name can't be empty") else named

  unfoldable pub edit_goal : EditGoalArgs → Checked Step
  edit_goal args = find_one_goal ctx.snapshot.goals args.goal_name >>= edit_found args

  unfoldable pub delete_goal : DeleteGoalArgs → Checked Step
  delete_goal args = do
    goal ← find_one_goal ctx.snapshot.goals args.goal_name
    push writes (WriteIntent.delete_goal ctx.user_id goal.id)
        ((codes "deleted", Json.str goal.name) ∷ [])
