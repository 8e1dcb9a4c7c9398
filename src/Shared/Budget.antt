-- ===== src/Shared/Budget.antt =====
-- crates/shared/src/budget.rs: the line that a reply gets when spending nears or passes a budget.
pub mod Warnings
use andy.Base.{
  ℕ, Bool, true, false, not, ◌&&◌, Option, none, some, List, [], ◌∷◌, ◌++◌, ℤ, pos, negsuc, ◌-ℤ◌,
  max_ℤ, leb_ℤ, ltb_ℤ, abs_ℕ, unwrap_or, filter_map, Text, codes, decimal, if◌then◌else◌,
}
use andy.Domain.{NaiveDate, Category, category_str}
use andy.Shared.Money.{format_php}
use andy.Shared.Percent.{percent_rounded, ratio_crossed}

pub record BudgetSnapshot : Type 0 where
  pub category : Category
  pub limit : ℤ
  pub spent : ℤ

-- `BUDGET_NEAR_PERCENT`
abbrev pub budget_near_percent : ℤ
budget_near_percent = pos 80

unfoldable pub counts_toward_budget_reaction : NaiveDate → NaiveDate × NaiveDate → Bool
counts_toward_budget_reaction local_date month =
    leb_ℤ month.0 local_date && leb_ℤ local_date month.1

-- `i64::to_string`
abbrev pub signed_decimal : ℤ → Text
signed_decimal a = if ltb_ℤ a (pos 0) then codes "-" ++ decimal (abs_ℕ a) else decimal (abs_ℕ a)

abbrev pub over_line : BudgetSnapshot → Text
over_line current =
    codes "heads up, that puts you over your "
    ++ category_str current.category
    ++ codes " budget by "
    ++ format_php (current.spent -ℤ current.limit)
    ++ codes " this month 😬"

abbrev pub near_line : BudgetSnapshot → Text
near_line current =
    let pct = unwrap_or (pos 0) (percent_rounded current.spent current.limit) in
    let left = max_ℤ (current.limit -ℤ current.spent) (pos 0) in
    codes "that's "
    ++ signed_decimal pct
    ++ codes "% of your "
    ++ category_str current.category
    ++ codes " budget, "
    ++ format_php left
    ++ codes " left for the month 👀"

unfoldable pub budget_reaction_line : BudgetSnapshot → ℤ → Option Text
budget_reaction_line current prior_spent =
    let crossed_now = ratio_crossed current.spent current.limit budget_near_percent in
    let crossed_before = ratio_crossed prior_spent current.limit budget_near_percent in
    if leb_ℤ current.limit (pos 0)
    then none
    else if ltb_ℤ current.limit current.spent && leb_ℤ prior_spent current.limit
    then some (over_line current)
    else if crossed_now && not crossed_before
    then some (near_line current)
    else none

-- `just_logged_by_category` is the map's `get`.
unfoldable pub budget_reaction_lines : List BudgetSnapshot → (Category → Option ℤ) → List Text
unfolding budget_reaction_line
budget_reaction_lines statuses just_logged_by_category =
    filter_map
      (λ status.
        budget_reaction_line status
          (status.spent -ℤ unwrap_or (pos 0) (just_logged_by_category status.category)))
      statuses
