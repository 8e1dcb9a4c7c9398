-- ===== src/Shared/Analytics/Pace.antt =====
-- The projections of crates/shared/src/analytics.rs, over the arithmetic of floats.
use andy.Base.{
  ℕ, ◌-◌, ◌/◌, ◌%◌, Bool, false, not, ◌&&◌, ◌||◌, Option, none, some, List, [], ◌∷◌, keep, length,
  drop, unwrap_or, ℤ, pos, ◌-ℤ◌, ltb_ℤ, leb_ℤ, eqb_ℤ, max_ℤ, saturating_add, ltb, ◌==◌,
  if◌then◌else◌,
}
use andy.Shared.Floats.{Floats}
use andy.Shared.Budget.{budget_near_percent}

pub record PaceVerdict : Type 0 where
  pub spent_so_far : ℤ
  pub projected : ℤ
  pub limit : ℤ
  pub will_exceed : Bool
  pub projected_over : ℤ

-- `fold(0, i64::saturating_add)`
abbrev pub saturating_sum_from : ℤ → List ℤ → ℤ
saturating_sum_from acc [] = acc
saturating_sum_from acc (a ∷ rest) = saturating_sum_from (saturating_add acc a) rest

-- `sort_unstable`
abbrev pub insert_sorted : ℤ → List ℤ → List ℤ
insert_sorted a [] = a ∷ []
insert_sorted a (b ∷ bs) = if leb_ℤ a b then a ∷ (b ∷ bs) else b ∷ insert_sorted a bs

abbrev pub sort_unstable : List ℤ → List ℤ
sort_unstable [] = []
sort_unstable (a ∷ rest) = insert_sorted a (sort_unstable rest)

-- `xs[i]`, which is in range where this is used.
abbrev pub head_or_zero : List ℤ → ℤ
head_or_zero [] = pos 0
head_or_zero (a ∷ rest) = a

abbrev pub at_index : ℕ → List ℤ → ℤ
at_index i xs = head_or_zero (drop i xs)

module _ (floats : Floats) where
  open floats use {Float, of_i64, add, mul, div, ge, gt, round, tenth}

  -- `BUDGET_NEAR_RATIO`
  unfoldable pub budget_near_ratio : Float
  budget_near_ratio = div (of_i64 budget_near_percent) (of_i64 (pos 100))

  -- `(spent / day * days).round() as i64`
  abbrev pub projection : ℤ → ℤ → ℤ → ℤ
  projection spent day_of_month days_in_month =
      round (mul (div (of_i64 spent) (of_i64 day_of_month)) (of_i64 days_in_month))

  unfoldable pub project_month_end : ℤ → ℤ → ℤ → ℤ
  project_month_end spent_so_far day_of_month days_in_month =
      if ltb_ℤ day_of_month (pos 1)
      then spent_so_far
      else projection spent_so_far day_of_month days_in_month

  unfoldable pub median : List ℤ → Float
  median amounts =
      let sorted = sort_unstable amounts in
      let mid = length sorted / 2 in
      if length sorted % 2 == 0
      then div (add (of_i64 (at_index (mid - 1) sorted)) (of_i64 (at_index mid sorted)))
          (of_i64 (pos 2))
      else of_i64 (at_index mid sorted)

  unfoldable pub project_month_end_robust : List ℤ → ℤ → ℤ → ℤ
  unfolding project_month_end median
  project_month_end_robust amounts day_of_month days_in_month =
      let spent_so_far = saturating_sum_from (pos 0) amounts in
      let threshold = mul (median amounts) (of_i64 (pos 2)) in
      let is_outlier = λ (amount : ℤ). gt (of_i64 amount) threshold in
      let outlier_total = saturating_sum_from (pos 0) (keep is_outlier amounts) in
      let typical_total =
        saturating_sum_from (pos 0) (keep (λ amount. not (is_outlier amount)) amounts) in
      let plain = project_month_end spent_so_far day_of_month days_in_month in
      let projected =
        saturating_add (projection typical_total day_of_month days_in_month) outlier_total in
      if ltb_ℤ day_of_month (pos 1)
      then spent_so_far
      else if ltb (length amounts) 3
      then plain
      else if eqb_ℤ outlier_total (pos 0)
      then plain
      else max_ℤ projected spent_so_far

  abbrev pub projected_by : Option (List ℤ) → ℤ → ℤ → ℤ → ℤ
  projected_by none spent_so_far day_of_month days_in_month =
      project_month_end spent_so_far day_of_month days_in_month
  projected_by (some amounts) spent_so_far day_of_month days_in_month =
      project_month_end_robust amounts day_of_month days_in_month

  unfoldable pub spending_pace : ℤ → ℤ → ℤ → ℤ → Option (List ℤ) → PaceVerdict
  spending_pace spent_so_far day_of_month days_in_month limit amounts =
      let projected = projected_by amounts spent_so_far day_of_month days_in_month in
      let has_budget = ltb_ℤ (pos 0) limit in
      let will_exceed = has_budget && ltb_ℤ limit projected in
      record {
        spent_so_far = spent_so_far;
        projected = projected;
        limit = if has_budget then limit else pos 0;
        will_exceed = will_exceed;
        projected_over = if will_exceed then projected -ℤ limit else pos 0;
      }

  unfoldable pub should_warn_pace : PaceVerdict → ℤ → Option ℤ → Option Float → Option Float → Bool
  unfolding budget_near_ratio
  should_warn_pace verdict day_of_month min_day near_ratio margin_ratio =
      let near = unwrap_or budget_near_ratio near_ratio in
      let margin = unwrap_or tenth margin_ratio in
      if leb_ℤ verdict.limit (pos 0) || ltb_ℤ day_of_month (unwrap_or (pos 5) min_day)
      then false
      else if ge (of_i64 verdict.spent_so_far) (mul (of_i64 verdict.limit) near)
      then false
      else ge (of_i64 verdict.projected) (mul (of_i64 verdict.limit) (add (of_i64 (pos 1)) margin))
