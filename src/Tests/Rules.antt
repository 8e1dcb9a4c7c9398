-- ===== src/Tests/Rules.antt =====
-- The pure rules of crates/ai, crates/shared and crates/db at concrete inputs.
use Prim.Native.Nat.{min}
use andy.Base.{
  trim, lower_char, to_ascii_lowercase, ◌+◌, ◌≤◌, ◌≡◌, ◌↔◌, refl, true, none, some, List, [], ◌∷◌,
  any, pos, ◌+ℤ◌, ◌*ℤ◌, ◌/ℤ◌, Text, codes, contains, arith,
}
use andy.Domain.{WriteIntent, Category, category_str, TxKind, MemoryKind}
use andy.Policy.{
  WriteRisk, classify_writes, from_threshold, is_one_off_memory, amount_of, total_amount_centavos,
}
use andy.Policy.Total.{exact_total, total_amount_centavos-eq-min}
use andy.Policy.Classify.{IsSafeTurn, classify_writes-safe_iff, classify_writes-reject_iff}
use andy.Db.Like.{like, substring_pattern}
use andy.Db.Like.Escape.{like-escape_like}
use andy.Shared.Percent.{percent_rounded, rounded_quotient}
use andy.Shared.Percent.Rounding.{IsNearest, percent_rounded-IsNearest}
use andy.Shared.Budget.Warnings.{warnings, phase, warnings-le}
use andy.Shared.Categories.{coerce_category}
use andy.Shared.Categories.RoundTrip.{coerce_category-category_str}
use andy.Shared.Security.{constant_time_equal}
use andy.Shared.Security.Equal.{constant_time_equal_iff}

abbrev lunch : List WriteIntent
lunch = WriteIntent.transaction TxKind.expense 1 (pos 12000) Category.food none (pos 1) none ∷ []

abbrev sneaky : List WriteIntent
sneaky = WriteIntent.save_memory 1 (codes "spent 120 on lunch") MemoryKind.fact ∷ []

classify_writes-safe_iff_example :
    (classify_writes (codes "lunch 120") lunch (from_threshold none) ≡ WriteRisk.safe)
    ↔ IsSafeTurn lunch (pos 5000000)
unfolding from_threshold amount_of
classify_writes-safe_iff_example =
    classify_writes-safe_iff (codes "lunch 120") lunch (from_threshold none)
      ((omega arith, omega arith), tt) (omega arith) (omega arith)

classify_writes-reject_iff_example :
    ((reason : Text) × (classify_writes (codes "remember") sneaky (from_threshold none)
        ≡ WriteRisk.reject reason))
    ↔ (any is_one_off_memory sneaky ≡ true)
classify_writes-reject_iff_example =
    classify_writes-reject_iff (codes "remember") sneaky (from_threshold none)

total_amount_centavos-eq-min_example :
    total_amount_centavos lunch ≡ pos (min 9223372036854775807 (exact_total lunch))
unfolding amount_of
total_amount_centavos-eq-min_example =
    total_amount_centavos-eq-min lunch ((omega arith, omega arith), tt)

like-escape_like_example :
    like (substring_pattern (codes "50%")) (codes "up 50% now")
    ≡ contains (codes "50%") (codes "up 50% now")
like-escape_like_example = like-escape_like (codes "50%") (codes "up 50% now")

constant_time_equal_iff_example :
    (constant_time_equal (codes "+63917") (codes "+63918") ≡ true)
    ↔ (codes "+63917" ≡ codes "+63918")
constant_time_equal_iff_example = constant_time_equal_iff (codes "+63917") (codes "+63918")

two_thirds : percent_rounded (pos 2) (pos 3) ≡ some (pos 67)
unfolding percent_rounded rounded_quotient ◌+ℤ◌ ◌*ℤ◌ ◌/ℤ◌
two_thirds = refl

percent_rounded-IsNearest_example : IsNearest (pos 2 *ℤ pos 100) 3 (pos 67)
percent_rounded-IsNearest_example = percent_rounded-IsNearest (pos 2) 2 (pos 67) two_thirds

-- A limit of a hundred pesos, and spending that grows to 85 and then to 120 pesos.
warnings-le_example :
    warnings Category.food (pos 10000) (pos 5000) (pos 8500 ∷ (pos 12000 ∷ []))
      + phase (pos 10000) (pos 5000)
    ≤ 2
warnings-le_example =
    warnings-le Category.food (pos 10000) (pos 5000) (pos 8500 ∷ (pos 12000 ∷ []))
      (omega arith, (omega arith, tt))

spaced :
    to_ascii_lowercase (trim (codes "  sAvings/goals "))
    ≡ to_ascii_lowercase (category_str Category.savings_goals)
unfolding trim lower_char
spaced = refl

coerce_category-category_str_example :
    coerce_category (codes "  sAvings/goals ") ≡ Category.savings_goals
coerce_category-category_str_example =
    coerce_category-category_str (codes "  sAvings/goals ") Category.savings_goals spaced
