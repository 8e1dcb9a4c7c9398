-- ===== src/Shared/ExpenseCategory.antt =====
-- crates/shared/src/expense_category.rs
use andy.Base.{
  Bool, not, ◌||◌, Option, none, some, List, [], ◌∷◌, Text, to_ascii_lowercase, is_empty, split,
  is_ascii_alphanumeric, map_some, unwrap_or, if◌then◌else◌,
}
use andy.Domain.{Category, category_eq}
use andy.Shared.Categories.{coerce_category}

abbrev pub is_vague : Category → Bool
is_vague c = category_eq c Category.other || category_eq c Category.income

abbrev pub category_of_words : List Text → Category
category_of_words [] = Category.other
category_of_words (word ∷ words) =
    let later = category_of_words words in
    let hit = coerce_category word in
    if is_empty word then later else if is_vague hit then later else hit

unfoldable pub category_from_expense_note : Option Text → Category
category_from_expense_note none = Category.other
category_from_expense_note (some note) =
    category_of_words (split (λ c. not (is_ascii_alphanumeric c)) (to_ascii_lowercase note))

unfoldable pub coerce_expense_category : Option Text → Option Text → Category
unfolding category_from_expense_note
coerce_expense_category value note =
    let category = unwrap_or Category.other (map_some coerce_category value) in
    if is_vague category then category_from_expense_note note else category
