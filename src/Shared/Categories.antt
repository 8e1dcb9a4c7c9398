-- ===== src/Shared/Categories.antt =====
-- crates/shared/src/categories.rs: reading a category.
pub mod RoundTrip
use andy.Base.{
  Bool, Option, none, some, List, [], ◌∷◌, any, find, Text, codes, text_eq, trim,
  to_ascii_lowercase, eq_ignore_ascii_case, is_empty, one_of, if◌then◌else◌,
}
use andy.Domain.{Category, category_str, all_categories}

-- `Category::from_str`
unfoldable pub category_from_str : Text → Option Category
category_from_str value = find (λ c. text_eq (category_str c) value) all_categories

-- The other words that are understood, in the order of the `match`.
abbrev pub synonyms : List (Category × List Text)
synonyms =
    (
      Category.food,
      codes "groceries"
          ∷ codes "grocery"
          ∷ codes "meal"
          ∷ codes "meals"
          ∷ codes "lunch"
          ∷ codes "dinner"
          ∷ codes "breakfast"
          ∷ codes "merienda"
          ∷ codes "dining"
          ∷ codes "restaurant"
          ∷ codes "coffee"
          ∷ codes "tea"
          ∷ codes "matcha"
          ∷ codes "milktea"
          ∷ codes "jollibee"
          ∷ codes "mcdo"
          ∷ codes "mcdonalds"
          ∷ codes "snack"
          ∷ codes "snacks"
          ∷ [],
    )
    ∷ (
      Category.transport,
      codes "transportation"
          ∷ codes "transpo"
          ∷ codes "commute"
          ∷ codes "gas"
          ∷ codes "gasoline"
          ∷ codes "fuel"
          ∷ codes "fare"
          ∷ codes "grab"
          ∷ codes "taxi"
          ∷ codes "ride"
          ∷ codes "parking"
          ∷ codes "toll"
          ∷ [],
    )
    ∷ (
      Category.bills,
      codes "bill"
          ∷ codes "bills"
          ∷ codes "utility"
          ∷ codes "utilities"
          ∷ codes "rent"
          ∷ codes "netflix"
          ∷ codes "electricity"
          ∷ codes "electric"
          ∷ codes "water"
          ∷ codes "internet"
          ∷ codes "load"
          ∷ codes "subscription"
          ∷ [],
    )
    ∷ (Category.shopping, codes "shop" ∷ codes "shopping" ∷ codes "clothes" ∷ codes "clothing" ∷ [])
    ∷ (
      Category.health,
      codes "health"
          ∷ codes "medical"
          ∷ codes "medicine"
          ∷ codes "meds"
          ∷ codes "pharmacy"
          ∷ codes "doctor"
          ∷ [],
    )
    ∷ (
      Category.entertainment,
      codes "entertainment" ∷ codes "movie" ∷ codes "movies" ∷ codes "games" ∷ codes "gaming" ∷ [],
    )
    ∷ (Category.savings_goals, codes "savings" ∷ codes "saving" ∷ codes "goal" ∷ codes "goals" ∷ [])
    ∷ (
      Category.income,
      codes "income"
          ∷ codes "salary"
          ∷ codes "sweldo"
          ∷ codes "wage"
          ∷ codes "wages"
          ∷ codes "pay"
          ∷ codes "paycheck"
          ∷ [],
    )
    ∷ []

-- The category of the first arm that lists the key.
abbrev pub synonym_of : Text → Category
synonym_of key = elim (find (λ arm. one_of key arm.1) synonyms) [
  | some arm ↦ arm.0
  | none ↦ Category.other
]

abbrev pub coerce_key : Text → Category
coerce_key key =
    if is_empty key
    then Category.other
    else elim (find (λ c. eq_ignore_ascii_case (category_str c) key) all_categories) [
      | some c ↦ c
      | none ↦ synonym_of key
    ]

unfoldable pub coerce_category : Text → Category
coerce_category value = elim (category_from_str value) [
  | some c ↦ c
  | none ↦ coerce_key (to_ascii_lowercase (trim value))
]
