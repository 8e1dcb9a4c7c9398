-- ===== src/Shared/Categories/RoundTrip.antt =====
-- Printing and reading a category (crates/shared/src/categories.rs).
use mathlib.Core.Path.{subst}
use mathlib.Core.Option.{some-injective}
use andy.Base.{
  eq_ignore_ascii_case, ◌≡◌, refl, sym, ◌∙◌, ap, false, is_empty, trim, to_ascii_lowercase, ◌↔◌,
  Bool, true, some, List, [], ◌∷◌, find, Text, text_eq, text_eq_sound, Bool-cases, lower_char, inl,
  inr, Option-cases, arith,
}
use andy.Domain.{Category, category_str, all_categories}
use andy.Shared.Categories.{category_from_str, coerce_key, coerce_category}

found {ℓ} : {A : Type ℓ} (p : A → Bool) (xs : List A) {x : A} → find p xs ≡ some x → p x ≡ true
found p [] e = cc
found p (y ∷ xs) e = elim (Bool-cases (p y)) [
  | inl h ↦ subst (λ z. p z ≡ true) (some-injective _ _ (rw h at e)) h
  | inr h ↦ found p xs (rw h at e)
]

printed : (c : Category) → category_from_str (category_str c) ≡ some c
unfolding category_from_str
printed c = ground arith

-- A text is read as a category exactly if it is how that category is printed.
pub category_from_str_iff :
    (value : Text) (c : Category) → (category_from_str value ≡ some c) ↔ (value ≡ category_str c)
unfolding category_from_str
category_from_str_iff value c = (
  λ e. sym (text_eq_sound _ _ (found (λ k. text_eq (category_str k) value) all_categories e)),
  λ e. subst (λ v. category_from_str v ≡ some c) (sym e) (printed c),
)

-- What `coerce_category` makes of a key that is a category in lower case.
lower_key :
    (c : Category)
    → (is_empty (to_ascii_lowercase (category_str c)) ≡ false)
      × (find
            (λ k. eq_ignore_ascii_case (category_str k) (to_ascii_lowercase (category_str c)))
            all_categories
          ≡ some c)
      × (trim (category_str c) ≡ category_str c)
unfolding trim lower_char
lower_key Category.food = (refl, refl, refl)
lower_key Category.transport = (refl, refl, refl)
lower_key Category.bills = (refl, refl, refl)
lower_key Category.shopping = (refl, refl, refl)
lower_key Category.health = (refl, refl, refl)
lower_key Category.entertainment = (refl, refl, refl)
lower_key Category.savings_goals = (refl, refl, refl)
lower_key Category.income = (refl, refl, refl)
lower_key Category.other = (refl, refl, refl)

coerce_key-lower : (c : Category) → coerce_key (to_ascii_lowercase (category_str c)) ≡ c
coerce_key-lower c = (let k = lower_key c in ground (arith, k.0, k.1))

same_lower :
    (c d : Category)
    → to_ascii_lowercase (category_str d) ≡ to_ascii_lowercase (category_str c)
    → d ≡ c
same_lower c d e = sym (coerce_key-lower d) ∙ ap coerce_key e ∙ coerce_key-lower c

-- Whatever the case of its letters and the space around it, the name of a category is read as that
-- category, ahead of the other words for it.
pub coerce_category-category_str :
    (value : Text) (c : Category)
    → to_ascii_lowercase (trim value) ≡ to_ascii_lowercase (category_str c)
    → coerce_category value ≡ c
unfolding coerce_category
coerce_category-category_str value c e = elim (Option-cases (category_from_str value)) [
  | inl h ↦ rw (coerce_category, h) (ap coerce_key e ∙ coerce_key-lower c)
  | inr (d, h) ↦
      rw (coerce_category, h)
        (same_lower c d (
          ap to_ascii_lowercase
            (sym (ap trim ((category_from_str_iff value d).0 h) ∙ (lower_key d).2))
          ∙ e))
]
