-- ===== src/Db/Queries/Totals.antt =====
-- The totals by category of crates/db/src/queries.rs against the overview of the same window.
use andy.Base.{
  ◌≡◌, ◌⊎◌, refl, sym, leb_ℤ, if◌then◌else◌, +ℤ_comm, ◌∙◌, ap, Option, none, some, true, false, not,
  ◌&&◌, List, [], ◌∷◌, keep, filter_map, ℤ, pos, ◌+ℤ◌, ◌-ℤ◌, fits_i64, all, +ℤ_zero, +ℤ_assoc,
  Bool-cases, inl, inr, int_laws,
}
use andy.Domain.{Uuid, NaiveDate, Category, all_categories}
use andy.Domain.Rows.{MonthOverview}
use andy.Db.Tables.{Database, DbError, ok, Ensures, Ensures-ok, Ensures-require}
use andy.Db.Tables as Tables
use andy.Db.Reconcile.{sum_amounts}
use andy.Db.Queries.{
  is_expense, same_category, spent_in, in_window, group_total, insert_total, sort_totals,
  get_month_overview_between, get_spending_by_category_between,
}

abbrev pub sum_totals : List (Category × ℤ) → ℤ
sum_totals [] = pos 0
sum_totals (x ∷ xs) = x.1 +ℤ sum_totals xs

+ℤ_none : (a : ℤ) → a ≡ pos 0 +ℤ a
+ℤ_none a = sym (+ℤ_comm (pos 0) a ∙ +ℤ_zero a)

List-cases {ℓ} : {A : Type ℓ} (xs : List A) → (xs ≡ []) ⊎ ((y : A) × (ys : List A) × (xs ≡ y ∷ ys))
List-cases [] = inl refl
List-cases (y ∷ ys) = inr (y, ys, refl)

+ℤ_swap : (a b c : ℤ) → a +ℤ (b +ℤ c) ≡ b +ℤ (a +ℤ c)
+ℤ_swap a b c = omega int_laws

sum-insert_total :
    (x : Category × ℤ) (xs : List (Category × ℤ))
    → sum_totals (insert_total x xs) ≡ x.1 +ℤ sum_totals xs
sum-insert_total x [] = refl
sum-insert_total x (y ∷ ys) = elim (Bool-cases (leb_ℤ y.1 x.1)) [
  | inl e ↦ rw e refl
  | inr e ↦ rw e (ap (λ s. y.1 +ℤ s) (sum-insert_total x ys) ∙ +ℤ_swap y.1 x.1 (sum_totals ys))
]

sum-sort_totals : (xs : List (Category × ℤ)) → sum_totals (sort_totals xs) ≡ sum_totals xs
sum-sort_totals [] = refl
sum-sort_totals (x ∷ xs) =
    sum-insert_total x (sort_totals xs) ∙ ap (λ s. x.1 +ℤ s) (sum-sort_totals xs)

-- What one category adds to the totals.
abbrev pub share : List Tables.TransactionRow → Category → ℤ
share rows c = sum_amounts (keep (spent_in c) rows)

abbrev pub total : (Category → ℤ) → List Category → ℤ
total f [] = pos 0
total f (c ∷ cs) = f c +ℤ total f cs

total-cong :
    (f g : Category → ℤ) (cs : List Category)
    → ((c : Category) → f c ≡ g c)
    → total f cs ≡ total g cs
total-cong f g [] h = refl
total-cong f g (c ∷ cs) h = rw (h c, total-cong f g cs h) refl

module _ {ℓ κ} {A : Type ℓ} {B : Type κ} (f : A → Option B) where
  filter_map-none : (a : A) (xs : List A) → f a ≡ none → filter_map f (a ∷ xs) ≡ filter_map f xs
  filter_map-none a xs e = rw (e, filter_map) refl

  filter_map-some :
      (a : A) (b : B) (xs : List A) → f a ≡ some b → filter_map f (a ∷ xs) ≡ b ∷ filter_map f xs
  filter_map-some a b xs e = rw (e, filter_map) refl

no_group :
    (rows : List Tables.TransactionRow) (c : Category)
    → keep (spent_in c) rows ≡ []
    → group_total rows c ≡ none
no_group rows c e = rw (e, group_total) refl

group :
    (rows : List Tables.TransactionRow) (c : Category) (t : Tables.TransactionRow)
    (ts : List Tables.TransactionRow)
    → keep (spent_in c) rows ≡ t ∷ ts
    → group_total rows c ≡ some (c, share rows c)
group rows c t ts e = rw (e, group_total) (ap (λ xs. some (c, sum_amounts xs)) e)

no_share :
    (rows : List Tables.TransactionRow) (c : Category)
    → keep (spent_in c) rows ≡ []
    → share rows c ≡ pos 0
no_share rows c e = rw e refl

group-share :
    (rows : List Tables.TransactionRow) (c : Category) (cs : List Category)
    → sum_totals (filter_map (group_total rows) (c ∷ cs))
      ≡ share rows c +ℤ sum_totals (filter_map (group_total rows) cs)
group-share rows c cs =
    (let rest = sum_totals (filter_map (group_total rows) cs) in
      elim (List-cases (keep (spent_in c) rows)) [
        | inl e ↦
            ap sum_totals (filter_map-none (group_total rows) c cs (no_group rows c e))
            ∙ +ℤ_none rest
            ∙ ap (λ s. s +ℤ rest) (sym (no_share rows c e))
        | inr (t, ts, e) ↦
            ap sum_totals (filter_map-some (group_total rows) c _ cs (group rows c t ts e))
      ])

sum-filter_map :
    (rows : List Tables.TransactionRow) (cs : List Category)
    → sum_totals (filter_map (group_total rows) cs) ≡ total (share rows) cs
sum-filter_map rows [] = refl
sum-filter_map rows (c ∷ cs) =
    group-share rows c cs ∙ ap (λ s. share rows c +ℤ s) (sum-filter_map rows cs)

push : (x p q a : ℤ) → p ≡ a +ℤ q → x +ℤ p ≡ a +ℤ (x +ℤ q)
push x p q a h = ap (λ s. x +ℤ s) h ∙ +ℤ_swap x a q

-- The share of one category of the nine grows.
one_grows :
    (category : Category) (a : ℤ) (s : Category → ℤ)
    → total (λ c. if same_category c category then a +ℤ s c else s c) all_categories
      ≡ a +ℤ total s all_categories
one_grows Category.food a s = +ℤ_assoc a _ _
one_grows Category.transport a s = push _ _ _ a (+ℤ_assoc a _ _)
one_grows Category.bills a s = push _ _ _ a (push _ _ _ a (+ℤ_assoc a _ _))
one_grows Category.shopping a s = push _ _ _ a (push _ _ _ a (push _ _ _ a (+ℤ_assoc a _ _)))
one_grows Category.health a s =
    push _ _ _ a (push _ _ _ a (push _ _ _ a (push _ _ _ a (+ℤ_assoc a _ _))))
one_grows Category.entertainment a s =
    push _ _ _ a (push _ _ _ a (push _ _ _ a (push _ _ _ a (push _ _ _ a (+ℤ_assoc a _ _)))))
one_grows Category.savings_goals a s =
    push _ _ _ a
      (push _ _ _ a (push _ _ _ a (push _ _ _ a (push _ _ _ a (push _ _ _ a (+ℤ_assoc a _ _))))))
one_grows Category.income a s = push _ _ _ a (
    push _ _ _ a
      (push _ _ _ a (push _ _ _ a (push _ _ _ a (push _ _ _ a (push _ _ _ a (+ℤ_assoc a _ _)))))))
one_grows Category.other a s = push _ _ _ a (
    push _ _ _ a (
      push _ _ _ a (
        push _ _ _ a (push _ _ _ a (push _ _ _ a (push _ _ _ a (push _ _ _ a (+ℤ_assoc a _ _))))))))

share-cons :
    (t : Tables.TransactionRow) (rows : List Tables.TransactionRow) (c : Category)
    → is_expense t.kind ≡ true
    → share (t ∷ rows) c
      ≡ (if same_category c t.category then t.amount_centavos +ℤ share rows c else share rows c)
share-cons t rows c e = elim (Bool-cases (same_category c t.category)) [
  | inl h ↦ rw (e, h) refl
  | inr h ↦ rw (e, h) refl
]

share-other :
    (t : Tables.TransactionRow) (rows : List Tables.TransactionRow) (c : Category)
    → is_expense t.kind ≡ false
    → share (t ∷ rows) c ≡ share rows c
share-other t rows c e = rw e refl

abbrev pub expense_of : List Tables.TransactionRow → ℤ
expense_of rows = sum_amounts (keep (λ t. is_expense t.kind) rows)

expense-cons :
    (t : Tables.TransactionRow) (rows : List Tables.TransactionRow)
    → is_expense t.kind ≡ true
    → expense_of (t ∷ rows) ≡ t.amount_centavos +ℤ expense_of rows
expense-cons t rows e = rw e refl

expense-other :
    (t : Tables.TransactionRow) (rows : List Tables.TransactionRow)
    → is_expense t.kind ≡ false
    → expense_of (t ∷ rows) ≡ expense_of rows
expense-other t rows e = rw e refl

no_shares : total (share []) all_categories ≡ pos 0
unfolding ◌+ℤ◌
no_shares = refl

total-share :
    (rows : List Tables.TransactionRow) → total (share rows) all_categories ≡ expense_of rows
total-share [] = no_shares
total-share (t ∷ rows) = elim (Bool-cases (is_expense t.kind)) [
  | inl e ↦
      total-cong (share (t ∷ rows)) _ all_categories (λ c. share-cons t rows c e)
      ∙ one_grows t.category t.amount_centavos (share rows)
      ∙ ap (λ s. t.amount_centavos +ℤ s) (total-share rows)
      ∙ sym (expense-cons t rows e)
  | inr e ↦
      total-cong (share (t ∷ rows)) (share rows) all_categories (λ c. share-other t rows c e)
      ∙ total-share rows
      ∙ sym (expense-other t rows e)
]

get_spending_by_category-total :
    (user : Uuid) (start end : NaiveDate) (db : Database)
    → Ensures
        (λ r. sum_totals r ≡ expense_of (keep (in_window user start end) db.transactions))
        (get_spending_by_category_between user start end db)
unfolding get_spending_by_category_between
get_spending_by_category-total user start end db =
    (let rows = keep (in_window user start end) db.transactions in
      let totals = filter_map (group_total rows) all_categories in
      Ensures-require (λ r. sum_totals r ≡ expense_of rows)
        (all (λ (t : Category × ℤ). fits_i64 t.1) totals) DbError.out_of_range
        (ok (sort_totals totals))
        λ h. sum-sort_totals totals ∙ sum-filter_map rows all_categories ∙ total-share rows)

get_month_overview-expense :
    (user : Uuid) (start end : NaiveDate) (db : Database)
    → Ensures
        (λ (r : MonthOverview).
          expense_of (keep (in_window user start end) db.transactions) ≡ r.expense)
        (get_month_overview_between user start end db)
unfolding get_month_overview_between
get_month_overview-expense user start end db =
    (let rows = keep (in_window user start end) db.transactions in
      let income = sum_amounts (keep (λ t. not (is_expense t.kind)) rows) in
      let overview : MonthOverview = record {
        income = income;
        expense = expense_of rows;
        net = income -ℤ expense_of rows;
      } in
      Ensures-require (λ (r : MonthOverview). expense_of rows ≡ r.expense)
        (fits_i64 income && fits_i64 (expense_of rows)) DbError.out_of_range (ok overview)
        λ h. refl)

-- The totals by category of a window add up to the expense that the overview of the window shows,
-- when both are read from the same tables and both sums fit.
pub sum-get_spending_by_category :
    (user : Uuid) (start end : NaiveDate) (db : Database) (totals : List (Category × ℤ))
    (overview : MonthOverview)
    → get_spending_by_category_between user start end db ≡ ok totals
    → get_month_overview_between user start end db ≡ ok overview
    → sum_totals totals ≡ overview.expense
sum-get_spending_by_category user start end db totals overview e f =
    Ensures-ok (λ r. sum_totals r ≡ expense_of (keep (in_window user start end) db.transactions)) _
      (get_spending_by_category-total user start end db) e
    ∙ Ensures-ok
        (λ (r : MonthOverview).
          expense_of (keep (in_window user start end) db.transactions) ≡ r.expense)
        _ (get_month_overview-expense user start end db) f
