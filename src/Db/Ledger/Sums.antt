-- ===== src/Db/Ledger/Sums.antt =====
-- Sums over the rows of `transactions`, under the three statements that change the table.
use andy.Base.{
  ◌≡◌, refl, Bool, false, not, some, List, [], ◌∷◌, ◌++◌, any, keep, find, update_where, ℤ, pos,
  ◌+ℤ◌, int_laws, +ℤ_under, arith, ◌==◌, Bool-cases, inl, inr,
}
use andy.Domain.{Uuid}
use andy.Db.Tables.{TransactionRow}
use andy.Db.Transactions.{transaction_matches}

abbrev pub sum_by : (TransactionRow → ℤ) → List TransactionRow → ℤ
sum_by w [] = pos 0
sum_by w (t ∷ ts) = w t +ℤ sum_by w ts

abbrev pub has_id : Uuid → List TransactionRow → Bool
has_id id ts = any (λ t. t.id == id) ts

-- The primary key: no identifier stands twice.
abbrev pub Distinct : List TransactionRow → Type 0
Distinct [] = Unit
Distinct (t ∷ ts) = (has_id t.id ts ≡ false) × Distinct ts

pub sum_by-insert :
    (w : TransactionRow → ℤ) (ts : List TransactionRow) (t : TransactionRow)
    → sum_by w (ts ++ t ∷ []) ≡ sum_by w ts +ℤ w t
sum_by-insert w [] t = omega int_laws
sum_by-insert w (u ∷ ts) t = rw (sum_by-insert w ts t) (omega int_laws)

-- `delete from transactions where id = $1 and user_id = $2`
abbrev pub delete_rows : Uuid → Uuid → List TransactionRow → List TransactionRow
delete_rows id user = keep (λ t. not (transaction_matches id user t))

delete_rows-absent :
    (id user : Uuid) (ts : List TransactionRow) → has_id id ts ≡ false → delete_rows id user ts ≡ ts
delete_rows-absent id user [] h = refl
delete_rows-absent id user (t ∷ ts) h = ground (arith, delete_rows-absent id user ts)

update-absent :
    (id user : Uuid) (f : TransactionRow → TransactionRow) (ts : List TransactionRow)
    → has_id id ts ≡ false
    → update_where (transaction_matches id user) f ts ≡ ts
update-absent id user f [] h = refl
update-absent id user f (t ∷ ts) h = ground (arith, update-absent id user f ts)

-- Deleting the row that `find` sees takes away its weight.
pub sum_by-delete :
    (w : TransactionRow → ℤ) (id user : Uuid) (ts : List TransactionRow) {row : TransactionRow}
    → Distinct ts
    → find (transaction_matches id user) ts ≡ some row
    → sum_by w (delete_rows id user ts) +ℤ w row ≡ sum_by w ts
sum_by-delete w id user [] d h = cc
sum_by-delete w id user (t ∷ ts) d h = elim (Bool-cases (transaction_matches id user t)) [
  | inl e ↦ grind (int_laws, delete_rows-absent id user ts)
  | inr e ↦ grind (int_laws, sum_by-delete w id user ts d.1)
]

-- Rewriting it replaces its weight.
pub sum_by-update :
    (w : TransactionRow → ℤ) (id user : Uuid) (f : TransactionRow → TransactionRow)
    (ts : List TransactionRow) {row : TransactionRow}
    → Distinct ts
    → find (transaction_matches id user) ts ≡ some row
    → sum_by w (update_where (transaction_matches id user) f ts) +ℤ w row ≡ sum_by w ts +ℤ w (f row)
sum_by-update w id user f [] d h = cc
sum_by-update w id user f (t ∷ ts) d h = elim (Bool-cases (transaction_matches id user t)) [
  | inl e ↦ grind (int_laws, update-absent id user f ts)
  | inr e ↦ rw e (+ℤ_under (w t) _ _ _ _ (sum_by-update w id user f ts d.1 (rw e at h)))
]

has_id-insert :
    (id : Uuid) (ts : List TransactionRow) (t : TransactionRow)
    → has_id id ts ≡ false
    → (t.id == id) ≡ false
    → has_id id (ts ++ t ∷ []) ≡ false
has_id-insert id [] t h k = ground arith
has_id-insert id (u ∷ ts) t h k = ground (arith, has_id-insert id ts t)

pub Distinct-insert :
    (ts : List TransactionRow) (t : TransactionRow)
    → Distinct ts
    → has_id t.id ts ≡ false
    → Distinct (ts ++ t ∷ [])
Distinct-insert [] t d h = ground arith
Distinct-insert (u ∷ ts) t d h = ground (arith, Distinct-insert ts t d.1, has_id-insert u.id ts t)

has_id-delete :
    (k id user : Uuid) (ts : List TransactionRow)
    → has_id k ts ≡ false
    → has_id k (delete_rows id user ts) ≡ false
has_id-delete k id user [] h = refl
has_id-delete k id user (t ∷ ts) h = ground (arith, has_id-delete k id user ts)

pub Distinct-delete :
    (id user : Uuid) (ts : List TransactionRow) → Distinct ts → Distinct (delete_rows id user ts)
Distinct-delete id user [] d = tt
Distinct-delete id user (t ∷ ts) d =
    ground (arith, Distinct-delete id user ts d.1, has_id-delete t.id id user ts)

module _ (f : TransactionRow → TransactionRow) (same : (t : TransactionRow) → (f t).id ≡ t.id) where
  has_id-update :
      (k : Uuid) (p : TransactionRow → Bool) (ts : List TransactionRow)
      → has_id k (update_where p f ts) ≡ has_id k ts
  has_id-update k p [] = refl
  has_id-update k p (t ∷ ts) = ground (arith, has_id-update k p ts, same t)

  pub Distinct-update :
      (p : TransactionRow → Bool) (ts : List TransactionRow)
      → Distinct ts
      → Distinct (update_where p f ts)
  Distinct-update p [] d = tt
  Distinct-update p (t ∷ ts) d =
      ground (arith, Distinct-update p ts d.1, has_id-update t.id p ts, same t)
