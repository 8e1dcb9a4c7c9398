-- ===== src/Db/Ledger/Links.antt =====
-- Every transaction that names a goal names one that exists, the foreign key of `transactions`.
use andy.Base.{
  ◌≡◌, refl, Bool, true, false, ◌||◌, Option, none, some, List, [], ◌∷◌, ◌++◌, All, keep, find,
  update_where, ℤ, pos, ◌-ℤ◌, arith, inl, inr, Bool-cases, Option-cases, Text, is_some,
}
use andy.Domain.{Uuid, Category, NaiveDate, TxKind}
use andy.Db.Tables.{
  Engine, Database, TransactionRow, GoalRow, EventType, Result, ok, err, Ensures, Ensures-bind,
}
use andy.Db.Transactions.{
  FlushState, Moved, credit, add_saved, add_balance, has_goal, goal_matches, move_goal_balance,
  insert_transaction, record_ledger_event, delete_transaction, transaction_matches, edited,
  write_edit, edit_row, edit_transaction, transaction_row, contribution_row, apply_transaction,
  apply_goal_contribution, balance_change, effective_category,
}
use andy.Db.Ledger.Operations.{record_ledger_event-Ensures}

abbrev pub Linked : List TransactionRow → List GoalRow → Type 0
Linked ts gs = All (λ t. has_goal t.goal_id gs ≡ true) ts

abbrev pub IsLinked : Database → Type 0
IsLinked db = Linked db.transactions db.savings_goals

-- The goals that are there stay.
abbrev pub Grows : List GoalRow → List GoalRow → Type 0
Grows gs gs' = (goal : Option Uuid) → has_goal goal gs ≡ true → has_goal goal gs' ≡ true

pub Linked-Grows :
    (ts : List TransactionRow) {gs gs' : List GoalRow} → Grows gs gs' → Linked ts gs → Linked ts gs'
Linked-Grows [] g h = tt
Linked-Grows (t ∷ ts) g h = (g t.goal_id h.0, Linked-Grows ts g h.1)

pub Linked-insert :
    (ts : List TransactionRow) (t : TransactionRow) (gs : List GoalRow)
    → has_goal t.goal_id gs ≡ true
    → Linked ts gs
    → Linked (ts ++ t ∷ []) gs
Linked-insert [] t gs k h = (k, tt)
Linked-insert (u ∷ ts) t gs k h = (h.0, Linked-insert ts t gs k h.1)

pub Linked-keep :
    (p : TransactionRow → Bool) (ts : List TransactionRow) (gs : List GoalRow)
    → Linked ts gs
    → Linked (keep p ts) gs
Linked-keep p [] gs h = tt
Linked-keep p (t ∷ ts) gs h = elim (Bool-cases (p t)) [
  | inl e ↦ rw e (h.0, Linked-keep p ts gs h.1)
  | inr e ↦ rw e (Linked-keep p ts gs h.1)
]

-- Rewriting rows without changing their goals.
pub Linked-update :
    (p : TransactionRow → Bool) (f : TransactionRow → TransactionRow) (ts : List TransactionRow)
    (gs : List GoalRow)
    → ((t : TransactionRow) → (f t).goal_id ≡ t.goal_id)
    → Linked ts gs
    → Linked (update_where p f ts) gs
Linked-update p f [] gs same h = tt
Linked-update p f (t ∷ ts) gs same h = elim (Bool-cases (p t)) [
  | inl e ↦ rw e (rw (same t) h.0, Linked-update p f ts gs same h.1)
  | inr e ↦ rw e (h.0, Linked-update p f ts gs same h.1)
]

Grows-cons :
    (g g' : GoalRow) {gs gs' : List GoalRow}
    → g'.id ≡ g.id
    → Grows gs gs'
    → Grows (g ∷ gs) (g' ∷ gs')
Grows-cons g g' e k none h = refl
Grows-cons g g' e k (some goal) h = ground (arith, k (some goal), e)

credit-Grows :
    (b : Bool) (delta : ℤ) (g : GoalRow) (rest : Moved) (gs : List GoalRow)
    → Grows gs rest.goals
    → Ensures (λ (m : Moved). Grows (g ∷ gs) m.goals) (credit b delta g rest)
unfolding credit
credit-Grows false delta g rest gs k = Grows-cons g g refl k
credit-Grows true delta g rest gs k =
    Ensures-bind (λ a. Unit {0}) _ (add_balance g.saved_centavos delta) _ (any_balance _)
      λ saved _. Grows-cons g _ refl k
  where
    any_balance : (r : Result ℤ) → Ensures (λ a. Unit {0}) r
    any_balance (ok a) = tt
    any_balance (err e) = tt

add_saved-Grows :
    (goal user : Uuid) (delta : ℤ) (gs : List GoalRow)
    → Ensures (λ (m : Moved). Grows gs m.goals) (add_saved goal user delta gs)
unfolding add_saved
add_saved-Grows goal user delta [] = λ g h. h
add_saved-Grows goal user delta (g ∷ gs) =
    Ensures-bind (λ (m : Moved). Grows gs m.goals) _ (add_saved goal user delta gs) _
      (add_saved-Grows goal user delta gs)
      λ rest k. credit-Grows (goal_matches goal user g) delta g rest gs k

pub move_goal_balance-Grows :
    (goal : Option Uuid) (user : Uuid) (delta : ℤ) (gs : List GoalRow)
    → Ensures (λ (m : Moved). Grows gs m.goals) (move_goal_balance goal user delta gs)
unfolding move_goal_balance
move_goal_balance-Grows none user delta gs = λ g h. h
move_goal_balance-Grows (some goal) user delta gs = add_saved-Grows goal user delta gs

pub delete_transaction-IsLinked :
    (user target : Uuid) (source : Option Text) (db : Database)
    → IsLinked db
    → Ensures IsLinked (delete_transaction user target source db)
unfolding delete_transaction
delete_transaction-IsLinked user target source db h =
    elim (Option-cases (find (transaction_matches target user) db.transactions)) [
      | inl e ↦ rw (e, delete_transaction) h
      | inr (row, e) ↦
          rw (e, delete_transaction)
            (Ensures-bind (λ (m : Moved). Grows db.savings_goals m.goals) IsLinked _ _
              (move_goal_balance-Grows row.goal_id user (pos 0 -ℤ row.amount_centavos)
                db.savings_goals)
              λ m k.
                record_ledger_event-Ensures IsLinked user _ EventType.tx_delete _ none source _
                  λ ev. Linked-keep _ db.transactions m.goals (Linked-Grows db.transactions k h))
    ]

module _ (user target : Uuid) (row : TransactionRow) (db : Database) where
  write_edit-IsLinked :
      (amount : Option ℤ) (category : Option Category) (memo : Option Text) (balance : Option ℤ)
      (source : Option Text) (gs : List GoalRow)
      → Linked db.transactions gs
      → Ensures IsLinked (
          write_edit user target amount category memo row balance source
            (record db { savings_goals = gs }))
  unfolding write_edit record_ledger_event
  write_edit-IsLinked amount category memo balance source gs h = ground (
    arith,
    Linked-update (transaction_matches target user) (edited amount category memo) db.transactions gs
        (λ t. refl) h,
  )

  edit_row-IsLinked :
      (amount : Option ℤ) (category : Option Category) (memo source : Option Text)
      → IsLinked db
      → Ensures IsLinked (edit_row user target amount category memo source db row)
  unfolding edit_row
  edit_row-IsLinked amount category memo source h =
      let effective = effective_category row category in
      Ensures-bind (λ (m : Moved). Grows db.savings_goals m.goals) IsLinked _ _
        (move_goal_balance-Grows _ user (balance_change amount row.amount_centavos)
          db.savings_goals)
        λ m k.
          (let l = Linked-Grows db.transactions k h in
            elim (Bool-cases (is_some amount || (is_some effective || is_some memo))) [
              | inl e ↦ rw e (write_edit-IsLinked amount effective memo m.balance source m.goals l)
              | inr e ↦ rw e l
            ])

pub edit_transaction-IsLinked :
    (user target : Uuid) (amount : Option ℤ) (category : Option Category)
    (memo source : Option Text) (db : Database)
    → IsLinked db
    → Ensures IsLinked (edit_transaction user target amount category memo source db)
unfolding edit_transaction
edit_transaction-IsLinked user target amount category memo source db h =
    elim (Option-cases (find (transaction_matches target user) db.transactions)) [
      | inl e ↦ rw (e, edit_transaction) h
      | inr (row, e) ↦
          rw (e, edit_transaction)
            (edit_row-IsLinked user target row db amount category memo source h)
    ]

-- What an insertion checked.
record Placed (row : TransactionRow) (db db' : Database) : Type 0 where
  linked : has_goal row.goal_id db.savings_goals ≡ true
  goals : db'.savings_goals ≡ db.savings_goals
  transactions : db'.transactions ≡ db.transactions ++ row ∷ []

insert_transaction-Placed :
    (row : TransactionRow) (db : Database) → Ensures (Placed row db) (insert_transaction row db)
unfolding insert_transaction
insert_transaction-Placed row db = ground arith

module _ (pg : Engine) (user : Uuid) where
  pub apply_transaction-IsLinked :
      (kind : TxKind) (amount : ℤ) (category : Category) (memo : Option Text) (date : NaiveDate)
      (account : Option Text) (s : FlushState) (db : Database)
      → IsLinked db
      → Ensures
          (λ r. IsLinked r.1)
          (apply_transaction pg kind user amount category memo date account s db)
  unfolding apply_transaction record_ledger_event insert_transaction
  apply_transaction-IsLinked kind amount category memo date account s db h = ground (
    arith,
    Linked-insert db.transactions
        (transaction_row (pg.random db.drawn) kind user amount category memo date account s)
        db.savings_goals refl h,
  )

  pub apply_goal_contribution-IsLinked :
      (goal : Uuid) (amount : ℤ) (date : NaiveDate) (s : FlushState) (db : Database)
      → IsLinked db
      → Ensures (λ r. IsLinked r.1) (apply_goal_contribution pg user goal amount date s db)
  unfolding apply_goal_contribution
  apply_goal_contribution-IsLinked goal amount date s db h =
      let row = contribution_row (pg.random db.drawn) user goal amount date s in
      Ensures-bind (Placed row db) (λ r. IsLinked r.1) (insert_transaction row db) _
        (insert_transaction-Placed row db)
        λ db' p.
          Ensures-bind (λ (m : Moved). Grows db'.savings_goals m.goals) (λ r. IsLinked r.1) _ _
            (move_goal_balance-Grows (some goal) user amount db'.savings_goals)
            λ m k.
              Ensures-bind IsLinked (λ r. IsLinked r.1) _ _
                (record_ledger_event-Ensures IsLinked user _ EventType.tx_create none _ _ _ λ e.
                  rw p.transactions (
                    Linked-Grows (db.transactions ++ row ∷ []) k
                      (rw p.goals (Linked-insert db.transactions row db.savings_goals p.linked h))))
                λ a q. q
