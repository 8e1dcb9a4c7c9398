-- ===== src/Db/Ledger/Edits.antt =====
-- Editing a transaction keeps the ledger well formed: the balance of its goal moves by the
-- difference of the two amounts.
use andy.Base.{
  ◌≡◌, refl, sym, ◌∙◌, Bool, true, false, ◌||◌, Option, none, some, List, All, All-update_where,
  All-find, find, update_where, ℤ, pos, ◌+ℤ◌, ◌-ℤ◌, +ℤ_zero, -ℤ_parts, pos_part, neg_part, ap,
  eqb_ℤ_iff, int_laws, ◌==◌, Bool-cases, Option-cases, inl, inr, if◌then◌else◌, Text, is_some,
  unwrap_or, eqb_ℤ,
}
use andy.Domain.{Uuid, Category}
use andy.Db.Tables.{
  Database, TransactionRow, GoalRow, Result, ok, err, Ensures, Ensures-bind, Ensures-require,
  EventType,
}
use andy.Db.Transactions.{
  Moved, move_goal_balance, amount_allowed, edit_transaction, edit_row, effective_category,
  write_edit, edited, transaction_matches, amount_changes, balance_change, wrapping_sub,
  length_fits, note_max,
}
use andy.Db.Ledger.Sums.{Distinct, sum_by-update, Distinct-update}
use andy.Db.Ledger.Balance.{
  moved_part, contribution, contributed, Agrees, Allowed, WellFormed, move_goal_balance-Agrees,
}
use andy.Db.Ledger.Operations.{record_ledger_event-Ensures}

wrapping_sub_exact :
    (new old : ℤ)
    → amount_allowed new ≡ true
    → amount_allowed old ≡ true
    → wrapping_sub new old ≡ new -ℤ old
unfolding wrapping_sub
wrapping_sub_exact new old h k = grind (int_laws, -ℤ_parts)

cancel : (a b c : ℤ) → a +ℤ b ≡ c +ℤ b → a ≡ c
cancel a b c h = omega (int_laws, ap pos_part h, ap neg_part h)

cancel_zero : (a c : ℤ) → a +ℤ pos 0 ≡ c +ℤ pos 0 → a ≡ c +ℤ pos 0
cancel_zero a c h = cancel a (pos 0) c h ∙ sym (+ℤ_zero c)

settle : (a c new old : ℤ) → a +ℤ old ≡ c +ℤ new → a ≡ c +ℤ (new -ℤ old)
settle a c new old h = omega (int_laws, ap pos_part h, ap neg_part h)

-- A goal's share of the amount, by whether the goal is the one in question.
part_change :
    (here : Bool) (new old a c : ℤ)
    → amount_allowed old ≡ true
    → amount_allowed new ≡ true
    → a +ℤ (if here then old else pos 0) ≡ c +ℤ (if here then new else pos 0)
    → eqb_ℤ new old ≡ false
    → a ≡ c +ℤ (if here then wrapping_sub new old else pos 0)
part_change true new old a c h k e d = rw (wrapping_sub_exact new old k h) (settle a c new old e)
part_change false new old a c h k e d = cancel_zero a c e

same_part :
    (here : Bool) (new old a c : ℤ)
    → a +ℤ (if here then old else pos 0) ≡ c +ℤ (if here then new else pos 0)
    → eqb_ℤ new old ≡ true
    → a ≡ c +ℤ pos 0
same_part here new old a c e d =
    cancel a (if here then old else pos 0) c (rw ((eqb_ℤ_iff new old).0 d) at e) ∙ sym (+ℤ_zero c)

edit_change :
    (amount : Option ℤ) (goal : Option Uuid) (old : ℤ) (id : Uuid) (a c : ℤ)
    → amount_allowed old ≡ true
    → amount_allowed (unwrap_or old amount) ≡ true
    → a +ℤ moved_part goal old id ≡ c +ℤ moved_part goal (unwrap_or old amount) id
    → a
      ≡ c
        +ℤ moved_part
            (if amount_changes amount old then goal else none)
            (balance_change amount old)
            id
edit_change none goal old id a c h k e = cancel a (moved_part goal old id) c e ∙ sym (+ℤ_zero c)
edit_change (some new) none old id a c h k e = elim (Bool-cases (eqb_ℤ new old)) [
  | inl d ↦ rw d (cancel_zero a c e)
  | inr d ↦ rw d (cancel_zero a c e)
]
edit_change (some new) (some goal) old id a c h k e = elim (Bool-cases (eqb_ℤ new old)) [
  | inl d ↦ rw d (same_part (goal == id) new old a c e d)
  | inr d ↦ rw d (part_change (goal == id) new old a c h k e d)
]

edited-Allowed :
    (amount : Option ℤ) (category : Option Category) (memo : Option Text) (row t : TransactionRow)
    → amount_allowed (unwrap_or row.amount_centavos amount) ≡ true
    → Allowed t
    → Allowed (edited amount category memo t)
edited-Allowed none category memo row t h a = a
edited-Allowed (some new) category memo row t h a = h

anything {ℓ} : {A : Type ℓ} (m : Result A) → Ensures (λ a. Unit {0}) m
anything (ok a) = tt
anything (err e) = tt

module _ (user target : Uuid) (row : TransactionRow) (db : Database) where
  abbrev rows_after : Option ℤ → Option Category → Option Text → List TransactionRow
  rows_after amount category memo =
      update_where (transaction_matches target user) (edited amount category memo) db.transactions

  write_edit-WellFormed :
      (amount : Option ℤ) (category : Option Category) (memo : Option Text) (balance : Option ℤ)
      (source : Option Text) (gs : List GoalRow)
      → Distinct db.transactions
      → All Allowed db.transactions
      → (amount_allowed (unwrap_or row.amount_centavos amount) ≡ true
          → All (Agrees user (contributed (rows_after amount category memo))) gs)
      → Ensures (WellFormed user) (
          write_edit user target amount category memo row balance source
            (record db { savings_goals = gs }))
  unfolding write_edit
  write_edit-WellFormed amount category memo balance source gs d al agree =
      Ensures-require (WellFormed user) (amount_allowed (unwrap_or row.amount_centavos amount)) _ _
        λ fits.
          Ensures-require (WellFormed user)
            (length_fits note_max (edited amount category memo row).note) _ _
            λ short.
              record_ledger_event-Ensures (WellFormed user) user _ EventType.tx_edit _ _ source _
                λ ev. record {
                  distinct =
                      Distinct-update (edited amount category memo) (λ t. refl) _ db.transactions d;
                  allowed =
                      All-update_where Allowed _ (edited amount category memo) db.transactions
                        (λ t. edited-Allowed amount category memo row t fits) al;
                  goals = agree fits;
                }

  -- The goals after the balance has moved agree with the rows after the edit.
  goals_after :
      (amount : Option ℤ) (category : Option Category) (memo : Option Text)
      → WellFormed user db
      → find (transaction_matches target user) db.transactions ≡ some row
      → amount_allowed (unwrap_or row.amount_centavos amount) ≡ true
      → Ensures
          (λ m. All (Agrees user (contributed (rows_after amount category memo))) m.goals)
          (move_goal_balance
            (if amount_changes amount row.amount_centavos then row.goal_id else none)
            user
            (balance_change amount row.amount_centavos)
            db.savings_goals)
  goals_after amount category memo wf e fits =
      move_goal_balance-Agrees user (contributed db.transactions) _ _ _ db.savings_goals
        (λ id.
          edit_change amount row.goal_id row.amount_centavos id _ _
            (All-find Allowed (transaction_matches target user) db.transactions wf.allowed e) fits
            (sum_by-update (contribution id) target user (edited amount category memo)
              db.transactions wf.distinct e))
        wf.goals

  edit_row-WellFormed :
      (amount : Option ℤ) (category : Option Category) (memo source : Option Text)
      → WellFormed user db
      → find (transaction_matches target user) db.transactions ≡ some row
      → Ensures (WellFormed user) (edit_row user target amount category memo source db row)
  unfolding edit_row move_goal_balance
  edit_row-WellFormed none category memo source wf e =
      elim (Bool-cases (is_some (effective_category row category) || is_some memo)) [
        | inl w ↦ rw w (
            write_edit-WellFormed none (effective_category row category) memo none source
              db.savings_goals wf.distinct wf.allowed
              λ fits. goals_after none (effective_category row category) memo wf e fits)
        | inr w ↦ rw w wf
      ]
  edit_row-WellFormed (some new) category memo source wf e =
      elim (Bool-cases (amount_allowed new)) [
        | inl fits ↦
            Ensures-bind
              (λ (m : Moved).
                All
                  (Agrees user
                    (contributed (rows_after (some new) (effective_category row category) memo)))
                  m.goals)
              (WellFormed user) _ _
              (goals_after (some new) (effective_category row category) memo wf e fits)
              λ m agree.
                write_edit-WellFormed (some new) (effective_category row category) memo m.balance
                  source m.goals wf.distinct wf.allowed λ _. agree
        | inr unfit ↦
            Ensures-bind (λ (m : Moved). Unit {0}) (WellFormed user) _ _ (anything _)
              λ m _.
                write_edit-WellFormed (some new) (effective_category row category) memo m.balance
                  source m.goals wf.distinct wf.allowed λ fits. absurd (clash fits unfit)
      ]
    where
      clash : {b : Bool} → b ≡ true → b ≡ false → ⊥
      clash p q = cc

pub edit_transaction-WellFormed :
    (user target : Uuid) (amount : Option ℤ) (category : Option Category)
    (memo source : Option Text) (db : Database)
    → WellFormed user db
    → Ensures (WellFormed user) (edit_transaction user target amount category memo source db)
unfolding edit_transaction
edit_transaction-WellFormed user target amount category memo source db wf =
    elim (Option-cases (find (transaction_matches target user) db.transactions)) [
      | inl e ↦ rw (e, edit_transaction) wf
      | inr (row, e) ↦
          rw (e, edit_transaction)
            (edit_row-WellFormed user target row db amount category memo source wf e)
    ]
