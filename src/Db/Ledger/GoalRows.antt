-- ===== src/Db/Ledger/GoalRows.antt =====
-- Creating, editing and deleting a goal keep the ledger well formed.
use andy.Base.{
  ◌≡◌, refl, sym, ◌∙◌, ap, Bool, true, false, not, Option, none, some, List, [], ◌∷◌, ◌++◌,
  All-insert, All-update_where, any, update_where, map_some, ℤ, pos, ◌+ℤ◌, int_laws, arith, ◌==◌,
  ==_iff, inl, inr, Bool-cases, Text,
}
use andy.Domain.{Uuid, NaiveDate}
use andy.Db.Tables.{Engine, Database, TransactionRow, GoalRow, Ensures, Ensures-require, has_user}
use andy.Db.Transactions.{truncate, has_goal, goal_matches}
use andy.Db.Goals.{
  apply_create_goal, apply_edit_goal, insert_goal, same_name, goal_allowed, name_max, goal_edited,
  names_goal, unlink,
}
use andy.Db.Ledger.Balance.{moved_part, contribution, contributed, Agrees, WellFormed}
use andy.Db.Ledger.Links.{Linked, IsLinked, Grows, Linked-Grows}

-- The ledger of a user: balances that are sums, and links that lead somewhere.
pub record IsBook (user : Uuid) (db : Database) : Type 0 where
  pub balanced : WellFormed user db
  pub linked : IsLinked db

moved_nothing :
    (goal : Option Uuid) (amount : ℤ) (gs : List GoalRow) (id : Uuid)
    → has_goal goal gs ≡ true
    → any (λ g. g.id == id) gs ≡ false
    → moved_part goal amount id ≡ pos 0
moved_nothing none amount gs id h k = refl
moved_nothing (some goal) amount gs id h k = elim (Bool-cases (goal == id)) [
  | inl e ↦ (let same = (==_iff goal id).0 e in let f = rw same at h in cc)
  | inr e ↦ rw e refl
]

-- Nothing was contributed to a goal that does not exist.
contributed-absent :
    (ts : List TransactionRow) (gs : List GoalRow) (id : Uuid)
    → Linked ts gs
    → any (λ g. g.id == id) gs ≡ false
    → contributed ts id ≡ pos 0
contributed-absent [] gs id h k = refl
contributed-absent (t ∷ ts) gs id h k = grind (
  int_laws,
  moved_nothing t.goal_id t.amount_centavos gs id h.0 k,
  contributed-absent ts gs id h.1 k,
)

Grows-insert : (g : GoalRow) (gs : List GoalRow) → Grows gs (gs ++ g ∷ [])
Grows-insert g gs none h = refl
Grows-insert g [] (some goal) h = cc
Grows-insert g (k ∷ gs) (some goal) h = ground (arith, Grows-insert g gs (some goal))

Grows-update :
    (p : GoalRow → Bool) (f : GoalRow → GoalRow) (gs : List GoalRow)
    → ((g : GoalRow) → (f g).id ≡ g.id)
    → Grows gs (update_where p f gs)
Grows-update p f gs same none h = refl
Grows-update p f [] same (some goal) h = h
Grows-update p f (g ∷ gs) same (some goal) h =
    ground (arith, Grows-update p f gs same (some goal), same g)

moved_elsewhere :
    (goal id : Uuid) (t : TransactionRow)
    → names_goal goal t ≡ true
    → (goal == id) ≡ false
    → contribution id t ≡ pos 0
moved_elsewhere goal id t h e = ground arith

-- Unlinking the transactions of a goal.
pub contributed-unlink :
    (goal id : Uuid) (p : TransactionRow → Bool) (ts : List TransactionRow)
    → ((t : TransactionRow) → p t ≡ true → names_goal goal t ≡ true)
    → (goal == id) ≡ false
    → contributed (update_where p unlink ts) id ≡ contributed ts id
contributed-unlink goal id p [] only e = refl
contributed-unlink goal id p (t ∷ ts) only e = elim (Bool-cases (p t)) [
  | inl f ↦ rw f (
      rw (← moved_elsewhere goal id t (only t f) e)
        (ap (λ c. contribution id t +ℤ c) (contributed-unlink goal id p ts only e)))
  | inr f ↦ rw f (ap (λ c. contribution id t +ℤ c) (contributed-unlink goal id p ts only e))
]

module _ (user : Uuid) (db : Database) (b : IsBook user db) where
  insert_goal-IsBook :
      (g : GoalRow)
      → g.user_id ≡ user
      → g.saved_centavos ≡ pos 0
      → Ensures (IsBook user) (insert_goal g db)
  unfolding insert_goal
  insert_goal-IsBook g owned empty = Ensures-require (IsBook user) (has_user db g.user_id) _ _ λ _.
      Ensures-require (IsBook user) (not (any (λ h. h.id == g.id) db.savings_goals)) _ _ λ fresh.
        record {
          balanced = record {
            distinct = b.balanced.distinct;
            allowed = b.balanced.allowed;
            goals =
                All-insert (Agrees user (contributed db.transactions)) db.savings_goals g
                  b.balanced.goals
                  (record {
                    owned = owned;
                    balanced =
                        empty
                        ∙ sym (
                            contributed-absent db.transactions db.savings_goals g.id b.linked
                              (ground (arith, fresh)));
                  });
          };
          linked = Linked-Grows db.transactions (Grows-insert g db.savings_goals) b.linked;
        }

  pub apply_create_goal-IsBook :
      (pg : Engine) (name : Text) (target : ℤ) (date : Option NaiveDate)
      → Ensures (IsBook user) (apply_create_goal pg user name target date db)
  unfolding apply_create_goal
  apply_create_goal-IsBook pg name target date =
      Ensures-require (IsBook user) (goal_allowed (truncate name name_max) target) _ _ λ _.
        elim (Bool-cases (any (same_name pg user (truncate name name_max)) db.savings_goals)) [
          | inl e ↦ rw e b
          | inr e ↦ rw e (insert_goal-IsBook _ refl refl)
        ]

  edited-IsBook :
      (p : GoalRow → Bool) (name : Option Text) (target : Option ℤ)
      (date : Option (Option NaiveDate))
      → IsBook user (record db {
        savings_goals = update_where p (goal_edited name target date) db.savings_goals;
      })
  edited-IsBook p name target date = record {
    balanced = record {
      distinct = b.balanced.distinct;
      allowed = b.balanced.allowed;
      goals =
          All-update_where (Agrees user (contributed db.transactions)) p _ db.savings_goals
            (λ g h. record { owned = h.owned; balanced = h.balanced }) b.balanced.goals;
    };
    linked = Linked-Grows db.transactions (Grows-update p _ db.savings_goals λ g. refl) b.linked;
  }

  pub apply_edit_goal-IsBook :
      (pg : Engine) (goal : Uuid) (name : Option Text) (target : Option ℤ)
      (date : Option (Option NaiveDate))
      → Ensures (IsBook user) (apply_edit_goal pg user goal name target date db)
  unfolding apply_edit_goal
  apply_edit_goal-IsBook pg goal name target date = ground (
    arith,
    b,
    edited-IsBook (goal_matches goal user) (map_some (λ n. truncate n name_max) name) target date,
  )
