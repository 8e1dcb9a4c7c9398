-- ===== src/Db/Ledger/GoalDeletion.antt =====
-- Deleting a goal keeps the ledger well formed: `DeleteGoal` in crates/db/src/writes.rs.
use andy.Base.{
  ◌≡◌, refl, sym, ◌∙◌, Bool, true, false, not, ◌&&◌, Option, none, some, List, [], ◌∷◌, All,
  All-update_where, any, keep, update_where, ℤ, arith, ◌==◌, inl, inr, Bool-cases,
}
use andy.Domain.{Uuid}
use andy.Db.Tables.{Database, TransactionRow, GoalRow, Ensures}
use andy.Db.Transactions.{has_goal, goal_matches}
use andy.Db.Goals.{apply_delete_goal, names_goal, unlink}
use andy.Db.Ledger.Sums.{Distinct, Distinct-update}
use andy.Db.Ledger.Balance.{contributed, Agrees, Allowed}
use andy.Db.Ledger.Links.{Linked}
use andy.Db.Ledger.GoalRows.{IsBook, contributed-unlink}

-- The goals that are left.
Agrees-elsewhere :
    (user goal : Uuid) (c c' : Uuid → ℤ) (gs : List GoalRow)
    → ((id : Uuid) → (goal == id) ≡ false → c' id ≡ c id)
    → All (Agrees user c) gs
    → All (Agrees user c') (keep (λ g. not (goal_matches goal user g)) gs)
Agrees-elsewhere user goal c c' [] same h = tt
Agrees-elsewhere user goal c c' (g ∷ gs) same h = elim (Bool-cases (goal_matches goal user g)) [
  | inl e ↦ rw e (Agrees-elsewhere user goal c c' gs same h.1)
  | inr e ↦ rw e (
    record {
      owned = h.0.owned;
      balanced = h.0.balanced ∙ sym (same g.id (apart goal user g e h.0.owned));
    },
    Agrees-elsewhere user goal c c' gs same h.1,
  )
]
  where
    apart :
        (goal user : Uuid) (g : GoalRow)
        → goal_matches goal user g ≡ false
        → g.user_id ≡ user
        → (goal == g.id) ≡ false
    apart goal user g e o = ground arith

Allowed-unlink :
    (p : TransactionRow → Bool) (ts : List TransactionRow)
    → All Allowed ts
    → All Allowed (update_where p unlink ts)
Allowed-unlink p ts = All-update_where Allowed p unlink ts λ t h. h

-- What is linked once the references to the goal are gone.
has_goal-keep :
    (goal user other : Uuid) (gs : List GoalRow)
    → (goal == other) ≡ false
    → any (λ g. g.id == other) (keep (λ g. not (goal_matches goal user g)) gs)
      ≡ any (λ g. g.id == other) gs
has_goal-keep goal user other [] e = refl
has_goal-keep goal user other (g ∷ gs) e = ground (arith, has_goal-keep goal user other gs e)

Linked-delete :
    (goal user : Uuid) (gs : List GoalRow) (ts : List TransactionRow)
    → Linked ts gs
    → Linked
        (update_where (names_goal goal) unlink ts)
        (keep (λ g. not (goal_matches goal user g)) gs)
Linked-delete goal user gs [] h = tt
Linked-delete goal user gs (t ∷ ts) h = elim (Bool-cases (names_goal goal t)) [
  | inl e ↦ rw e (refl, Linked-delete goal user gs ts h.1)
  | inr e ↦ rw e (still t.goal_id (ground (arith, e)) h.0, Linked-delete goal user gs ts h.1)
]
  where
    still :
        (g : Option Uuid)
        → elim g as (λ _. Bool) [ none ↦ false | some x ↦ x == goal ] ≡ false
        → has_goal g gs ≡ true
        → has_goal g (keep (λ g. not (goal_matches goal user g)) gs) ≡ true
    still none e k = refl
    still (some x) e k = has_goal-keep goal user x gs (ground (arith, e)) ∙ k

-- No goal matches: nothing is deleted.
keep-none :
    (goal user : Uuid) (gs : List GoalRow)
    → any (goal_matches goal user) gs ≡ false
    → keep (λ g. not (goal_matches goal user g)) gs ≡ gs
keep-none goal user [] h = refl
keep-none goal user (g ∷ gs) h = ground (arith, keep-none goal user gs)

Linked-unlink :
    (p : TransactionRow → Bool) (gs : List GoalRow) (ts : List TransactionRow)
    → Linked ts gs
    → Linked (update_where p unlink ts) gs
Linked-unlink p gs [] h = tt
Linked-unlink p gs (t ∷ ts) h = elim (Bool-cases (p t)) [
  | inl e ↦ rw e (refl, Linked-unlink p gs ts h.1)
  | inr e ↦ rw e (h.0, Linked-unlink p gs ts h.1)
]

module _ (user goal : Uuid) (db : Database) (b : IsBook user db) where
  own : List TransactionRow
  own = update_where (λ t. names_goal goal t && (t.user_id == user)) unlink db.transactions

  -- The rows after one or two rounds of unlinking.
  unlinked-IsBook :
      (ts : List TransactionRow)
      → Distinct ts
      → All Allowed ts
      → ((id : Uuid) → (goal == id) ≡ false → contributed ts id ≡ contributed db.transactions id)
      → Linked ts (keep (λ g. not (goal_matches goal user g)) db.savings_goals)
      → IsBook user (record db {
        transactions = ts;
        savings_goals = keep (λ g. not (goal_matches goal user g)) db.savings_goals;
      })
  unlinked-IsBook ts d al same l = record {
    balanced = record {
      distinct = d;
      allowed = al;
      goals =
          Agrees-elsewhere user goal (contributed db.transactions) (contributed ts) db.savings_goals
            same b.balanced.goals;
    };
    linked = l;
  }

  own-Distinct : Distinct own
  unfolding own
  own-Distinct = Distinct-update unlink (λ t. refl) _ db.transactions b.balanced.distinct

  own-Allowed : All Allowed own
  unfolding own
  own-Allowed = Allowed-unlink _ db.transactions b.balanced.allowed

  own-same :
      (id : Uuid) → (goal == id) ≡ false → contributed own id ≡ contributed db.transactions id
  unfolding own
  own-same id e = contributed-unlink goal id _ db.transactions (λ t f. ground (arith, f)) e

  own-Linked : Linked own db.savings_goals
  unfolding own
  own-Linked = Linked-unlink _ db.savings_goals db.transactions b.linked

  pub apply_delete_goal-IsBook : Ensures (IsBook user) (apply_delete_goal user goal db)
  unfolding apply_delete_goal own
  apply_delete_goal-IsBook = elim (Bool-cases (any (goal_matches goal user) db.savings_goals)) [
    | inl e ↦ rw e (
        unlinked-IsBook (update_where (names_goal goal) unlink own)
          (Distinct-update unlink (λ t. refl) _ own own-Distinct) (Allowed-unlink _ own own-Allowed)
          (λ id f. contributed-unlink goal id (names_goal goal) own (λ t h. h) f ∙ own-same id f)
          (Linked-delete goal user db.savings_goals own own-Linked))
    | inr e ↦ rw e (
        unlinked-IsBook own own-Distinct own-Allowed own-same
          (rw (keep-none goal user db.savings_goals e) own-Linked))
  ]
