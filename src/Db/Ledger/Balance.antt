-- ===== src/Db/Ledger/Balance.antt =====
-- The balance of a savings goal is the sum of the transactions that name it.
use andy.Base.{
  ◌≡◌, refl, Bool, true, false, Option, none, some, List, [], ◌∷◌, All, ℤ, pos, +ℤ_zero, ◌+ℤ◌,
  arith, ◌==◌, if◌then◌else◌, sym, ◌∙◌,
}
use andy.Domain.{Uuid}
use andy.Db.Tables.{Database, TransactionRow, GoalRow, Ensures, Ensures-bind}
use andy.Db.Transactions.{
  Moved, credit, add_saved, add_balance, move_goal_balance, goal_matches, amount_allowed,
}
use andy.Db.Ledger.Sums.{sum_by, Distinct}

-- What an amount moves on the goal `id`.
abbrev pub moved_part : Option Uuid → ℤ → Uuid → ℤ
moved_part none amount id = pos 0
moved_part (some goal) amount id = if goal == id then amount else pos 0

abbrev pub contribution : Uuid → TransactionRow → ℤ
contribution id t = moved_part t.goal_id t.amount_centavos id

abbrev pub contributed : List TransactionRow → Uuid → ℤ
contributed ts id = sum_by (contribution id) ts

-- Every goal is the user's, and its balance is what `c` says.
pub record Agrees (user : Uuid) (c : Uuid → ℤ) (g : GoalRow) : Type 0 where
  pub owned : g.user_id ≡ user
  pub balanced : g.saved_centavos ≡ c g.id

abbrev pub Allowed : TransactionRow → Type 0
Allowed t = amount_allowed t.amount_centavos ≡ true

-- The invariant of the ledger of a user, over the two tables that it is about.
pub record IsLedger (user : Uuid) (ts : List TransactionRow) (gs : List GoalRow) : Type 0 where
  pub distinct : Distinct ts
  pub allowed : All Allowed ts
  pub goals : All (Agrees user (contributed ts)) gs

abbrev pub WellFormed : Uuid → Database → Type 0
WellFormed user db = IsLedger user db.transactions db.savings_goals

module _ (user : Uuid) (c c' : Uuid → ℤ) where
  pub Agrees-same :
      (gs : List GoalRow)
      → ((id : Uuid) → c' id ≡ c id)
      → All (Agrees user c) gs
      → All (Agrees user c') gs
  Agrees-same [] same h = tt
  Agrees-same (g ∷ gs) same h = (
    record { owned = h.0.owned; balanced = h.0.balanced ∙ sym (same g.id) },
    Agrees-same gs same h.1,
  )

  add_balance-Agrees :
      (goal : Uuid) (delta : ℤ) (g : GoalRow)
      → ((id : Uuid) → c' id ≡ c id +ℤ moved_part (some goal) delta id)
      → Agrees user c g
      → goal_matches goal user g ≡ true
      → Ensures
          (λ saved. Agrees user c' (record g { saved_centavos = saved }))
          (add_balance g.saved_centavos delta)
  add_balance-Agrees goal delta g change h e = ground (arith, change g.id, h.owned, h.balanced)

  AgreeAll : Moved → Type 0
  AgreeAll r = All (Agrees user c') r.goals

  credit-Agrees :
      (goal : Uuid) (delta : ℤ) (b : Bool) (g : GoalRow) (rest : Moved)
      → ((id : Uuid) → c' id ≡ c id +ℤ moved_part (some goal) delta id)
      → Agrees user c g
      → goal_matches goal user g ≡ b
      → AgreeAll rest
      → Ensures AgreeAll (credit b delta g rest)
  unfolding credit AgreeAll
  credit-Agrees goal delta false g rest change h e r = (
    record {
      owned = h.owned;
      balanced = ground (arith, change g.id, +ℤ_zero (c g.id), h.balanced, h.owned);
    },
    r,
  )
  credit-Agrees goal delta true g rest change h e r =
      Ensures-bind (λ saved. Agrees user c' (record g { saved_centavos = saved })) AgreeAll
        (add_balance g.saved_centavos delta) _ (add_balance-Agrees goal delta g change h e)
        (λ a p. (p, r))

  add_saved-Agrees :
      (goal : Uuid) (delta : ℤ) (gs : List GoalRow)
      → ((id : Uuid) → c' id ≡ c id +ℤ moved_part (some goal) delta id)
      → All (Agrees user c) gs
      → Ensures AgreeAll (add_saved goal user delta gs)
  unfolding add_saved AgreeAll
  add_saved-Agrees goal delta [] change h = tt
  add_saved-Agrees goal delta (g ∷ gs) change h =
      Ensures-bind AgreeAll AgreeAll (add_saved goal user delta gs) _
        (add_saved-Agrees goal delta gs change h.1)
        λ rest r. credit-Agrees goal delta (goal_matches goal user g) g rest change h.0 refl r

  -- Moving a balance by `delta` keeps the agreement if the sums move by as much.
  pub move_goal_balance-Agrees :
      (goal : Option Uuid) (delta : ℤ) (gs : List GoalRow)
      → ((id : Uuid) → c' id ≡ c id +ℤ moved_part goal delta id)
      → All (Agrees user c) gs
      → Ensures (λ r. All (Agrees user c') r.goals) (move_goal_balance goal user delta gs)
  unfolding move_goal_balance AgreeAll
  move_goal_balance-Agrees none delta gs change h =
      Agrees-same gs (λ id. change id ∙ +ℤ_zero (c id)) h
  move_goal_balance-Agrees (some goal) delta gs change h = add_saved-Agrees goal delta gs change h
