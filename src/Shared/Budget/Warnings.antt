-- ===== src/Shared/Budget/Warnings.antt =====
-- How often crates/shared/src/budget.rs speaks up as the spending of a month grows.
use andy.Base.{
  ℕ, suc, ◌+◌, ◌*◌, ◌≤◌, ◌≡◌, List, [], ◌∷◌, ℤ, pos, pos_part, neg_part, ◌*ℤ◌, ◌≤ℤ◌, ltb_ℤ, is_some,
  if◌then◌else◌, arith,
}
use andy.Domain.{Category}
use andy.Shared.Percent.{ratio_crossed}
use andy.Shared.Budget.{budget_near_percent, budget_reaction_line}

-- The lines of a budget while the amount spent goes through the list, from `prior` on.
unfoldable pub warnings : Category → ℤ → ℤ → List ℤ → ℕ
warnings category limit prior [] = 0
warnings category limit prior (spent ∷ later) =
    let rest = warnings category limit spent later in
    if is_some
      (budget_reaction_line (record { category = category; limit = limit; spent = spent }) prior)
    then suc rest
    else rest

-- The list grows, from `prior` on.
abbrev pub Grows : ℤ → List ℤ → Type 0
Grows prior [] = Unit
Grows prior (spent ∷ later) = (prior ≤ℤ spent) × Grows spent later

hundredfold :
    (a : ℤ)
    → pos_part (a *ℤ pos 100) + 100 * neg_part a ≡ neg_part (a *ℤ pos 100) + 100 * pos_part a
unfolding ◌*ℤ◌
hundredfold a = ground arith

eightyfold :
    (a : ℤ) → pos_part (pos 80 *ℤ a) + 80 * neg_part a ≡ neg_part (pos 80 *ℤ a) + 80 * pos_part a
unfolding ◌*ℤ◌
eightyfold a = ground arith

-- The phases of a month: below the mark, near the limit, over it.
abbrev pub phase : ℤ → ℤ → ℕ
phase limit spent =
    if ltb_ℤ limit spent then 2 else if ratio_crossed spent limit budget_near_percent then 1 else 0

step :
    (category : Category) (limit prior spent : ℤ)
    → prior ≤ℤ spent
    → (if is_some (
            budget_reaction_line
              (record { category = category; limit = limit; spent = spent })
              prior)
          then 1
          else 0)
        + phase limit prior
      ≤ phase limit spent
unfolding budget_reaction_line ratio_crossed
step category limit prior spent h =
    ground (arith, h, hundredfold prior, hundredfold spent, eightyfold limit)

-- While the spending of a month grows, a budget gives at most two lines, at most one once the
-- spending is at the 80% mark, and none once it is over the limit.
pub warnings-le :
    (category : Category) (limit prior : ℤ) (later : List ℤ)
    → Grows prior later
    → warnings category limit prior later + phase limit prior ≤ 2
unfolding warnings
warnings-le category limit prior [] h = ground arith
warnings-le category limit prior (spent ∷ later) h =
    ground (arith, step category limit prior spent h.0, warnings-le category limit spent later h.1)
