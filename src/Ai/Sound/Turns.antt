-- ===== src/Ai/Sound/Turns.antt =====
-- What `last_buffered_transaction` of crates/ai/src/finance_tools.rs finds is of the same turn.
use mathlib.Core.List.{reverse}
use andy.Base.{◌≡◌, refl, true, false, Option, some, none, List, [], ◌∷◌, arith}
use andy.Domain.{WriteIntent}
use andy.Ai.Targets.{TransactionTarget, Found, found_in, search_back, last_buffered_transaction}

abbrev OfTurn : Found → Type 0
OfTurn (Found.here t) = t.same_turn ≡ true
OfTurn Found.deleted = Unit
OfTurn Found.unrelated = Unit

found_in-OfTurn : (w : WriteIntent) → OfTurn (found_in w)
unfolding found_in
found_in-OfTurn (WriteIntent.transaction kind u cents category memo date account) = refl
found_in-OfTurn (WriteIntent.goal_contribution u goal cents date) = refl
found_in-OfTurn (WriteIntent.delete_last u target true) = tt
found_in-OfTurn (WriteIntent.delete_last u target false) = tt
found_in-OfTurn _ = tt

step-same_turn :
    (f : Found) (rest : Option TransactionTarget) (t : TransactionTarget)
    → OfTurn f
    → (rest ≡ some t → t.same_turn ≡ true)
    → (elim f as (λ x. Option TransactionTarget) [
      | Found.here target ↦ some target
      | Found.deleted ↦ none
      | Found.unrelated ↦ rest
    ])
      ≡ some t
    → t.same_turn ≡ true
step-same_turn (Found.here target) rest t o h e = ground (arith, o, e)
step-same_turn Found.deleted rest t o h e = cc
step-same_turn Found.unrelated rest t o h e = h e

search_back-same_turn :
    (ws : List WriteIntent) (t : TransactionTarget) → search_back ws ≡ some t → t.same_turn ≡ true
search_back-same_turn [] t e = cc
search_back-same_turn (w ∷ ws) t e =
    step-same_turn (found_in w) (search_back ws) t (found_in-OfTurn w) (search_back-same_turn ws t)
      e

pub last_buffered-same_turn :
    (ws : List WriteIntent) (t : TransactionTarget)
    → last_buffered_transaction ws ≡ some t
    → t.same_turn ≡ true
unfolding last_buffered_transaction
last_buffered-same_turn ws t e = search_back-same_turn (reverse ws) t e
