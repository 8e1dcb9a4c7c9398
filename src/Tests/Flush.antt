-- ===== src/Tests/Flush.antt =====
-- Flushes of crates/db/src/writes.rs at concrete tables.
use andy.Base.{ℕ, ◌≡◌, refl, false, some, List, [], ◌∷◌, map, pos, ◌+ℤ◌, codes, inl, arith, ◌==◌}
use andy.Domain.{WriteIntent}
use andy.Db.Tables.{Database, GoalRow, ok, Ensures}
use andy.Db.Confirmations.{consume_confirmation_in_tx, cancel_pending_confirmations}
use andy.Db.Ledger.GoalRows.{IsBook}
use andy.Db.Flush.{
  FlushResult, ClaimResult, flush_writes, apply_all, apply_write_intent, complete_message,
  claim_slot,
}
use andy.Db.Flush.Balances.{flush_writes-IsBook}
use andy.Db.Flush.Forever.{flush_writes-Consumes_once}
use andy.Db.Flush.Handled.{flush_writes-handles_once}
use andy.Db.Flush.Exclusion.{claim_slot-excludes}
use andy.Db.Flush.Steps.{Step, Steps}
use andy.Db.Reapers.{reap_processed_messages}
use andy.Db.Reconcile.{reconcile_goal_balances}
use andy.Db.Reconcile.Balanced.{flush_writes-reconciled}
use andy.Db.Reconcile.Repair.{Repaired, reconcile_goal_balances-repairs}
use andy.Tests.Fixtures.{engine, start, start-IsBook, confirmed, intents}

flush_writes-IsBook_example :
    Ensures (λ r. IsBook 1 r.1) (flush_writes engine (some (codes "m2")) intents start)
flush_writes-IsBook_example =
    flush_writes-IsBook engine 1 (some (codes "m2")) intents start (refl, (refl, (refl, tt)))
      start-IsBook

abbrev yes : List WriteIntent
yes = WriteIntent.consume_confirmation 1 20 ∷ []

first_yes :
    flush_writes engine (some (codes "m2")) yes start ≡ ok (FlushResult.committed, confirmed)
unfolding flush_writes apply_all apply_write_intent consume_confirmation_in_tx complete_message
first_yes = refl

-- The identifiers from 100 on are not 20.
fresh : (n : ℕ) → (engine.random n == 20) ≡ false
fresh n = ground arith

flush_writes-Consumes_once_example :
    Ensures
      (λ r. r ≡ (FlushResult.superseded, (cancel_pending_confirmations 1 confirmed).1))
      (flush_writes engine (some (codes "m3")) yes (cancel_pending_confirmations 1 confirmed).1)
flush_writes-Consumes_once_example =
    flush_writes-Consumes_once engine 20 1 (some (codes "m2")) (some (codes "m3")) yes yes start
      confirmed (cancel_pending_confirmations 1 confirmed).1 fresh (inl refl) first_yes
      (Steps.also (Step.cancel 1 confirmed)
        (Steps.done (cancel_pending_confirmations 1 confirmed).1))
      (inl refl)

-- `confirmed` after the clean-up of the next day.
abbrev next_day : Database
next_day = (reap_processed_messages (pos 86400000000) (pos 3) (pos 24) confirmed).1

flush_writes-handles_once_example :
    (claim_slot (codes "m2") (pos 2000) next_day ≡ (ClaimResult.skip, next_day))
    × Ensures
        (λ r. r ≡ (FlushResult.superseded, next_day))
        (flush_writes engine (some (codes "m2")) intents next_day)
unfolding ◌+ℤ◌
flush_writes-handles_once_example =
    flush_writes-handles_once engine (codes "m2") yes intents (pos 2000) start confirmed next_day
      first_yes (Steps.also (Step.reap_processed (pos 86400000000) confirmed) (Steps.done next_day))
      (refl, tt)

claimed_first : (claim_slot (codes "m4") (pos 2000) confirmed).0 ≡ ClaimResult.process
unfolding claim_slot
claimed_first = refl

claim_slot-excludes_example :
    claim_slot (codes "m4") (pos 60000000) (claim_slot (codes "m4") (pos 2000) confirmed).1
    ≡ (ClaimResult.skip, (claim_slot (codes "m4") (pos 2000) confirmed).1)
unfolding ◌+ℤ◌
claim_slot-excludes_example =
    claim_slot-excludes (codes "m4") (pos 2000) (pos 60000000) confirmed (refl, tt) claimed_first
      refl

flush_writes-reconciled_example :
    Ensures
      (λ r. reconcile_goal_balances 1 r.1 ≡ ok (0, r.1))
      (flush_writes engine (some (codes "m2")) intents start)
flush_writes-reconciled_example =
    flush_writes-reconciled engine 1 (some (codes "m2")) intents start (refl, (refl, (refl, tt)))
      start-IsBook

-- `start` with a balance that has drifted.
abbrev drifted : Database
drifted = record start {
  savings_goals = map {A = GoalRow} (λ g. record g { saved_centavos = pos 7 }) start.savings_goals;
}

reconcile_goal_balances-repairs_example : Ensures (Repaired 1) (reconcile_goal_balances 1 drifted)
reconcile_goal_balances-repairs_example = reconcile_goal_balances-repairs 1 drifted (refl, tt)
