-- ===== src/Tests/Queue.antt =====
-- The outbound queue and the rate limit of crates/db at concrete tables.
use Prim.Native.Nat.{min, ◌-◌}
use mathlib.Core.List.{Permᴰ}
use mathlib.Core.List.Permᴰ
use andy.Base.{
  List, ◌++◌, ◌≤◌, ◌≡◌, refl, ◌⊎◌, true, false, [], ◌∷◌, map, take, keep, length, ltb, pos, ◌+ℤ◌,
  ◌-ℤ◌, ◌*ℤ◌, ◌/ℤ◌, rem_euclid, codes, arith,
}
use andy.Db.Tables.{Database, OutboundRow, OutboundStatus, Ensures}
use andy.Db.Outbox.{
  clamp_limit, is_due, fail_row, claim_due_outbound_messages, mark_outbound_failed,
}
use andy.Db.Outbox.Claims.{
  unclaimed, returned, claim_due_outbound_messages-eq, claim_due_outbound_messages-disjoint,
}
use andy.Db.Outbox.Retry.{Requeued, DeadLettered, fail_row-outcome, tries, tries-status}
use andy.Db.Flush.Frame.{Sent}
use andy.Db.Flush.Steps.{Step, Steps}
use andy.Db.Flush.Delivery.{Steps-Sent}
use andy.Db.RateLimit.{window_start}
use andy.Db.RateLimit.Window.{allowed_of, allowed_of-eq, counted, effective_limit}
use andy.Tests.Fixtures.{engine, start, queued}

abbrev late : Database
late = mark_outbound_failed 31 (codes "timeout") true start

Steps-Sent_example : Sent 31 (claim_due_outbound_messages engine (pos 1000) 10 late).1
Steps-Sent_example =
    Steps-Sent engine 31
      (Steps.also (Step.mark_failed 31 (codes "timeout") true start) (
        Steps.also (Step.claim_due (pos 1000) 10 late)
          (Steps.done (claim_due_outbound_messages engine (pos 1000) 10 late).1)))
      refl

arranges : (os : List OutboundRow) → Permᴰ (engine.returning os) os
arranges = Permᴰ.reverse

claim_due_outbound_messages-eq_example :
    (Permᴰ (claim_due_outbound_messages engine (pos 1000) 10 start).0 (
      map
        (returned (pos 1000))
        (take (clamp_limit 10) (keep (is_due (pos 1000)) start.outbound_messages))))
    × (length (claim_due_outbound_messages engine (pos 1000) 10 start).0 ≤ 10)
claim_due_outbound_messages-eq_example =
    claim_due_outbound_messages-eq engine arranges (pos 1000) 10 start

claim_due_outbound_messages-disjoint_example :
    (Permᴰ
      (claim_due_outbound_messages engine
        (pos 2500)
        5
        (record (claim_due_outbound_messages engine (pos 1000) 1 start).1 { now = pos 2000 })).0
      (map (returned (pos 2000)) (
        take
          (clamp_limit 5)
          (keep (is_due (pos 2500)) (unclaimed (pos 1000) 1 start.outbound_messages)))))
    × Permᴰ
        (take (clamp_limit 1) (keep (is_due (pos 1000)) start.outbound_messages)
          ++ unclaimed (pos 1000) 1 start.outbound_messages)
        start.outbound_messages
unfolding ◌+ℤ◌
claim_due_outbound_messages-disjoint_example =
    claim_due_outbound_messages-disjoint engine arranges (pos 1000) (pos 2500) (pos 2000) 1 5 start
      refl

abbrev busy : OutboundRow
busy = queued 30 OutboundStatus.sending

fail_row-outcome_example :
    ((true ≡ true)
      × (ltb 0 2 ≡ true)
      × Requeued (pos 1000) busy (fail_row (pos 1000) (codes "timeout") true busy))
    ⊎ (((true ≡ false) ⊎ (2 ≤ 0))
        × DeadLettered (pos 1000) (fail_row (pos 1000) (codes "timeout") true busy))
fail_row-outcome_example = fail_row-outcome (pos 1000) (codes "timeout") true busy

abbrev twice : OutboundRow
twice = tries (codes "timeout") (pos 1000 ∷ (pos 2000 ∷ [])) (queued 30 OutboundStatus.pending)

tries-status_example :
    (twice.status ≡ OutboundStatus.failed) × (is_due (pos 9000000000) twice ≡ false)
tries-status_example =
    tries-status (codes "timeout") (pos 1000) (pos 2000 ∷ []) (queued 30 OutboundStatus.pending)
      (pos 9000000000) (omega arith)

same_window : window_start (pos 61000000) 60 ≡ pos 60000000
unfolding window_start ◌-ℤ◌ ◌*ℤ◌ ◌/ℤ◌ rem_euclid
same_window = refl

allowed_of-eq_example :
    Ensures
      (λ n.
        n
        ≡ min 3 (
            effective_limit (pos 2) - counted (codes "k") (pos 60000000) start.inbound_rate_limits))
      (allowed_of
        (codes "k")
        (pos 61000000 ∷ (pos 61000000 ∷ (pos 61000000 ∷ [])))
        (pos 60)
        (pos 2)
        start)
allowed_of-eq_example =
    allowed_of-eq (codes "k") (pos 60000000) (pos 61000000 ∷ (pos 61000000 ∷ (pos 61000000 ∷ [])))
      (pos 60) (pos 2) start (same_window, (same_window, (same_window, tt)))
