-- ===== src/Db/Outbox/Retry.antt =====
-- What becomes of a message that does not get through: `mark_outbound_failed` of crates/db/src/ops.rs.
use andy.Base.{
  ℕ, suc, ◌+◌, ◌*◌, ◌≤◌, ◌≡◌, refl, Bool, true, false, ◌&&◌, some, List, [], ◌∷◌, arith, length,
  if◌then◌else◌, inl, inr, Bool-cases, leb_ℤ, ltb, pos, ◌+ℤ◌, +ℤ_parts, Text, ◌⊎◌,
}
use andy.Domain.{Instant}
use andy.Db.Tables.{OutboundRow, OutboundStatus}
use andy.Db.Outbox.{is_due, claim, fail_row, backoff_seconds}

-- A failure sends the row back to the queue, or to the dead letters.
pub record Requeued (now : Instant) (o o' : OutboundRow) : Type 0 where
  pub waits : o'.status ≡ OutboundStatus.pending
  pub not_dead : o'.dead_lettered_at ≡ o.dead_lettered_at
  pub after_half_a_minute : leb_ℤ (now +ℤ pos 30000000) o'.next_attempt_at ≡ true
  pub within_an_hour : leb_ℤ o'.next_attempt_at (now +ℤ pos 3600000000) ≡ true

abbrev pub DeadLettered : Instant → OutboundRow → Type 0
DeadLettered now o' = (o'.status ≡ OutboundStatus.failed) × (o'.dead_lettered_at ≡ some now)

backoff_low : (n : ℕ) → 30000000 ≤ backoff_seconds n * 1000000
unfolding backoff_seconds
backoff_low n = omega arith

backoff_high : (n : ℕ) → backoff_seconds n * 1000000 ≤ 3600000000
unfolding backoff_seconds
backoff_high n = omega arith

between :
    (now : Instant) (n : ℕ)
    → 30000000 ≤ n
    → n ≤ 3600000000
    → (leb_ℤ (now +ℤ pos 30000000) (now +ℤ pos n) ≡ true)
      × (leb_ℤ (now +ℤ pos n) (now +ℤ pos 3600000000) ≡ true)
between now n h k = (
  ground (arith, h, +ℤ_parts now (pos 30000000), +ℤ_parts now (pos n)),
  ground (arith, k, +ℤ_parts now (pos 3600000000), +ℤ_parts now (pos n)),
)

fail_row-requeues :
    (now : Instant) (error : Text) (retryable : Bool) (o : OutboundRow)
    → retryable && ltb o.attempt_count o.max_attempts ≡ true
    → Requeued now o (fail_row now error retryable o)
unfolding fail_row
fail_row-requeues now error retryable o e =
    (let b =
        between now (backoff_seconds o.attempt_count * 1000000) (backoff_low o.attempt_count)
          (backoff_high o.attempt_count) in
      record {
        waits = ground (arith, e);
        not_dead = ground (arith, e);
        after_half_a_minute = ground (arith, e, b.0);
        within_an_hour = ground (arith, e, b.1);
      })

out_of_tries :
    (retryable : Bool) (o : OutboundRow)
    → retryable && ltb o.attempt_count o.max_attempts ≡ false
    → (retryable ≡ false) ⊎ (o.max_attempts ≤ o.attempt_count)
out_of_tries true o e = inr (ground (arith, e))
out_of_tries false o e = inl refl

-- A failure that can be retried, with attempts left, puts the message back in the queue, to wait
-- between 30 seconds and an hour; every other failure is dead-lettered at once.
pub fail_row-outcome :
    (now : Instant) (error : Text) (retryable : Bool) (o : OutboundRow)
    → ((retryable ≡ true)
        × (ltb o.attempt_count o.max_attempts ≡ true)
        × Requeued now o (fail_row now error retryable o))
      ⊎ (((retryable ≡ false) ⊎ (o.max_attempts ≤ o.attempt_count))
          × DeadLettered now (fail_row now error retryable o))
unfolding fail_row
fail_row-outcome now error retryable o =
    elim (Bool-cases (retryable && ltb o.attempt_count o.max_attempts)) [
      | inl e ↦
          inl (ground (arith, e), ground (arith, e), fail_row-requeues now error retryable o e)
      | inr e ↦ inr (out_of_tries retryable o e, (ground (arith, e), ground (arith, e)))
    ]

-- The tries of workers that claim the message at each of the times, and that each time mark it as
-- failed in a way that can be retried.
unfoldable pub tries : Text → List Instant → OutboundRow → OutboundRow
tries error [] o = o
tries error (t ∷ ts) o = tries error ts (fail_row t error true (claim t o))

tried :
    (error : Text) (t : Instant) (ts : List Instant) (o : OutboundRow)
    → o.attempt_count + suc (length ts) ≤ o.max_attempts
    → (tries error (t ∷ ts) o).status ≡ (
        if ltb (o.attempt_count + suc (length ts)) o.max_attempts
        then OutboundStatus.pending
        else OutboundStatus.failed)
unfolding tries fail_row
tried error t [] o h = ground arith
tried error t (u ∷ us) o h = ground (arith, h, tried error u us (fail_row t error true (claim t o)))

due_again :
    (at : Instant) (o : OutboundRow) (left : Bool)
    → o.status ≡ (if left then OutboundStatus.pending else OutboundStatus.failed)
    → is_due at o ≡ left && leb_ℤ o.next_attempt_at at
unfolding is_due
due_again at o true e = ground (arith, e)
due_again at o false e = ground (arith, e)

-- A message that is claimed and then marked as failed in a way that can be retried, any number of
-- times in a row but at most as often as it has attempts left, waits for its next attempt while it has
-- any left, and is dead-lettered when it has none; and it is due again only if it has attempts left and
-- its next attempt has come.
pub tries-status :
    (error : Text) (t : Instant) (ts : List Instant) (o : OutboundRow) (later : Instant)
    → o.attempt_count + suc (length ts) ≤ o.max_attempts
    → ((tries error (t ∷ ts) o).status ≡ (
        if ltb (o.attempt_count + suc (length ts)) o.max_attempts
        then OutboundStatus.pending
        else OutboundStatus.failed))
      × (is_due later (tries error (t ∷ ts) o)
          ≡ ltb (o.attempt_count + suc (length ts)) o.max_attempts
            && leb_ℤ (tries error (t ∷ ts) o).next_attempt_at later)
tries-status error t ts o later h = (
  tried error t ts o h,
  due_again later (tries error (t ∷ ts) o) (ltb (o.attempt_count + suc (length ts)) o.max_attempts)
      (tried error t ts o h),
)
