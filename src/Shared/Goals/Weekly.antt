-- ===== src/Shared/Goals/Weekly.antt =====
-- What crates/shared/src/goals.rs tells the user to save a week.
use native.Mathlib.Omega.{div_fact}
use mathlib.Core.Path.{subst}
use andy.Base.{
  ℕ, suc, ◌+◌, ◌-◌, ◌*◌, ◌/◌, ◌≤◌, ◌<◌, ◌≡◌, sym, ap, Bool, if◌then◌else◌, true, false, Option,
  none, some, ℤ, pos, negsuc, ◌+ℤ◌, ◌-ℤ◌, ◌*ℤ◌, ◌/ℤ◌, ◌≤ℤ◌, ◌<ℤ◌, max_ℤ, div_euclid, arith,
  int_laws,
}
use andy.Domain.{NaiveDate}
use andy.Shared.Time.{day_length}
use andy.Shared.Floats.{Floats}
use andy.Shared.Goals.{GoalProgressInput, goal_pace, pace_by, weeks_remaining}

-- The least weekly amount that makes up for what remains in time.
abbrev pub IsWeeklyShare : ℤ → ℤ → ℤ → Type 0
IsWeeklyShare remaining weeks per_week =
    (remaining ≤ℤ weeks *ℤ per_week) × (weeks *ℤ per_week <ℤ remaining +ℤ weeks)

positive : (a : ℤ) → pos 0 <ℤ a → (r : ℕ) × (a ≡ pos (suc r))
positive (pos n) h = (n - 1, (let e : n ≡ suc (n - 1) = omega (arith, h) in ap pos e))
positive (negsuc n) h = absurd (omega (arith, h))

at_least_one : (a : ℤ) → pos 0 <ℤ max_ℤ a (pos 1)
at_least_one a = ground arith

rounded_up :
    (r k : ℕ)
    → (suc r ≤ suc k * ((suc r + k) / suc k)) × (suc k * ((suc r + k) / suc k) < suc r + suc k)
rounded_up r k = (let f = div_fact (suc r + k) k in (omega (arith, f), omega (arith, f)))

quotient :
    (r k : ℕ) → (pos (suc r) +ℤ pos (suc k) -ℤ pos 1) /ℤ pos (suc k) ≡ pos ((suc r + k) / suc k)
unfolding ◌+ℤ◌ ◌-ℤ◌ ◌/ℤ◌
quotient r k = ground arith

scaled : (k q : ℕ) → pos (suc k) *ℤ pos q ≡ pos (suc k * q)
unfolding ◌*ℤ◌
scaled k q = ground arith

share_of :
    (r k : ℕ)
    → IsWeeklyShare
        (pos (suc r))
        (pos (suc k))
        ((pos (suc r) +ℤ pos (suc k) -ℤ pos 1) /ℤ pos (suc k))
share_of r k = rw (quotient r k) (
    rw (scaled k ((suc r + k) / suc k))
      (let h = rounded_up r k in (omega (int_laws, h.0), omega (int_laws, h.1))))

weekly_share :
    (remaining weeks : ℤ)
    → pos 0 <ℤ remaining
    → pos 0 <ℤ weeks
    → IsWeeklyShare remaining weeks ((remaining +ℤ weeks -ℤ pos 1) /ℤ weeks)
weekly_share remaining weeks h k =
    (let (r, e) = positive remaining h in let (w, f) = positive weeks k in rw (e, f) (share_of r w))

abbrev pub Shares : ℤ → ℤ → Option ℤ → Type 0
Shares remaining weeks none = Unit
Shares remaining weeks (some per_week) = IsWeeklyShare remaining weeks per_week

if-Shares :
    (on_track : Bool) (remaining weeks per_week : ℤ)
    → IsWeeklyShare remaining weeks per_week
    → Shares remaining weeks (if on_track then none else some per_week)
if-Shares true remaining weeks per_week h = tt
if-Shares false remaining weeks per_week h = h

missing : (saved target : ℤ) → saved <ℤ target → pos 0 <ℤ target -ℤ saved
missing saved target h = omega (int_laws, h)

weeks-positive : (deadline today : ℤ) → pos 0 <ℤ weeks_remaining deadline today
unfolding weeks_remaining
weeks-positive deadline today =
    at_least_one (div_euclid ((deadline *ℤ pos day_length -ℤ today) /ℤ pos 1000000) (7 * 86400))

pace_by-Shares :
    (floats : Floats) (goal : GoalProgressInput) (deadline : NaiveDate)
    → goal.saved_centavos <ℤ goal.target_centavos
    → Shares
        (goal.target_centavos -ℤ goal.saved_centavos)
        (weeks_remaining deadline goal.today)
        (pace_by floats goal (some deadline)).per_week_centavos
unfolding pace_by
pace_by-Shares floats goal deadline h = if-Shares _ _ _ _ (
    weekly_share _ _ (missing goal.saved_centavos goal.target_centavos h)
      (weeks-positive deadline goal.today))

-- Of a goal that is not reached, with a deadline: if a weekly amount is suggested, that amount times
-- the whole weeks that remain, at least one, covers what is missing, and it is the least amount that
-- does.
pub goal_pace-per_week :
    (floats : Floats) (goal : GoalProgressInput) (deadline : NaiveDate)
    → goal.target_date ≡ some deadline
    → goal.saved_centavos <ℤ goal.target_centavos
    → Shares
        (goal.target_centavos -ℤ goal.saved_centavos)
        (weeks_remaining deadline goal.today)
        (goal_pace floats goal).per_week_centavos
unfolding goal_pace
goal_pace-per_week floats goal deadline e h =
    subst
      (λ o.
        Shares (goal.target_centavos -ℤ goal.saved_centavos) (weeks_remaining deadline goal.today)
          (pace_by floats goal o).per_week_centavos)
      (sym e) (pace_by-Shares floats goal deadline h)
