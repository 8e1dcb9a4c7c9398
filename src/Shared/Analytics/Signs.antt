-- ===== src/Shared/Analytics/Signs.antt =====
-- The direction that crates/shared/src/analytics.rs reports.
use mathlib.Core.Option.{some-injective}
use andy.Base.{
  ◌≡◌, refl, ◌↔◌, true, Option, none, some, ℤ, pos, ◌<ℤ◌, -ℤ_parts, ltb_ℤ, eqb_ℤ, eqb_ℤ_iff,
  Bool-cases, inl, inr, saturating_sub, if◌then◌else◌, arith,
}
use andy.Shared.Percent.{percent_rounded}
use andy.Shared.Analytics.{
  Direction, pct_baseline_floor_centavos, direction_of, spending_delta, hides_change,
}

-- Saturation keeps the sign of the difference.
up_iff : (a b : ℤ) → (direction_of (saturating_sub a b) ≡ Direction.up) ↔ (b <ℤ a)
unfolding saturating_sub
up_iff a b = ground (arith, -ℤ_parts a b)

down_iff : (a b : ℤ) → (direction_of (saturating_sub a b) ≡ Direction.down) ↔ (a <ℤ b)
unfolding saturating_sub
down_iff a b = ground (arith, -ℤ_parts a b)

flat_if_zero : (delta : ℤ) → eqb_ℤ delta (pos 0) ≡ true → direction_of delta ≡ Direction.flat
flat_if_zero delta e = rw ((eqb_ℤ_iff delta (pos 0)).0 e) refl

shown_zero :
    (raw : Option ℤ) (delta : ℤ)
    → (if hides_change raw delta then none else raw) ≡ some (pos 0)
    → direction_of delta ≡ Direction.flat
shown_zero none delta h = cc
shown_zero (some pct) delta h = elim (Bool-cases (eqb_ℤ delta (pos 0))) [
  | inl e ↦ flat_if_zero delta e
  | inr e ↦ elim (Bool-cases (eqb_ℤ pct (pos 0))) [
    | inl z ↦ ground (arith, h, e, z)
    | inr z ↦ ground (arith, h, e, z, eqb_ℤ_iff pct (pos 0), some-injective pct (pos 0) (rw z at h))
  ]
]

-- A comparison says up exactly when more was spent and down exactly when less was, also where the
-- difference does not fit an `i64`, and a change is never reported as zero percent.
pub spending_delta-direction :
    (current previous : ℤ)
    → ((spending_delta current previous).direction ≡ Direction.up ↔ previous <ℤ current)
      × ((spending_delta current previous).direction ≡ Direction.down ↔ current <ℤ previous)
      × ((spending_delta current previous).pct_change ≡ some (pos 0)
          → (spending_delta current previous).direction ≡ Direction.flat)
unfolding spending_delta
spending_delta-direction current previous = (
  up_iff current previous,
  down_iff current previous,
  shown_zero
      (if ltb_ℤ previous pct_baseline_floor_centavos
        then none
        else percent_rounded (saturating_sub current previous) previous)
      (saturating_sub current previous),
)
