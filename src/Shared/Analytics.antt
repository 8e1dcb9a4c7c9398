-- ===== src/Shared/Analytics.antt =====
-- crates/shared/src/analytics.rs: comparing the spending of two periods. The projections use floats.
pub mod Signs
pub mod Pace
use andy.Base.{
  Bool, true, false, not, ◌&&◌, Option, none, some, ℤ, pos, ltb_ℤ, eqb_ℤ, saturating_sub,
  if◌then◌else◌,
}
use andy.Shared.Percent.{percent_rounded}

pub data Direction : Type 0 where
  up down flat : Direction

pub record SpendingComparison : Type 0 where
  pub current : ℤ
  pub previous : ℤ
  pub delta : ℤ
  pub pct_change : Option ℤ
  pub direction : Direction

-- `PCT_BASELINE_FLOOR_CENTAVOS`
abbrev pub pct_baseline_floor_centavos : ℤ
pct_baseline_floor_centavos = pos 100

abbrev pub direction_of : ℤ → Direction
direction_of delta =
    if ltb_ℤ (pos 0) delta
    then Direction.up
    else if ltb_ℤ delta (pos 0)
    then Direction.down
    else Direction.flat

-- `raw_pct == Some(0) && delta != 0`
abbrev pub hides_change : Option ℤ → ℤ → Bool
hides_change none delta = false
hides_change (some pct) delta = eqb_ℤ pct (pos 0) && not (eqb_ℤ delta (pos 0))

unfoldable pub spending_delta : ℤ → ℤ → SpendingComparison
spending_delta current previous =
    let delta = saturating_sub current previous in
    let raw_pct =
      if ltb_ℤ previous pct_baseline_floor_centavos then none else percent_rounded delta previous in
    record {
      current = current;
      previous = previous;
      delta = delta;
      pct_change = if hides_change raw_pct delta then none else raw_pct;
      direction = direction_of delta;
    }
