-- ===== src/Shared/Floats.antt =====
-- The arithmetic of `f64`, a parameter of what crates/shared computes with it.
use andy.Base.{ℤ, Bool}

pub record Floats : Type 1 where
  pub Float : Type 0
  -- `as f64` of an `i64`
  pub of_i64 : ℤ → Float
  pub add : Float → Float → Float
  pub mul : Float → Float → Float
  pub div : Float → Float → Float
  -- `>=` and `>`
  pub ge : Float → Float → Bool
  pub gt : Float → Float → Bool
  -- `clamp(0.0, 1.0)`
  pub clamp : Float → Float
  -- `round() as i64`
  pub round : Float → ℤ
  -- `0.1`
  pub tenth : Float
