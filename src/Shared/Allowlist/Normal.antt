-- ===== src/Shared/Allowlist/Normal.antt =====
-- Which numbers crates/shared/src/allowlist.rs lets in.
use andy.Base.{◌≡◌, ◌↔◌, true, false, Text, is_empty, arith}
use andy.Shared.Security.Equal.{constant_time_equal_iff}
use andy.Shared.Allowlist.{normalize_phone, is_allowed}

-- A number is let in exactly if it has a digit and normalises to what the allowed number does.
pub is_allowed_iff :
    (inbound allowed : Text)
    → (is_allowed inbound allowed ≡ true) ↔ (
        (is_empty (normalize_phone inbound) ≡ false)
        × (normalize_phone inbound ≡ normalize_phone allowed))
unfolding is_allowed
is_allowed_iff inbound allowed =
    (let c = constant_time_equal_iff (normalize_phone inbound) (normalize_phone allowed) in
      (
        λ h. (ground (arith, h), c.0 (ground (arith, h))),
        λ h. ground (arith, h.0, c.1 h.1, same h.0 h.1),
      ))
  where
    same : {a b : Text} → is_empty a ≡ false → a ≡ b → is_empty b ≡ false
    same h e = rw (← e) h
