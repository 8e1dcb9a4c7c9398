-- ===== src/Shared/Allowlist.antt =====
-- crates/shared/src/allowlist.rs: who may talk to the bot. The digits and the plus sign that are
-- compared are ASCII, so a character is a byte.
pub mod Normal
use andy.Base.{
  ℕ, Bool, true, false, not, ◌&&◌, List, [], ◌∷◌, Text, codes, trim, is_ascii_digit, is_empty, keep,
  if◌then◌else◌,
}
use andy.Shared.Security.{constant_time_equal}

unfoldable pub normalize_phone : Text → Text
normalize_phone raw =
    let digits = keep is_ascii_digit (trim raw) in if is_empty digits then [] else b'+' ∷ digits

unfoldable pub is_allowed : Text → Text → Bool
is_allowed inbound allowed =
    let from = normalize_phone inbound in
    let wanted = normalize_phone allowed in
    not (is_empty from) && (not (is_empty wanted) && constant_time_equal from wanted)
