-- ===== src/Shared/Dedup.antt =====
-- crates/shared/src/dedup.rs: the key of a message that has no identifier. SHA-256 is a parameter.
pub mod Printed
pub mod Injective
use andy.Base.{
  ℕ, Bool, not, ◌||◌, ◌&&◌, List, [], ◌∷◌, ◌++◌, keep, take, join, ℤ, pos, ◌+ℤ◌, ◌*ℤ◌, div_euclid,
  leb, Text, codes, trim,
}
use andy.Domain.{Instant}
use andy.Shared.Time.{manila_offset_minutes}
use andy.Shared.Budget.{signed_decimal}

-- `KEY_SEPARATOR`
abbrev pub key_separator : ℕ
key_separator = 0

-- `char::is_control`
unfoldable pub is_control : ℕ → Bool
is_control c = leb c 31 || (leb 127 c && leb c 159)

unfoldable pub strip_control : Text → Text
unfolding is_control
strip_control value = keep (λ c. not (is_control c)) value

-- The minute of an instant: `timestamp_millis` and `div_euclid` round down.
unfoldable pub minute_bucket : Instant → ℤ
minute_bucket at =
    let offset_ms = manila_offset_minutes *ℤ pos 60000 in
    div_euclid (div_euclid at 1000 +ℤ offset_ms) 60000

-- What is hashed.
unfoldable pub key_input : Text → Text → Instant → Text
unfolding strip_control minute_bucket
key_input phone text at =
    join (key_separator ∷ [])
      (strip_control phone ∷ strip_control (trim text) ∷ signed_decimal (minute_bucket at) ∷ [])

unfoldable pub content_dedup_key : (Text → Text) → Text → Text → Instant → Text
unfolding key_input
content_dedup_key sha256_hex phone text at =
    codes "ch_" ++ take 32 (sha256_hex (key_input phone text at))
