-- ===== src/Shared/Security.antt =====
-- crates/shared/src/security.rs: comparing secrets in constant time, over bytes.
use Prim.Native.Nat.{zero, max, bit_or, bit_xor}
use andy.Base.{ℕ, suc, Bool, Option, none, some, List, [], ◌∷◌, length, unwrap_or, ◌==◌}
pub mod Equal

-- `bytes.get(index)`
abbrev pub get_elem? {ℓ} : {A : Type ℓ} → List A → ℕ → Option A
get_elem? [] i = none
get_elem? (x ∷ xs) zero = some x
get_elem? (x ∷ xs) (suc i) = get_elem? xs i

abbrev pub byte_at : List ℕ → ℕ → ℕ
byte_at bytes index = unwrap_or 0 (get_elem? bytes index)

-- The loop from `idx` on, `n` rounds long.
unfoldable pub diff_from : List ℕ → List ℕ → ℕ → ℕ → ℕ → ℕ
diff_from a b zero idx diff = diff
diff_from a b (suc n) idx diff =
    diff_from a b n (suc idx) (bit_or diff (bit_xor (byte_at a idx) (byte_at b idx)))

unfoldable pub constant_time_equal : List ℕ → List ℕ → Bool
constant_time_equal a b =
    diff_from a b (max (length a) (length b)) 0 (bit_xor (length a) (length b)) == 0
