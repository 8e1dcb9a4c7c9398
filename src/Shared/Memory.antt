-- ===== src/Shared/Memory.antt =====
-- crates/shared/src/memory.rs: how memories are compared, and which kind wins.
use andy.Base.{
  ℕ, Bool, not, [], ◌∷◌, ltb, keep, Text, codes, text_eq, one_of, to_ascii_lowercase,
  is_ascii_alphanumeric, is_empty, split, join, ◌==◌, if◌then◌else◌,
}

unfoldable pub normalize_memory_content : Text → Text
normalize_memory_content content = join (codes " ") (
    keep (λ token. not (is_empty token))
      (split (λ c. not (is_ascii_alphanumeric c)) (to_ascii_lowercase content)))

unfoldable pub compact_memory_content : Text → Text
compact_memory_content content = keep (λ c. not (c == b' ')) (normalize_memory_content content)

unfoldable pub memory_kind_rank : Text → ℕ
memory_kind_rank kind =
    if text_eq kind (codes "payday")
    then 0
    else if one_of kind (codes "fact" ∷ codes "preference" ∷ [])
    then 1
    else if text_eq kind (codes "goal")
    then 2
    else 3

unfoldable pub should_promote_memory_kind : Text → Text → Bool
should_promote_memory_kind current next = ltb (memory_kind_rank next) (memory_kind_rank current)
