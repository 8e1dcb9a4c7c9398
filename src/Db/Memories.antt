-- ===== src/Db/Memories.antt =====
-- `save_memory_in_tx` and `forget_memory_in_tx` of crates/db/src/writes.rs. `order by created_at
-- desc limit 1` is the row that was inserted last.
use mathlib.Core.List.{reverse}
use andy.Base.{
  ℕ, suc, Bool, not, ◌&&◌, ◌||◌, Option, none, some, List, [], ◌∷◌, ◌++◌, any, keep, find,
  update_where, Text, text_eq, trim, is_empty, ◌==◌, if◌then◌else◌, leb, length,
}
use andy.Domain.{Uuid, MemoryKind, memory_kind_db}
use andy.Shared.Memory.{
  normalize_memory_content, compact_memory_content, should_promote_memory_kind,
}
use andy.Db.Like.{like, substring_pattern}
use andy.Db.Tables.{Engine, Database, MemoryRow, DbError, Result, ok, ◌>>◌, require, has_user}
use andy.Db.Transactions.{truncate}

-- `memory_content_len`
abbrev pub memory_max : ℕ
memory_max = 4000

module _ (pg : Engine) where
  -- The `where` of the two exact lookups.
  abbrev pub same_memory : Uuid → Text → Text → MemoryRow → Bool
  same_memory user_id normalized compact m =
      (m.user_id == user_id)
      && (text_eq (pg.words m.content) normalized
          || text_eq (pg.unspaced (pg.words m.content)) compact)

  -- The `where` of the lookup by pattern.
  abbrev pub like_memory : Uuid → Text → Text → MemoryRow → Bool
  like_memory user_id normalized compact m =
      (m.user_id == user_id)
      && (like (substring_pattern normalized) (pg.words m.content)
          || like (substring_pattern compact) (pg.unspaced (pg.words m.content)))

  abbrev pub promote : Uuid → Uuid → MemoryKind → Database → Database
  promote id user_id kind db = record db {
    memories =
        update_where (λ m. (m.id == id) && (m.user_id == user_id)) (λ m. record m { kind = kind })
          db.memories;
  }

  unfoldable pub insert_memory : Uuid → Text → MemoryKind → Database → Result Database
  insert_memory user_id content kind db = do
    let id = pg.random db.drawn
    require (leb (length content) memory_max) DbError.check_violation
    require (has_user db user_id) DbError.foreign_key_violation
    require (not (any (λ m. m.id == id) db.memories)) DbError.unique_violation
    ok (record db {
      drawn = suc db.drawn;
      memories =
          db.memories ++ record { id = id; user_id = user_id; content = content; kind = kind } ∷ [];
    })

  -- `WriteIntent::SaveMemory`.
  unfoldable pub save_memory_in_tx : Uuid → Text → MemoryKind → Database → Result Database
  unfolding insert_memory
  save_memory_in_tx user_id content kind db =
      let trimmed = truncate (trim content) memory_max in
      let normalized = normalize_memory_content trimmed in
      let compact = compact_memory_content trimmed in
      if is_empty trimmed
      then ok db
      else if is_empty compact
      then ok db
      else elim (find (same_memory user_id normalized compact) (reverse db.memories)) [
        | none ↦ insert_memory user_id trimmed kind db
        | some existing ↦
            if should_promote_memory_kind (memory_kind_db existing.kind) (memory_kind_db kind)
            then ok (promote existing.id user_id kind db)
            else ok db
      ]

  abbrev pub forget_hit : Uuid → Text → Text → List MemoryRow → Option MemoryRow
  forget_hit user_id normalized compact newest_first =
      elim (find (same_memory user_id normalized compact) newest_first) [
        | some exact ↦ some exact
        | none ↦ find (like_memory user_id normalized compact) newest_first
      ]

  -- `WriteIntent::ForgetMemory`.
  unfoldable pub forget_memory_in_tx : Uuid → Text → Database → Result Database
  forget_memory_in_tx user_id query db =
      let trimmed = trim query in
      let normalized = normalize_memory_content trimmed in
      let compact = compact_memory_content trimmed in
      if is_empty trimmed
      then ok db
      else if is_empty compact
      then ok db
      else elim (forget_hit user_id normalized compact (reverse db.memories)) [
        | none ↦ ok db
        | some hit ↦ ok (record db {
          memories = keep (λ m. not ((m.id == hit.id) && (m.user_id == user_id))) db.memories;
        })
      ]
