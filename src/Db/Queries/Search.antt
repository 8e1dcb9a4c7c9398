-- ===== src/Db/Queries/Search.antt =====
-- `search_transactions` and `search_transfers` of crates/db/src/queries.rs, and `list_memories` of
-- ops.rs. Rows that an `order by` leaves equal are listed the newest first.
pub mod Bounds
use mathlib.Core.List.{reverse}
use andy.Base.{
  ℕ, Bool, true, false, ◌&&◌, ◌||◌, Option, none, some, List, [], ◌∷◌, keep, map, take, ℤ, pos,
  leb_ℤ, abs_ℕ, Text, trim, is_empty, text_eq, ◌==◌, if◌then◌else◌, unwrap_or,
}
use andy.Domain.{Uuid, TxKind, tx_kind_db, memory_kind_db}
use andy.Domain.Rows.{TransactionSummaryRow, TransferRow, TransactionSearch}
use andy.Db.Tables.{Engine, Database, DbError, Result, ok, ◌>>◌, require}
use andy.Db.Tables as Tables
use andy.Db.Like.{like, substring_pattern}
use andy.Db.Queries.{same_category, with_limit, newest_first, transaction_summary_from_row}

-- `limit.clamp(1, 50)`
abbrev pub clamp_limit : ℤ → ℕ
clamp_limit limit =
    abs_ℕ (if leb_ℤ limit (pos 1) then pos 1 else if leb_ℤ limit (pos 50) then limit else pos 50)

-- A condition that is left out when its parameter is null.
abbrev pub if_given {ℓ} : {A : Type ℓ} → (A → Bool) → Option A → Bool
if_given holds none = true
if_given holds (some x) = holds x

-- Into a list ordered by `le`, the largest first, before those that it reaches.
abbrev pub insert_by {ℓ} : {A : Type ℓ} → (A → A → Bool) → A → List A → List A
insert_by le x [] = x ∷ []
insert_by le x (y ∷ ys) = if le y x then x ∷ (y ∷ ys) else y ∷ insert_by le x ys

abbrev pub order_by {ℓ} : {A : Type ℓ} → (A → A → Bool) → List A → List A
order_by le [] = []
order_by le (x ∷ xs) = insert_by le x (order_by le xs)

-- `note ilike $2 escape '\'`, which a null note fails
abbrev pub note_matches : Engine → Text → Option Text → Bool
note_matches e pattern none = false
note_matches e pattern (some note) = like (e.lower pattern) (e.lower note)

-- Whether `$8::tx_kind` is a value of the enum.
abbrev pub is_tx_kind : Text → Bool
is_tx_kind kind =
    text_eq kind (tx_kind_db TxKind.income) || text_eq kind (tx_kind_db TxKind.expense)

-- The `where` clause of `search_transactions`.
unfoldable pub is_sought : Engine → TransactionSearch → Tables.TransactionRow → Bool
is_sought e opts t =
    if_given (λ text. note_matches e (substring_pattern (trim text)) t.note) opts.text
    && (if_given (λ c. same_category c t.category) opts.category
        && (if_given (λ d. leb_ℤ d t.local_date) opts.start_date
            && (if_given (λ d. leb_ℤ t.local_date d) opts.end_date
                && (if_given (λ low. leb_ℤ low t.amount_centavos) opts.min_centavos
                    && (if_given (λ high. leb_ℤ t.amount_centavos high) opts.max_centavos
                        && if_given (λ kind. text_eq (tx_kind_db t.kind) kind) opts.kind)))))

abbrev pub by_amount : List Tables.TransactionRow → List Tables.TransactionRow
by_amount = order_by (λ (a : Tables.TransactionRow) (b : Tables.TransactionRow).
    leb_ℤ a.amount_centavos b.amount_centavos)

unfoldable pub search_transactions :
    Engine → Uuid → TransactionSearch → Database → Result (List TransactionSummaryRow)
unfolding is_sought
search_transactions e user_id opts db =
    let found = keep (is_sought e opts) (newest_first user_id db) in
    let rows = if opts.by_amount then by_amount found else found in
    require (if_given is_tx_kind opts.kind) DbError.decode
    >> ok (map transaction_summary_from_row (take (clamp_limit opts.limit) rows))

-- `lower(coalesce(account, '')) = lower($2)`
abbrev pub is_account : Engine → Text → Option Text → Bool
is_account e account side = text_eq (e.lower (unwrap_or [] side)) (e.lower account)

-- `account` as it is bound: trimmed, and null if nothing is left.
abbrev pub account_given : Option Text → Option Text
account_given none = none
account_given (some a) = if is_empty (trim a) then none else some (trim a)

abbrev pub transfer_from_row : Tables.TransferRow → TransferRow
transfer_from_row t = record {
  amount_centavos = t.amount_centavos;
  from_account = t.from_account;
  to_account = t.to_account;
  note = t.note;
  local_date = t.local_date;
}

unfoldable pub touches : Engine → Option Text → Tables.TransferRow → Bool
touches e account t =
    if_given (λ a. is_account e a t.from_account || is_account e a t.to_account)
      (account_given account)

unfoldable pub search_transfers : Engine → Uuid → Option Text → ℤ → Database → List TransferRow
unfolding touches
search_transfers e user_id account limit db =
    let rows = reverse (
      keep (λ (t : Tables.TransferRow). (t.user_id == user_id) && touches e account t)
        db.transfers) in
    map transfer_from_row (
      take (clamp_limit limit) (
        order_by
          (λ (a : Tables.TransferRow) (b : Tables.TransferRow). leb_ℤ a.local_date b.local_date)
          rows))

pub record MemoryRow : Type 0 where
  pub id : Uuid
  pub content : Text
  pub kind : Text

abbrev pub memory_from_row : Tables.MemoryRow → MemoryRow
memory_from_row m = record { id = m.id; content = m.content; kind = memory_kind_db m.kind }

unfoldable pub list_memories : Uuid → ℤ → Database → Result (List MemoryRow)
list_memories user_id limit db = with_limit limit (
    map memory_from_row
      (reverse (keep (λ (m : Tables.MemoryRow). m.user_id == user_id) db.memories)))
