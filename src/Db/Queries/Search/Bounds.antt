-- ===== src/Db/Queries/Search/Bounds.antt =====
-- How much the searches of crates/db/src/queries.rs list.
use andy.Base.{
  ◌≤◌, List, take, map, length, length-map, length-take-le, ℤ, pos, negsuc, Option, Text, arith,
}
use andy.Domain.{Uuid}
use andy.Domain.Rows.{TransactionSearch, TransactionSummaryRow}
use andy.Db.Tables.{Engine, Database, DbError, ok, Ensures, Ensures-require}
use andy.Db.Queries.Search.{
  clamp_limit, search_transactions, search_transfers, if_given, is_tx_kind, transfer_from_row,
}

clamp_limit-le : (limit : ℤ) → clamp_limit limit ≤ 50
clamp_limit-le (pos k) = ground arith
clamp_limit-le (negsuc k) = ground arith

mapped {ℓ κ} :
    {A : Type ℓ} {B : Type κ} (f : A → B) (limit : ℤ) (xs : List A)
    → length (map f (take (clamp_limit limit) xs)) ≤ 50
mapped f limit xs = omega (
  arith,
  length-map f (take (clamp_limit limit) xs),
  length-take-le (clamp_limit limit) xs,
  clamp_limit-le limit,
)

-- A search of the transfers lists at most 50 of them, whatever limit is asked for.
search_transfers-le :
    (e : Engine) (user : Uuid) (account : Option Text) (limit : ℤ) (db : Database)
    → length (search_transfers e user account limit db) ≤ 50
unfolding search_transfers
search_transfers-le e user account limit db = mapped transfer_from_row limit _

-- A search of the transactions that succeeds lists at most 50 of them.
search_transactions-le :
    (e : Engine) (user : Uuid) (opts : TransactionSearch) (db : Database)
    → Ensures (λ rows. length rows ≤ 50) (search_transactions e user opts db)
unfolding search_transactions
search_transactions-le e user opts db =
    Ensures-require (λ (rows : List TransactionSummaryRow). length rows ≤ 50)
      (if_given is_tx_kind opts.kind) DbError.decode (ok _) (λ h. mapped _ opts.limit _)
