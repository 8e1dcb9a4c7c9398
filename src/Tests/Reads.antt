-- ===== src/Tests/Reads.antt =====
-- The searches of crates/db/src/queries.rs on a small database.
use andy.Base.{lower_char, trim, ◌≡◌, refl, true, none, some, [], ◌∷◌, pos, codes}
use andy.Domain.{Category}
use andy.Domain.Rows.{TransactionSearch}
use andy.Db.Tables.{Database, TransactionRow, DbError, ok, err}
use andy.Db.Like.{like, items, matches_items, escape_like, replace_char}
use andy.Db.Queries.Search.{is_sought, search_transactions}
use andy.Db.Queries.{transaction_summary_from_row}
use andy.Tests.Fixtures.{engine, start, deposit}

abbrev lunch : TransactionRow
lunch = record deposit { id = 51; category = Category.food; note = some (codes "Lunch 50% off") }

abbrev taxi : TransactionRow
taxi = record deposit { id = 52; amount_centavos = pos 900; note = some (codes "taxi") }

abbrev spent : Database
spent = record start { transactions = taxi ∷ lunch ∷ deposit ∷ [] }

abbrev anything : TransactionSearch
anything = record {
  text = none;
  category = none;
  start_date = none;
  end_date = none;
  min_centavos = none;
  max_centavos = none;
  kind = none;
  by_amount = true;
  limit = pos 2;
}

-- A `%` in the text is searched for literally, whatever the case.
by_text :
    search_transactions engine 1 (record anything { text = some (codes " LUNCH 50% ") }) spent
    ≡ ok (transaction_summary_from_row lunch ∷ [])
unfolding search_transactions is_sought like items matches_items escape_like replace_char lower_char
    trim
by_text = refl

-- The largest first; among equals the newest.
largest :
    search_transactions engine 1 anything spent
    ≡ ok (transaction_summary_from_row taxi ∷ transaction_summary_from_row deposit ∷ [])
unfolding search_transactions is_sought
largest = refl

unknown_kind :
    search_transactions engine 1 (record anything { kind = some (codes "gift") }) spent
    ≡ err DbError.decode
unfolding search_transactions is_sought
unknown_kind = refl
