-- ===== src/Db/Recurring.antt =====
-- The recurring reminders of crates/db/src/writes.rs.
use andy.Base.{
  ℕ, suc, Bool, true, not, ◌&&◌, ◌||◌, Option, none, some, List, [], ◌∷◌, ◌++◌, any, all, keep,
  find, update_where, length, leb, is_some, unwrap_or, ℤ, pos, leb_ℤ, Text, text_eq, trim, is_empty,
  ◌==◌, if◌then◌else◌,
}
use andy.Domain.{Uuid, Category, Cadence, RecurringInput}
use andy.Db.Like.{like, substring_pattern}
use andy.Db.Tables.{Engine, Database, RecurringRow, DbError, Result, ok, ◌>>◌, require, has_user}
use andy.Db.Transactions.{truncate, amount_allowed}

-- `LABEL_MAX`
abbrev pub label_max : ℕ
label_max = 100

abbrev pub between : ℤ → ℤ → Option ℤ → Bool
between lo hi none = true
between lo hi (some d) = leb_ℤ lo d && leb_ℤ d hi

-- `cadence_day_consistency`
abbrev pub cadence_has_day : Cadence → Option ℤ → Option ℤ → Bool
cadence_has_day Cadence.monthly dom dow = is_some dom
cadence_has_day Cadence.weekly dom dow = is_some dow

-- The CHECK constraints of `recurring_items`.
abbrev pub recurring_allowed : RecurringRow → Bool
recurring_allowed r =
    amount_allowed r.amount_centavos
    && (between (pos 1) (pos 31) r.day_of_month
        && (between (pos 0) (pos 6) r.day_of_week
            && (cadence_has_day r.cadence r.day_of_month r.day_of_week
                && leb (length r.label) label_max)))

module _ (pg : Engine) where
  -- The unique index on `(user_id, lower(label))`.
  abbrev pub same_label : Uuid → Text → RecurringRow → Bool
  same_label user_id label r = (r.user_id == user_id) && text_eq (pg.lower r.label) (pg.lower label)

  -- `WriteIntent::AddRecurring`.
  unfoldable pub apply_add_recurring : Uuid → RecurringInput → Database → Result Database
  apply_add_recurring user_id input db = do
    let id = pg.random db.drawn
    let label = truncate input.label label_max
    let row : RecurringRow = record {
      id = id;
      user_id = user_id;
      label = label;
      kind = input.kind;
      amount_centavos = input.amount_centavos;
      category = input.category;
      cadence = input.cadence;
      day_of_month = input.day_of_month;
      day_of_week = input.day_of_week;
      last_reminded_date = none;
    }
    let inserted = do
      require (has_user db user_id) DbError.foreign_key_violation
      require (not (any (λ r. r.id == id) db.recurring_items)) DbError.unique_violation
      ok (record db { drawn = suc db.drawn; recurring_items = db.recurring_items ++ row ∷ [] })
    let updated : Result Database = ok (record db {
      recurring_items =
          update_where (same_label user_id label)
            (λ r. record r {
              kind = input.kind;
              amount_centavos = input.amount_centavos;
              category = input.category;
              cadence = input.cadence;
              day_of_month = input.day_of_month;
              day_of_week = input.day_of_week;
            })
            db.recurring_items;
    })
    require (recurring_allowed row) DbError.check_violation
    (if any (same_label user_id label) db.recurring_items then updated else inserted)

  abbrev pub sole_match : List RecurringRow → Option Uuid
  sole_match (r ∷ []) = some r.id
  sole_match [] = none
  sole_match (r ∷ (s ∷ rs)) = none

  -- An exact label, or else the only one that holds the query.
  unfoldable pub recurring_target_id : Uuid → Text → Database → Option Uuid
  recurring_target_id user_id query db =
      let trimmed = trim query in
      if is_empty trimmed
      then none
      else elim (find (same_label user_id trimmed) db.recurring_items) [
        | some row ↦ some row.id
        | none ↦ sole_match (
            keep
              (λ r.
                (r.user_id == user_id)
                && like (pg.lower (substring_pattern trimmed)) (pg.lower r.label))
              db.recurring_items)
      ]

  abbrev pub recurring_matches : Uuid → Uuid → RecurringRow → Bool
  recurring_matches id user_id r = (r.id == id) && (r.user_id == user_id)

  -- `WriteIntent::RemoveRecurring`.
  unfoldable pub apply_remove_recurring : Uuid → Text → Database → Result Database
  apply_remove_recurring user_id query db = elim (recurring_target_id user_id query db) [
    | none ↦ ok db
    | some id ↦ ok (record db {
      recurring_items = keep (λ r. not (recurring_matches id user_id r)) db.recurring_items;
    })
  ]

  abbrev pub recurring_edited :
      Option ℤ
      → Option Category
      → Option Cadence
      → Option (Option ℤ)
      → Option (Option ℤ)
      → RecurringRow
      → RecurringRow
  recurring_edited amount category cadence dom dow r = record r {
    amount_centavos = unwrap_or r.amount_centavos amount;
    category = unwrap_or r.category category;
    cadence = unwrap_or r.cadence cadence;
    day_of_month = unwrap_or r.day_of_month dom;
    day_of_week = unwrap_or r.day_of_week dow;
  }

  -- `WriteIntent::EditRecurring`.
  unfoldable pub apply_edit_recurring :
      Uuid
      → Text
      → Option ℤ
      → Option Category
      → Option Cadence
      → Option (Option ℤ)
      → Option (Option ℤ)
      → Database
      → Result Database
  apply_edit_recurring user_id query amount category cadence dom dow db =
      if not (is_some amount)
        && (not (is_some category)
            && (not (is_some cadence) && (not (is_some dom) && not (is_some dow))))
      then ok db
      else elim (recurring_target_id user_id query db) [
        | none ↦ ok db
        | some id ↦ do
          let edit = recurring_edited amount category cadence dom dow
          require
              (all (λ r. not (recurring_matches id user_id r) || recurring_allowed (edit r))
                db.recurring_items)
              DbError.check_violation
          ok (record db {
            recurring_items = update_where (recurring_matches id user_id) edit db.recurring_items;
          })
      ]
