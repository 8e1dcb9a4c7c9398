-- ===== src/Ai/Fields.antt =====
-- How crates/ai/src/finance_tools.rs reads the fields of a tool's arguments.
pub mod Laws
use andy.Base.{
  ℕ, Bool, true, false, not, ◌&&◌, ◌||◌, Option, none, some, List, [], ◌∷◌, ◌++◌, any, keep, length,
  map, take, map_some, unwrap_or, ℤ, pos, ◌-ℤ◌, ltb_ℤ, leb_ℤ, ltb, Text, codes, trim, is_empty,
  to_ascii_lowercase, eq_ignore_ascii_case, contains, split_whitespace, join, one_of,
  is_ascii_digit, if◌then◌else◌,
}
use andy.Domain.{NaiveDate, TxKind, Cadence, MemoryKind}
use andy.Domain.Rows.{GoalRow, RecurringRow, FinanceRead}
use andy.Shared.Amounts.{ParsedAmount, parse_amount, money_error_text}
use andy.Shared.Time.{month_bounds, month_bounds_from_str}
use andy.Shared.DateValidation.{DateResult, validate_calendar_date}
use andy.Ai.Json.{Json}
use andy.Ai.Checked.{Checked, refused, fine, ◌>>=◌}
use andy.Ai.Context.{Libraries, FinanceToolContext}

-- `READ_NOTE_CAP`
abbrev pub read_note_cap : ℕ
read_note_cap = 80

abbrev pub is_blank : Text → Bool
is_blank s = is_empty (trim s)

-- `Option::filter`
abbrev pub only_if : (Text → Bool) → Option Text → Option Text
only_if p none = none
only_if p (some s) = if p s then some s else none

module _ (lib : Libraries) where
  unfoldable pub amount : Text → Checked ℤ
  amount raw = elim (parse_amount lib.amount_text raw) [
    | ParsedAmount.amount c ↦ fine c
    | ParsedAmount.bad e ↦ refused (money_error_text e)
  ]

  unfoldable pub calendar : Text → Checked NaiveDate
  calendar raw = elim (validate_calendar_date lib.calendar raw) [
    | DateResult.ok date ↦ fine date
    | DateResult.err reason ↦ refused reason
  ]

  -- The range of a date that was given.
  abbrev pub within_log_range : NaiveDate → NaiveDate → Checked NaiveDate
  within_log_range today date =
      if ltb_ℤ today date
      then refused (codes "can't log a future date")
      else if ltb_ℤ (lib.calendar.year date) (lib.calendar.year today -ℤ pos 5)
      then refused (codes "that's too far back")
      else fine date

  unfoldable pub log_date : Option Text → NaiveDate → Checked NaiveDate
  unfolding calendar
  log_date none today = fine today
  log_date (some value) today =
      if is_blank value then fine today else calendar value >>= within_log_range today

  unfoldable pub optional_calendar : Option Text → Checked (Option NaiveDate)
  unfolding calendar
  optional_calendar none = fine none
  optional_calendar (some value) =
      if is_blank value then fine none else calendar value >>= λ date. fine (some date)

  unfoldable pub resolve_month : Option Text → NaiveDate → Checked (NaiveDate × NaiveDate)
  resolve_month none today = fine (month_bounds lib.calendar today)
  resolve_month (some raw) today =
      if is_blank raw
      then fine (month_bounds lib.calendar today)
      else elim (month_bounds_from_str lib.calendar (trim raw)) [
        | some bounds ↦ fine bounds
        | none ↦ refused (codes "month must look like YYYY-MM; got \"" ++ raw ++ codes "\"")
      ]

unfoldable pub reader : FinanceToolContext → Checked FinanceRead
reader ctx = elim ctx.reader [
  | some r ↦ fine r
  | none ↦ refused (codes "saved records aren't available right now")
]

-- `.map_err(|err| err.to_string())`
abbrev pub backend {ℓ} : {A : Type ℓ} → Option A → Checked A
backend none = refused (codes "could not read saved records right now")
backend (some a) = fine a

abbrev pub lowered : Text → Text
lowered s = to_ascii_lowercase (trim s)

unfoldable pub memory_kind : Option Text → MemoryKind
memory_kind raw =
    let key = lowered (unwrap_or (codes "fact") raw) in
    if one_of key (codes "preference" ∷ [])
    then MemoryKind.preference
    else if one_of key (codes "payday" ∷ [])
    then MemoryKind.payday
    else if one_of key (codes "goal" ∷ [])
    then MemoryKind.goal
    else if one_of key (codes "person" ∷ [])
    then MemoryKind.person
    else if one_of key (codes "other" ∷ [])
    then MemoryKind.other
    else MemoryKind.fact

abbrev pub durable_cues : List Text
durable_cues =
    codes "payday"
    ∷ codes "salary"
    ∷ codes "sweldo"
    ∷ codes "prefer"
    ∷ codes "preference"
    ∷ codes "usually"
    ∷ codes "usual"
    ∷ codes "default"
    ∷ codes "favorite"
    ∷ codes "favourite"
    ∷ codes "address"
    ∷ codes "home"
    ∷ codes "office"
    ∷ codes "work"
    ∷ codes "birthday"
    ∷ codes "anniversary"
    ∷ codes "remind me"
    ∷ codes "remember that"
    ∷ codes "my name"
    ∷ codes "i like"
    ∷ codes "i love"
    ∷ codes "i hate"
    ∷ []

abbrev pub one_off_cues : List Text
one_off_cues =
    codes "spent"
    ∷ codes "bought"
    ∷ codes "paid"
    ∷ codes "ordered"
    ∷ codes "logged"
    ∷ codes "log "
    ∷ codes "grab"
    ∷ codes "taxi"
    ∷ codes "lunch"
    ∷ codes "dinner"
    ∷ codes "coffee"
    ∷ []

abbrev pub is_personal : MemoryKind → Bool
is_personal MemoryKind.payday = true
is_personal MemoryKind.preference = true
is_personal MemoryKind.person = true
is_personal MemoryKind.goal = true
is_personal MemoryKind.fact = false
is_personal MemoryKind.other = false

abbrev pub pleasantries : List Text
pleasantries =
    codes "ok"
    ∷ codes "okay"
    ∷ codes "thanks"
    ∷ codes "thank you"
    ∷ codes "yes"
    ∷ codes "no"
    ∷ codes "done"
    ∷ []

unfoldable pub should_save_memory : Text → MemoryKind → Bool
should_save_memory content kind =
    let normalized = join (codes " ") (split_whitespace (to_ascii_lowercase content)) in
    if ltb (length normalized) 6
    then false
    else if one_of normalized pleasantries
    then false
    else if any (λ cue. contains cue normalized) durable_cues
    then true
    else if any is_ascii_digit normalized && any (λ cue. contains cue normalized) one_off_cues
    then false
    else is_personal kind

unfoldable pub tx_kind : Option Text → TxKind
tx_kind raw =
    if one_of (lowered (unwrap_or (codes "expense") raw)) (codes "income" ∷ [])
    then TxKind.income
    else TxKind.expense

unfoldable pub cadence : Text → Checked Cadence
cadence raw =
    if one_of (lowered raw) (codes "weekly" ∷ [])
    then fine Cadence.weekly
    else if one_of (lowered raw) (codes "monthly" ∷ [])
    then fine Cadence.monthly
    else refused (codes "cadence must be weekly or monthly")

-- `Some(lo..=hi)`
abbrev pub some_between : ℤ → ℤ → Option ℤ → Bool
some_between lo hi none = false
some_between lo hi (some d) = leb_ℤ lo d && leb_ℤ d hi

unfoldable pub validate_recurring_days : Cadence → Option ℤ → Option ℤ → Checked (Unit {0})
validate_recurring_days Cadence.monthly day_of_month day_of_week =
    if some_between (pos 1) (pos 31) day_of_month
    then fine tt
    else refused (codes "a monthly reminder needs a day of month (1-31)")
validate_recurring_days Cadence.weekly day_of_month day_of_week =
    if some_between (pos 0) (pos 6) day_of_week
    then fine tt
    else refused (codes "a weekly reminder needs a day of week (0=Sun..6=Sat)")

-- `find_one_goal` and `find_one_recurring` differ in the words of their refusals.
module _ {ℓ} {A : Type ℓ} (name_of : A → Text) (required missing exact : Text) where
  abbrev pub quoted : Text → Text
  quoted s = codes "\"" ++ s ++ codes "\""

  abbrev pub of_matches : Text → List A → Checked A
  of_matches query [] = refused (missing ++ quoted query ++ codes ".")
  of_matches query (a ∷ []) = fine a
  of_matches query (a ∷ (b ∷ r)) = refused (
      codes "which one? "
      ++ join (codes ", ") (map (λ c. quoted (name_of c)) (a ∷ (b ∷ r)))
      ++ exact)

  abbrev pub of_exact : Checked A → List A → Checked A
  of_exact other (a ∷ []) = fine a
  of_exact other [] = other
  of_exact other (a ∷ (b ∷ r)) = other

  unfoldable pub find_one : List A → Text → Checked A
  find_one rows query =
      let q = lowered query in
      if is_empty q
      then refused required
      else of_exact
          (of_matches query (keep (λ a. contains q (to_ascii_lowercase (name_of a))) rows))
          (keep (λ a. eq_ignore_ascii_case (name_of a) q) rows)

unfoldable pub find_one_goal : List GoalRow → Text → Checked GoalRow
unfolding find_one
find_one_goal =
    find_one (λ goal. goal.name) (codes "goal name is required") (codes "no goal matching ")
      (codes " — say the exact name.")

unfoldable pub find_one_recurring : List RecurringRow → Text → Checked RecurringRow
unfolding find_one
find_one_recurring =
    find_one (λ item. item.label) (codes "recurring label is required")
      (codes "no recurring reminder matching ") (codes " — say the exact label.")

unfoldable pub clean_account : Option Text → Option Text
clean_account account = only_if (λ a. not (is_empty a)) (map_some trim account)

unfoldable pub sanitize_note : Option Text → Option Text
sanitize_note note =
    map_some (take read_note_cap)
      (only_if (λ n. not (is_empty n)) (map_some (λ n. join (codes " ") (split_whitespace n)) note))

unfoldable pub parse_kind : Option Text → Option Text
parse_kind none = none
parse_kind (some raw) =
    if one_of (lowered raw) (codes "income" ∷ [])
    then some (codes "income")
    else if one_of (lowered raw) (codes "expense" ∷ [])
    then some (codes "expense")
    else none

unfoldable pub as_bool : Option Json → Bool
as_bool none = false
as_bool (some (Json.bool b)) = b
as_bool (some (Json.str s)) = eq_ignore_ascii_case s (codes "true")
as_bool (some Json.null) = false
as_bool (some (Json.num n)) = false
as_bool (some (Json.arr js)) = false
as_bool (some (Json.obj ms)) = false
