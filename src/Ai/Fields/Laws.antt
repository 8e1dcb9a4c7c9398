-- ===== src/Ai/Fields/Laws.antt =====
-- What the fields that crates/ai/src/finance_tools.rs accepts satisfy.
use andy.Base.{
  ◌≡◌, refl, Bool, true, false, Option, none, some, List, [], ◌∷◌, ◌⊎◌, any, keep, ℤ, pos, ◌≤ℤ◌,
  ◌-ℤ◌, -ℤ_parts, Text, is_empty, to_ascii_lowercase, contains, eq_ignore_ascii_case, Bool-cases,
  inl, inr, arith,
}
use andy.Domain.{NaiveDate, Instant, Cadence}
use andy.Shared.Amounts.Bounds.{IsEntry, parse_amount-IsEntry}
use andy.Shared.Time.{local_date, manila_offset_minutes}
use andy.Shared.DateValidation.{DateResult, validate_calendar_date, validate_log_date}
use andy.Ai.Checked.{Checked, refused, fine, Fine, Fine-eq}
use andy.Ai.Context.{Libraries}
use andy.Ai.Fields.{
  amount, calendar, within_log_range, log_date, is_blank, validate_recurring_days, some_between,
  find_one, of_matches, of_exact, lowered,
}

module _ (lib : Libraries) where
  amount-IsEntry_eq : (raw : Text) (c : ℤ) → amount lib raw ≡ fine c → IsEntry c
  unfolding amount
  amount-IsEntry_eq raw c h = ground (arith, h, parse_amount-IsEntry lib.amount_text raw c)

  pub amount-IsEntry : (raw : Text) → Fine IsEntry (amount lib raw)
  amount-IsEntry raw = Fine-eq IsEntry (amount lib raw) (amount-IsEntry_eq raw)

  -- A date that may be logged: not in the future, and not too far back.
  pub record IsLogDate (today d : NaiveDate) : Type 0 where
    pub past : d ≤ℤ today
    pub recent : lib.calendar.year today -ℤ pos 5 ≤ℤ lib.calendar.year d

  within_log_range-IsLogDate :
      (today d x : NaiveDate) → within_log_range lib today d ≡ fine x → IsLogDate today x
  within_log_range-IsLogDate today d x h = ground (arith, h)

  log_date-IsLogDate_eq :
      (raw : Option Text) (today d : NaiveDate)
      → log_date lib raw today ≡ fine d
      → IsLogDate today d
  unfolding log_date calendar
  log_date-IsLogDate_eq none today d h =
      ground (arith, h, -ℤ_parts (lib.calendar.year today) (pos 5))
  log_date-IsLogDate_eq (some raw) today d h =
      ground (arith, h, -ℤ_parts (lib.calendar.year today) (pos 5))

  pub log_date-IsLogDate :
      (raw : Option Text) (today : NaiveDate) → Fine (IsLogDate today) (log_date lib raw today)
  log_date-IsLogDate raw today =
      Fine-eq (IsLogDate today) (log_date lib raw today) (log_date-IsLogDate_eq raw today)

-- The two validations as one type.
abbrev pub result_of : DateResult → Checked NaiveDate
result_of (DateResult.ok date) = fine date
result_of (DateResult.err reason) = refused reason

-- The agent's check of a date that is given is the one of date_validation.rs, at an instant of the
-- same day.
pub log_date-validate_log_date :
    (lib : Libraries) (raw : Text) (now : Instant)
    → is_blank raw ≡ false
    → log_date lib (some raw) (local_date now manila_offset_minutes)
      ≡ result_of (validate_log_date lib.calendar raw now)
unfolding log_date calendar validate_calendar_date validate_log_date
log_date-validate_log_date lib raw now h = ground (arith, h)

-- The day that a cadence calls for is there and in range.
abbrev pub has_its_day : Cadence → Option ℤ → Option ℤ → Bool
has_its_day Cadence.monthly dom dow = some_between (pos 1) (pos 31) dom
has_its_day Cadence.weekly dom dow = some_between (pos 0) (pos 6) dow

abbrev pub HasDay : Cadence → Option ℤ → Option ℤ → Type 0
HasDay c dom dow = has_its_day c dom dow ≡ true

days_eq :
    (c : Cadence) (dom dow : Option ℤ) (u : Unit {0})
    → validate_recurring_days c dom dow ≡ fine u
    → HasDay c dom dow
unfolding validate_recurring_days
days_eq Cadence.monthly dom dow u h = ground (arith, h)
days_eq Cadence.weekly dom dow u h = ground (arith, h)

pub validate_recurring_days-HasDay :
    (c : Cadence) (dom dow : Option ℤ)
    → Fine (λ u. HasDay c dom dow) (validate_recurring_days c dom dow)
validate_recurring_days-HasDay c dom dow =
    Fine-eq (λ u. HasDay c dom dow) (validate_recurring_days c dom dow) (days_eq c dom dow)

any-keep {ℓ} :
    {A : Type ℓ} (p q : A → Bool) (xs : List A) → any p (keep q xs) ≡ true → any p xs ≡ true
any-keep p q [] h = h
any-keep p q (x ∷ xs) h = ground (arith, h, any-keep p q xs)

-- What `find_one` finds is one of the rows.
module _ {ℓ} {A : Type ℓ} (name_of : A → Text) (required missing exact : Text) where
  of_matches-sole :
      (query : Text) (xs : List A) (a : A)
      → of_matches name_of required missing exact query xs ≡ fine a
      → xs ≡ a ∷ []
  of_matches-sole query [] a h = cc
  of_matches-sole query (b ∷ []) a h = cc
  of_matches-sole query (b ∷ (c ∷ r)) a h = cc

  of_exact-either :
      (other : Checked A) (xs : List A) (a : A)
      → of_exact name_of required missing exact other xs ≡ fine a
      → (xs ≡ a ∷ []) ⊎ (other ≡ fine a)
  of_exact-either other [] a h = inr h
  of_exact-either other (b ∷ []) a h = inl (cc)
  of_exact-either other (b ∷ (c ∷ r)) a h = inr h

  any-sole :
      (p q : A → Bool) (rows : List A) (a : A)
      → keep q rows ≡ a ∷ []
      → p a ≡ true
      → any p rows ≡ true
  any-sole p q rows a e t = any-keep p q rows (rw (e, t) refl)

  pub find_one-any :
      (rows : List A) (query : Text) (p : A → Bool) (a : A)
      → find_one name_of required missing exact rows query ≡ fine a
      → p a ≡ true
      → any p rows ≡ true
  unfolding find_one
  find_one-any rows query p a h t =
      (let q = lowered query in
        let same = λ (b : A). eq_ignore_ascii_case (name_of b) q in
        let holds = λ (b : A). contains q (to_ascii_lowercase (name_of b)) in
        elim (Bool-cases (is_empty q)) [
          | inl e ↦ absurd (cc (rw e at h))
          | inr e ↦ elim (of_exact-either _ (keep same rows) a (rw e at h)) [
            | inl sole ↦ any-sole p same rows a sole t
            | inr other ↦
                any-sole p holds rows a (of_matches-sole query (keep holds rows) a other) t
          ]
        ])
