-- ===== src/Db/Reminders/Claimed.antt =====
-- The reminders of crates/db/src/ops.rs once those that are due have been claimed.
use mathlib.Core.Path.{subst}
use andy.Base.{
  ◌≡◌, refl, sym, true, false, ◌&&◌, &&-true, some, List, [], ◌∷◌, any, keep, map, update_where,
  All, eqb_ℤ, eqb_ℤ_iff, option_eq, if◌then◌else◌, ◌==◌, ==_refl, Bool-cases, inl, inr, arith,
}
use andy.Domain.{Uuid, Instant}
use andy.Domain.Rows.{RecurringRow}
use andy.Shared.Time.{Calendar, local_date, manila_offset_minutes}
use andy.Db.Tables.{Database}
use andy.Db.Tables as Tables
use andy.Db.Reminders.{recurring_from_row, is_due, claimable, reminded}

module _ (calendar : Calendar) (user : Uuid) (at : Instant) where
  -- A row of the user that is due is one of the items.
  abbrev pub Covered : List RecurringRow → Tables.RecurringRow → Type 0
  Covered items r =
      ((r.user_id == user) && is_due calendar at (recurring_from_row r)) ≡ true
      → any (λ d. r.id == d.id) items ≡ true

  abbrev pub due_rows : List Tables.RecurringRow → List RecurringRow
  due_rows rs =
      keep (is_due calendar at) (map recurring_from_row (keep (λ r. r.user_id == user) rs))

  Covered-cons :
      (d : RecurringRow) (items : List RecurringRow) (rs : List Tables.RecurringRow)
      → All (Covered items) rs
      → All (Covered (d ∷ items)) rs
  Covered-cons d items [] h = tt
  Covered-cons d items (r ∷ rs) h = (λ due. ground (arith, h.0 due), Covered-cons d items rs h.1)

  due_row-Covered :
      (r : Tables.RecurringRow) (rs : List Tables.RecurringRow) → Covered (due_rows (r ∷ rs)) r
  due_row-Covered r rs h =
      (let both = &&-true (r.user_id == user) (is_due calendar at (recurring_from_row r)) h in
        rw (both.0, both.1) (ground (arith, ==_refl r.id)))

  Covered_more :
      (r : Tables.RecurringRow) (rs : List Tables.RecurringRow)
      → All (Covered (due_rows rs)) rs
      → All (Covered (due_rows (r ∷ rs))) rs
  Covered_more r rs h = elim (Bool-cases (r.user_id == user)) [
    | inr e ↦
        (let same : due_rows (r ∷ rs) ≡ due_rows rs = rw e refl in
          subst (λ ds. All (Covered ds) rs) (sym same) h)
    | inl e ↦ elim (Bool-cases (is_due calendar at (recurring_from_row r))) [
      | inr f ↦
          (let same : due_rows (r ∷ rs) ≡ due_rows rs = rw (e, f) refl in
            subst (λ ds. All (Covered ds) rs) (sym same) h)
      | inl f ↦
          (let same : due_rows (r ∷ rs) ≡ recurring_from_row r ∷ due_rows rs = rw (e, f) refl in
            subst (λ ds. All (Covered ds) rs) (sym same)
              (Covered-cons (recurring_from_row r) (due_rows rs) rs h))
    ]
  ]

  pub due_rows-Covered : (rs : List Tables.RecurringRow) → All (Covered (due_rows rs)) rs
  due_rows-Covered [] = tt
  due_rows-Covered (r ∷ rs) = (due_row-Covered r rs, Covered_more r rs (due_rows-Covered rs))

  -- A reminder that was given today is not due.
  reminded-due :
      (item : RecurringRow)
      → option_eq eqb_ℤ item.last_reminded_date (some (local_date at manila_offset_minutes)) ≡ true
      → is_due calendar at item ≡ false
  unfolding is_due
  reminded-due item h = rw h refl

  claimed_row :
      (d : RecurringRow) (items : List RecurringRow) (r : Tables.RecurringRow)
      → Covered (d ∷ items) r
      → Covered items (
          if claimable d.id user (local_date at manila_offset_minutes) r
          then reminded (local_date at manila_offset_minutes) r
          else r)
  claimed_row d items r h =
      (let today = local_date at manila_offset_minutes in
        elim (Bool-cases (claimable d.id user today r)) [
          | inl e ↦ rw e λ due. ground (
            arith,
            due,
            reminded-due (recurring_from_row (reminded today r)) ((eqb_ℤ_iff today today).1 refl),
          )
          | inr e ↦ rw e λ due.
              elim (Bool-cases (option_eq eqb_ℤ r.last_reminded_date (some today))) [
                | inl l ↦ ground (arith, due, reminded-due (recurring_from_row r) l)
                | inr l ↦ ground (arith, due, h due, e, l)
              ]
        ])

  pub claimed-Covered :
      (d : RecurringRow) (items : List RecurringRow) (rs : List Tables.RecurringRow)
      → All (Covered (d ∷ items)) rs
      → All (Covered items) (
          update_where
            (claimable d.id user (local_date at manila_offset_minutes))
            (reminded (local_date at manila_offset_minutes))
            rs)
  claimed-Covered d items [] h = tt
  claimed-Covered d items (r ∷ rs) h = (claimed_row d items r h.0, claimed-Covered d items rs h.1)

  -- Without items left, nothing is due.
  pub Covered-none : (rs : List Tables.RecurringRow) → All (Covered []) rs → due_rows rs ≡ []
  Covered-none [] h = refl
  Covered-none (r ∷ rs) h = elim (Bool-cases (r.user_id == user)) [
    | inr e ↦ rw e (Covered-none rs h.1)
    | inl e ↦ elim (Bool-cases (is_due calendar at (recurring_from_row r))) [
      | inr f ↦ rw (e, f) (Covered-none rs h.1)
      | inl f ↦ ground (arith, e, f, h.0)
    ]
  ]
