-- ===== src/Db/Nudges/Weekly.antt =====
-- The marks of crates/db/src/ops.rs within a week from Monday to Sunday.
use andy.Base.{
  ℕ, ◌+◌, ◌<◌, ◌≡◌, refl, ◌∙◌, ap, Bool, true, false, List, [], ◌∷◌, ◌++◌, any, ℤ, pos, ◌+ℤ◌, ◌-ℤ◌,
  eqb_ℤ, eqb_ℤ_iff, Text, text_eq, Bool-cases, ==_refl, inl, inr, arith, int_laws,
}
use andy.Domain.{Uuid, NaiveDate, Instant}
use andy.Shared.Time.{Calendar, local_date, current_week_start, manila_offset_minutes}
use andy.Shared.Time.Laws.{IsCalendar}
use andy.Db.Tables.{Database, ok, has_user, Ensures, Ensures-ok}
use andy.Db.Nudges.{is_nudge, record_nudge, record_summary}

-- A later instant of the same week, Monday to Sunday.
abbrev pub SameWeek : Calendar → Instant → Instant → Type 0
SameWeek calendar at later =
    (k : ℕ) × (local_date later manila_offset_minutes
      ≡ local_date at manila_offset_minutes +ℤ pos k)
    × (calendar.days_from_monday (local_date at manila_offset_minutes) + k < 7)

week_of_later : (d : ℤ) (a k : ℕ) → d +ℤ pos k -ℤ pos (a + k) ≡ d -ℤ pos a
week_of_later d a k = omega int_laws

pub any-insert {ℓ} :
    {A : Type ℓ} (p : A → Bool) (xs : List A) (x : A) → p x ≡ true → any p (xs ++ x ∷ []) ≡ true
any-insert p [] x h = ground (arith, h)
any-insert p (y ∷ xs) x h = ground (arith, any-insert p xs x h)

text_eq_refl : (s : Text) → text_eq s s ≡ true
text_eq_refl [] = refl
text_eq_refl (c ∷ s) = ground (arith, text_eq_refl s)

pub eqb_ℤ_refl : (a : ℤ) → eqb_ℤ a a ≡ true
eqb_ℤ_refl a = (eqb_ℤ_iff a a).1 refl

module _ (calendar : Calendar) (laws : IsCalendar calendar) (at later : Instant) where
  pub current_week_start-SameWeek :
      SameWeek calendar at later
      → current_week_start calendar later manila_offset_minutes
        ≡ current_week_start calendar at manila_offset_minutes
  unfolding current_week_start
  current_week_start-SameWeek (k, e, h) =
      (let d = local_date at manila_offset_minutes in
        ap (λ x. x -ℤ pos (calendar.days_from_monday x)) e
        ∙ ap (λ n. d +ℤ pos k -ℤ pos n) (laws.later_weekday d k h)
        ∙ week_of_later d (calendar.days_from_monday d) k)

  nudge_marked :
      (user : Uuid) (kind : Text) (week : NaiveDate)
      → is_nudge user kind week
          (record { user_id = user; kind = kind; week_start_local_date = week })
        ≡ true
  nudge_marked user kind week = ground (arith, ==_refl user, text_eq_refl kind, eqb_ℤ_refl week)

  record_nudge-Marked :
      (user : Uuid) (kind : Text) (db : Database)
      → Ensures
          (λ r.
            any
              (is_nudge user kind (current_week_start calendar at manila_offset_minutes))
              r.1.nudges
            ≡ true)
          (record_nudge calendar user kind at db)
  unfolding record_nudge
  record_nudge-Marked user kind db =
      (let week = current_week_start calendar at manila_offset_minutes in
        elim (Bool-cases (any (is_nudge user kind week) db.nudges)) [
          | inl e ↦ rw e e
          | inr e ↦ elim (Bool-cases (has_user db user)) [
            | inl h ↦
                rw (e, h)
                  (any-insert (is_nudge user kind week) db.nudges
                    (record { user_id = user; kind = kind; week_start_local_date = week })
                    (nudge_marked user kind week))
            | inr h ↦ rw (e, h) tt
          ]
        ])

  record_summary-Marked :
      (db : Database)
      → any
          (eqb_ℤ (current_week_start calendar at manila_offset_minutes))
          (record_summary calendar at db).1.summary_runs
        ≡ true
  unfolding record_summary
  record_summary-Marked db =
      (let week = current_week_start calendar at manila_offset_minutes in
        elim (Bool-cases (any (eqb_ℤ week) db.summary_runs)) [
          | inl e ↦ rw e e
          | inr e ↦ rw e (any-insert (eqb_ℤ week) db.summary_runs week (eqb_ℤ_refl week))
        ])

  -- Once `record_nudge` has gone through, another call for the same user and kind in the rest of the
  -- week gives false and changes nothing: a nudge is sent at most once a week. The calendar behaves
  -- as documented.
  pub record_nudge-once :
      (user : Uuid) (kind : Text) (first : Bool) (db after : Database)
      → SameWeek calendar at later
      → record_nudge calendar user kind at db ≡ ok (first, after)
      → record_nudge calendar user kind later after ≡ ok (false, after)
  unfolding record_nudge
  record_nudge-once user kind first db after same e =
      (let week = current_week_start calendar at manila_offset_minutes in
        let marked : any (is_nudge user kind week) after.nudges ≡ true =
          Ensures-ok (λ r. any (is_nudge user kind week) r.1.nudges ≡ true) _
            (record_nudge-Marked user kind db) e in
        rw (current_week_start-SameWeek same) (ground (arith, marked)))

  -- Once `record_summary` has been called, another call in the rest of the week gives false and
  -- changes nothing. The calendar behaves as documented.
  pub record_summary-once :
      (db : Database)
      → SameWeek calendar at later
      → record_summary calendar later (record_summary calendar at db).1
        ≡ (false, (record_summary calendar at db).1)
  unfolding record_summary
  record_summary-once db same =
      (let marked = record_summary-Marked db in
        rw (current_week_start-SameWeek same) (ground (arith, marked)))
