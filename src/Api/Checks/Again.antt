-- ===== src/Api/Checks/Again.antt =====
-- The reminders of crates/api/src/cron.rs, when the checks run again on the same day.
use andy.Base.{
  ℕ, ◌+◌, ◌≡◌, refl, ◌∙◌, ap, Option, none, some, pos, ◌+ℤ◌, ◌-ℤ◌, rem_euclid, unwrap_or, ℤ, Bool,
  List, [], ◌∷◌, All, keep, Text, Bool-cases, inl, inr,
}
use andy.Domain.{Uuid, Instant, Cadence}
use andy.Domain.Rows.{RecurringRow}
use andy.Shared.Time.{
  local_date, month_bounds, month_range, current_week_start, days_in_local_month,
  manila_offset_minutes,
}
use andy.Db.Reminders.{
  is_due, due_day, list_recurring, min_ℤ, rem_i64, due_recurring_today, claim_reminder,
}
use andy.Db.Reminders.Due.{today_of, due_on}
use andy.Db.Reminders.Claimed.{Covered, due_rows-Covered, claimed-Covered, Covered-none}
use andy.Api.Program.{World, Outcome, final}
use andy.Api.Outbound.{send_message}
use andy.Api.Checks.{Cron, reminder_message, send_isolated, remind_all, run_recurring_reminders}

-- Adding to the count that a program gives leaves where it ends.
final-counted :
    (P : World → Type 0) (n : ℕ) (o : Outcome ℕ)
    → P (final o)
    → P (
        final (elim o [
          | Outcome.done a v ↦ Outcome.done (n + a) v
          | Outcome.failed e v ↦ Outcome.failed e v
        ]))
final-counted P n (Outcome.done a v) h = h
final-counted P n (Outcome.failed e v) h = h

keep-cong {ℓ} :
    {A : Type ℓ} (p q : A → Bool) (xs : List A) → ((x : A) → p x ≡ q x) → keep p xs ≡ keep q xs
keep-cong p q [] h = refl
keep-cong p q (x ∷ xs) h = rw (h x, keep-cong p q xs h) refl

module _ (cron : Cron) (user : Uuid) (phone : Text) (now : Instant) where
  abbrev pub IsCovered : List RecurringRow → World → Type 0
  IsCovered items w = All (Covered cron.calendar user now items) w.db.recurring_items

  remind_all-IsCovered :
      (items : List RecurringRow) (w : World)
      → IsCovered items w
      → IsCovered [] (final (remind_all cron user phone now items w))
  unfolding send_isolated send_message claim_reminder
  remind_all-IsCovered [] w h = h
  remind_all-IsCovered (item ∷ items) w h =
      (let step = claimed-Covered cron.calendar user now item items w.db.recurring_items h in
        let claimed : World = record w { db = (claim_reminder item.id user now w.db).1 } in
        let sent : World = record claimed {
          sent = (phone, reminder_message cron user phone now item) ∷ w.sent;
        } in
        let rest = remind_all cron user phone now items in
        elim (Bool-cases (claim_reminder item.id user now w.db).0) [
          | inl e ↦
              rw e
                (final-counted (IsCovered []) 1 (rest sent) (remind_all-IsCovered items sent step))
          | inr e ↦ rw e (
              final-counted (IsCovered []) 0 (rest claimed)
                (remind_all-IsCovered items claimed step))
        ])

  module _ (later : Instant)
      (same : local_date later manila_offset_minutes ≡ local_date now manila_offset_minutes) where
    -- What is due depends on the day alone.
    due_day-same :
        (cadence : Cadence) (dom dow : Option ℤ)
        → due_day cron.calendar later cadence dom dow ≡ due_day cron.calendar now cadence dom dow
    unfolding due_day days_in_local_month month_range current_week_start
    due_day-same Cadence.monthly none dow = refl
    due_day-same Cadence.monthly (some d) dow =
        ap
          (λ day. some (
            unwrap_or day (
              cron.calendar.from_ymd_opt (cron.calendar.year day) (cron.calendar.month day) (
                rem_euclid (min_ℤ d (pos (cron.calendar.day (month_bounds cron.calendar day).1)))
                  4294967296))))
          same
    due_day-same Cadence.weekly dom none = refl
    due_day-same Cadence.weekly dom (some d) =
        ap (λ day. some (day -ℤ pos (cron.calendar.days_from_monday day) +ℤ rem_i64 (d +ℤ pos 6) 7))
          same

    is_due-later :
        (item : RecurringRow) → is_due cron.calendar later item ≡ is_due cron.calendar now item
    unfolding is_due
    is_due-later item =
        ap
          (due_on cron.calendar
            (due_day cron.calendar later item.cadence item.day_of_month item.day_of_week)
            item.last_reminded_date)
          same
        ∙ ap (λ due. due_on cron.calendar due item.last_reminded_date (today_of now))
            (due_day-same item.cadence item.day_of_month item.day_of_week)

    -- Running the reminders again on the same day sends nothing and changes nothing, whatever the
    -- provider answered the first time.
    pub run_recurring_reminders-once :
        (w : World)
        → run_recurring_reminders cron user phone later
            (final (run_recurring_reminders cron user phone now w))
          ≡ Outcome.done 0 (final (run_recurring_reminders cron user phone now w))
    unfolding run_recurring_reminders due_recurring_today list_recurring
    run_recurring_reminders-once w =
        (let v = final (run_recurring_reminders cron user phone now w) in
          let none_due : due_recurring_today cron.calendar user later v.db ≡ [] =
            (keep-cong _ _ (list_recurring user v.db) is_due-later
              ∙ Covered-none cron.calendar user now v.db.recurring_items (
                  remind_all-IsCovered (due_recurring_today cron.calendar user now w.db) w
                    (due_rows-Covered cron.calendar user now w.db.recurring_items))) in
          ap (λ items. remind_all cron user phone later items v) none_due)
