-- ===== src/Api/Cron/Recap.antt =====
-- The weekly recap of crates/api/src/cron.rs, when the checks run again in the same week.
use mathlib.Core.Path.{subst}
use andy.Base.{
  ◌≡◌, refl, sym, [], ◌∷◌, ◌++◌, arith, true, false, any, eqb_ℤ, Text, Bool-cases, inl, inr,
}
use andy.Domain.{Uuid, Instant}
use andy.Shared.Time.{current_week_start, manila_offset_minutes}
use andy.Shared.Time.Laws.{IsCalendar}
use andy.Db.Nudges.{has_summary_for_week, record_summary}
use andy.Db.Nudges.Weekly.{SameWeek, current_week_start-SameWeek, any-insert, eqb_ℤ_refl}
use andy.Api.Program.{World, Outcome, final}
use andy.Api.Outbound.{send_message}
use andy.Api.Checks.{Cron}
use andy.Api.Cron.{send_recap, run_weekly_summary}

module _ (cron : Cron) (user : Uuid) (phone : Text) (now : Instant) where
  send_recap_db : (w : World) → (final (send_recap cron user phone now w)).db ≡ w.db
  unfolding send_recap send_message
  send_recap_db w = ground arith

  -- The week of a run is marked at its end.
  run_weekly_summary-Marked :
      (w : World)
      → any
          (eqb_ℤ (current_week_start cron.calendar now manila_offset_minutes))
          (final (run_weekly_summary cron user phone now w)).db.summary_runs
        ≡ true
  unfolding run_weekly_summary has_summary_for_week record_summary
  run_weekly_summary-Marked w =
      (let week = current_week_start cron.calendar now manila_offset_minutes in
        let marked : World = record w {
          db = record w.db { summary_runs = w.db.summary_runs ++ week ∷ [] };
        } in
        elim (Bool-cases (any (eqb_ℤ week) w.db.summary_runs)) [
          | inl e ↦ rw e e
          | inr e ↦
              rw (e, e)
                (subst (λ db. any (eqb_ℤ week) db.summary_runs ≡ true) (sym (send_recap_db marked))
                  (any-insert (eqb_ℤ week) w.db.summary_runs week (eqb_ℤ_refl week)))
        ])

  -- A week that is marked is left alone.
  marked_week :
      (v : World)
      → has_summary_for_week cron.calendar now v.db ≡ true
      → run_weekly_summary cron user phone now v ≡ Outcome.done false v
  unfolding run_weekly_summary
  marked_week v h = rw h refl

module _ (cron : Cron) (user : Uuid) (phone : Text) (now later : Instant) where
  -- Running the weekly recap again in the rest of the week, Monday to Sunday, sends nothing and
  -- changes nothing, also if the provider did not take the first one. The calendar behaves as
  -- documented.
  pub run_weekly_summary-once :
      (laws : IsCalendar cron.calendar) (w : World)
      → SameWeek cron.calendar now later
      → run_weekly_summary cron user phone later (final (run_weekly_summary cron user phone now w))
        ≡ Outcome.done false (final (run_weekly_summary cron user phone now w))
  unfolding has_summary_for_week
  run_weekly_summary-once laws w same =
      (let v = final (run_weekly_summary cron user phone now w) in
        marked_week cron user phone later v (
          subst (λ week. any (eqb_ℤ week) v.db.summary_runs ≡ true)
            (sym (current_week_start-SameWeek cron.calendar laws now later same))
            (run_weekly_summary-Marked cron user phone now w)))
