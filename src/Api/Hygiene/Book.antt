-- ===== src/Api/Hygiene/Book.antt =====
-- What the daily clean-up of crates/api/src/cron.rs leaves of a user's ledger: each step removes old
-- marks, expired confirmations or old messages, and the repair of the balances finds nothing to do.
use andy.Base.{
  ◌≡◌, refl, Bool, true, false, not, List, [], ◌∷◌, All, map, keep, ℕ, pos, Text, inl, inr,
  Bool-cases, leb_ℤ, ℤ, ◌-ℤ◌, ◌-◌, abs_ℕ, length,
}
use andy.Domain.{Uuid, Instant}
use andy.Shared.Time.{Calendar}
use andy.Db.Tables.{Database, ConfirmationRow, Ensures, Ensures-require, ok, DbError}
use andy.Db.Flush.Book.{AllFor, IsBook-same}
use andy.Db.Flush.Quiet.{payloads}
use andy.Db.Confirmations.{reap_pending_confirmations, is_reapable}
use andy.Db.RateLimit.{reap_inbound_rate_limits}
use andy.Db.Reconcile.{reconcile_goal_balances}
use andy.Db.Reconcile.Balanced.{reconcile_goal_balances-IsBook}
use andy.Db.Nudges.{reap_nudges, reap_summary_runs}
use andy.Db.Reapers.{reap_processed_messages, reap_messages, without_older}
use andy.Api.Program.{Program, pure, ◌>>=◌, query}
use andy.Api.Program.Holds.{
  Holds, Holds-bind, Holds-query, Holds-try_query, Holds-pure, Holds-or_else,
}
use andy.Api.Hygiene.{run_daily_hygiene, count_or_zero, hygiene_result}
use andy.Api.Service.House.{IsHouse, IsHouse-same}

module _ (number : Text) (user : Uuid) where
  abbrev House : Database → Type 0
  House db = IsHouse number user db

  kept_payloads :
      (gone : ConfirmationRow → Bool) (cs : List ConfirmationRow)
      → All (AllFor user) (map (λ (c : ConfirmationRow). c.payload) cs)
      → All (AllFor user) (map (λ (c : ConfirmationRow). c.payload) (keep (λ c. not (gone c)) cs))
  kept_payloads gone [] h = tt
  kept_payloads gone (c ∷ cs) h = elim (Bool-cases (gone c)) [
    | inl e ↦ rw e (kept_payloads gone cs h.1)
    | inr e ↦ rw e (h.0, kept_payloads gone cs h.1)
  ]

  reap_pending_confirmations-IsHouse :
      (now : Instant) (db : Database)
      → IsHouse number user db
      → IsHouse number user (reap_pending_confirmations now db).1
  unfolding reap_pending_confirmations
  reap_pending_confirmations-IsHouse now db h = record {
    book = IsBook-same user db _ refl refl h.book;
    parked = kept_payloads (is_reapable now) db.pending_confirmations h.parked;
    owner = h.owner;
  }

  reconcile_goal_balances-IsHouse :
      (db : Database)
      → IsHouse number user db
      → Ensures (λ r. IsHouse number user r.1) (reconcile_goal_balances user db)
  reconcile_goal_balances-IsHouse db h = rw (reconcile_goal_balances-IsBook user db h.book) h

  reap_messages-IsHouse :
      (kept : ℤ) (db : Database)
      → IsHouse number user db
      → Ensures (λ r. IsHouse number user r.1) (reap_messages user kept db)
  unfolding reap_messages
  reap_messages-IsHouse kept db h =
      (let rest = without_older (abs_ℕ (kept -ℤ pos 1)) user db.messages in
        Ensures-require (λ (r : ℕ × Database). IsHouse number user r.1)
          (leb_ℤ (pos 0) (kept -ℤ pos 1)) DbError.out_of_range
          (ok (length db.messages - length rest, record db { messages = rest }))
          λ _. IsHouse-same number user db _ refl refl refl refl h)

  -- The tables of the ledger and of the users are as they were, and so is what waits.
  abbrev pub IsAside : Database → Database → Type 0
  IsAside db db' =
      (db'.transactions ≡ db.transactions)
      × (db'.savings_goals ≡ db.savings_goals)
      × (payloads db' ≡ payloads db)
      × (db'.users ≡ db.users)

  aside-IsHouse :
      (db db' : Database) → IsAside db db' → IsHouse number user db → IsHouse number user db'
  aside-IsHouse db db' (ts, gs, ps, us) = IsHouse-same number user db db' ts gs ps us

  pub aside-Holds {ℓ} :
      {A : Type ℓ} (f : Database → A × Database)
      → ((db : Database) → IsAside db (f db).1)
      → Holds House (query f)
  aside-Holds f h = Holds-query House f λ db. aside-IsHouse db (f db).1 (h db)

  counted-Holds : (m : Program ℕ) → Holds House m → Holds House (count_or_zero m)
  unfolding count_or_zero
  counted-Holds m h =
      Holds-or_else House (0, false) (m >>= λ count. pure (count, true))
        (Holds-bind House m _ h λ count. Holds-pure House (count, true))

  module _ (calendar : Calendar) (now : Instant) where
    pub run_daily_hygiene-Holds : Holds House (run_daily_hygiene calendar user now)
    unfolding run_daily_hygiene reap_processed_messages reap_nudges reap_summary_runs
        reap_inbound_rate_limits
    run_daily_hygiene-Holds =
        Holds-bind House _ _
          (counted-Holds _ (
            aside-Holds (reap_processed_messages now (pos 3) (pos 24))
              λ db. (refl, refl, refl, refl)))
          λ a.
            Holds-bind House _ _
              (counted-Holds _ (Holds-try_query House _ (reap_messages-IsHouse (pos 200))))
              λ b.
                Holds-bind House _ _
                  (counted-Holds _ (Holds-try_query House _ reconcile_goal_balances-IsHouse))
                  λ c.
                    Holds-bind House _ _
                      (counted-Holds _ (
                        aside-Holds (reap_nudges calendar now (pos 8))
                          λ db. (refl, refl, refl, refl)))
                      λ d.
                        Holds-bind House _ _
                          (counted-Holds _ (
                            aside-Holds (reap_summary_runs calendar now (pos 12))
                              λ db. (refl, refl, refl, refl)))
                          λ e.
                            Holds-bind House _ _
                              (counted-Holds _ (
                                Holds-query House (reap_pending_confirmations now)
                                  (reap_pending_confirmations-IsHouse now)))
                              λ f.
                                Holds-bind House _ _
                                  (counted-Holds _ (
                                    aside-Holds (reap_inbound_rate_limits now (pos 86400000000))
                                      λ db. (refl, refl, refl, refl)))
                                  λ g. Holds-pure House (hygiene_result a b c d e f g)
