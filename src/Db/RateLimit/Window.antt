-- ===== src/Db/RateLimit/Window.antt =====
-- How many requests of one window crates/db/src/ratelimit.rs lets through.
use Prim.Native.Nat.{min, ◌-◌}
use andy.Base.{
  ℕ, suc, ◌≡◌, true, none, some, List, [], ◌∷◌, ◌++◌, All, find, length, update_where, ltb, ℤ, pos,
  max_ℤ, ltb_ℤ, abs_ℕ, Text, text_eq_refl, if◌then◌else◌, Option-cases, inl, inr, arith, ◌∙◌,
}
use andy.Domain.{Instant}
use andy.Db.Tables.{Database, RateRow, Result, ok, ◌>>=◌, Ensures, Ensures-bind}
use andy.Db.RateLimit.{RateDecision, window_start, in_bucket, count_request, check_and_increment}

-- What the table holds for a window.
abbrev pub counted : Text → Instant → List RateRow → ℕ
counted key bucket rows = elim (find (in_bucket key bucket) rows) [ none ↦ 0 | some r ↦ r.count ]

in_bucket_refl :
    (key : Text) (bucket : Instant) (n : ℕ)
    → in_bucket key bucket (record { key_hash = key; bucket_start = bucket; count = n }) ≡ true
in_bucket_refl key bucket n = ground (arith, text_eq_refl key)

counted-insert :
    (key : Text) (bucket : Instant) (rows : List RateRow)
    → find (in_bucket key bucket) rows ≡ none
    → counted key bucket (rows ++ record { key_hash = key; bucket_start = bucket; count = 1 } ∷ [])
      ≡ 1
counted-insert key bucket [] e = ground (arith, in_bucket_refl key bucket 1)
counted-insert key bucket (r ∷ rows) e = ground (arith, counted-insert key bucket rows)

counted-bump :
    (key : Text) (bucket : Instant) (rows : List RateRow) (row : RateRow)
    → find (in_bucket key bucket) rows ≡ some row
    → counted key bucket
        (update_where (in_bucket key bucket) (λ r. record r { count = suc r.count }) rows)
      ≡ suc row.count
counted-bump key bucket [] row e = cc
counted-bump key bucket (r ∷ rows) row e = ground (arith, counted-bump key bucket rows row)

-- A request that is counted adds one, and is answered by the new count.
Counts : Text → Instant → List RateRow → ℕ × List RateRow → Type 0
Counts key bucket rows r = (r.0 ≡ suc (counted key bucket rows)) × (counted key bucket r.1 ≡ r.0)

count_request-Counts :
    (key : Text) (bucket : Instant) (rows : List RateRow)
    → Ensures (Counts key bucket rows) (count_request key bucket rows)
unfolding count_request Counts
count_request-Counts key bucket rows = elim (Option-cases (find (in_bucket key bucket) rows)) [
  | inl e ↦ ground (arith, e, counted-insert key bucket rows e)
  | inr (row, e) ↦ ground (arith, e, counted-bump key bucket rows row e)
]

-- Requests with one key, one after the other: how many are allowed.
unfoldable pub allowed_of : Text → List Instant → ℤ → ℤ → Database → Result ℕ
allowed_of key [] window limit db = ok 0
allowed_of key (t ∷ ts) window limit db = do
  (decision, db') ← check_and_increment key t window limit db
  rest ← allowed_of key ts window limit db'
  ok (elim decision [ RateDecision.allow ↦ suc rest | RateDecision.limited ↦ rest ])

abbrev pub InWindow : ℤ → Instant → List Instant → Type 0
InWindow window bucket ts = All (λ t. window_start t (abs_ℕ (max_ℤ window (pos 1))) ≡ bucket) ts

-- `limit.max(1)`
abbrev pub effective_limit : ℤ → ℕ
effective_limit limit = abs_ℕ (max_ℤ limit (pos 1))

ltb_limit :
    (limit : ℤ) (n : ℕ) → ltb_ℤ (max_ℤ limit (pos 1)) (pos n) ≡ ltb (effective_limit limit) n
ltb_limit limit n = ground arith

-- One request of the window.
Answered : Text → Instant → ℤ → Database → RateDecision × Database → Type 0
Answered key bucket limit db r =
    (counted key bucket r.1.inbound_rate_limits ≡ suc (counted key bucket db.inbound_rate_limits))
    × (r.0 ≡ (
        if ltb (effective_limit limit) (suc (counted key bucket db.inbound_rate_limits))
        then RateDecision.limited
        else RateDecision.allow))

check_and_increment-Answered :
    (key : Text) (t : Instant) (window limit : ℤ) (db : Database)
    → Ensures
        (Answered key (window_start t (abs_ℕ (max_ℤ window (pos 1)))) limit db)
        (check_and_increment key t window limit db)
unfolding check_and_increment Answered Counts
check_and_increment-Answered key t window limit db =
    let bucket = window_start t (abs_ℕ (max_ℤ window (pos 1))) in
    Ensures-bind (Counts key bucket db.inbound_rate_limits) (Answered key bucket limit db) _ _
      (count_request-Counts key bucket db.inbound_rate_limits)
      λ r c. (c.1 ∙ c.0, ground (arith, c.0, ltb_limit limit r.0))

-- Of the requests of one key in one window, exactly the first are let through, up to the limit (at
-- least 1) less the requests counted before; none after them is.
pub allowed_of-eq :
    (key : Text) (bucket : Instant) (ts : List Instant) (window limit : ℤ) (db : Database)
    → InWindow window bucket ts
    → Ensures
        (λ n.
          n ≡ min (length ts) (effective_limit limit - counted key bucket db.inbound_rate_limits))
        (allowed_of key ts window limit db)
unfolding allowed_of Answered
allowed_of-eq key bucket [] window limit db h = ground arith
allowed_of-eq key bucket (t ∷ ts) window limit db h =
    Ensures-bind (Answered key bucket limit db) _ (check_and_increment key t window limit db) _
      (rw (← h.0) (check_and_increment-Answered key t window limit db))
      λ r a.
        Ensures-bind
          (λ n.
            n
            ≡ min (length ts) (effective_limit limit - counted key bucket r.1.inbound_rate_limits))
          _ (allowed_of key ts window limit r.1) _
          (allowed_of-eq key bucket ts window limit r.1 h.1) λ n e. ground (arith, a.0, a.1, e)
