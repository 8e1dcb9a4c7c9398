-- ===== src/Db/RateLimit.antt =====
-- crates/db/src/ratelimit.rs: requests counted for each key in fixed windows.
pub mod Window
use andy.Base.{
  ℕ, suc, ◌+◌, ◌*◌, ◌≡◌, Bool, true, false, not, ◌&&◌, Option, none, some, List, [], ◌∷◌, ◌++◌, any,
  find, keep, length, update_where, leb, ltb, ℤ, pos, negsuc, ◌+ℤ◌, ◌-ℤ◌, ◌/ℤ◌, ◌*ℤ◌, rem_euclid,
  max_ℤ, ltb_ℤ, eqb_ℤ, abs_ℕ, Text, text_eq, if◌then◌else◌,
}
use andy.Domain.{Instant}
use andy.Db.Tables.{Database, RateRow, DbError, Result, ok, err, ◌>>=◌, ◌>>◌, require}

pub data RateDecision : Type 0 where
  allow limited : RateDecision

-- `now.timestamp()`, in seconds.
abbrev pub timestamp : Instant → ℤ
timestamp now = (now -ℤ pos (rem_euclid now 1000000)) /ℤ pos 1000000

-- The start of the window of `window` seconds, at least 1.
unfoldable pub window_start : Instant → ℕ → Instant
window_start now window =
    let secs = timestamp now in (secs -ℤ pos (rem_euclid secs window)) *ℤ pos 1000000

abbrev pub in_bucket : Text → Instant → RateRow → Bool
in_bucket key bucket r = text_eq r.key_hash key && eqb_ℤ r.bucket_start bucket

-- The largest `int4`, which `count` is.
abbrev pub int4_max : ℕ
int4_max = 2147483647

-- `insert … on conflict … do update set count = count + 1 returning count`.
unfoldable pub count_request : Text → Instant → List RateRow → Result (ℕ × List RateRow)
count_request key bucket rows = elim (find (in_bucket key bucket) rows) [
  | none ↦ ok (1, rows ++ record { key_hash = key; bucket_start = bucket; count = 1 } ∷ [])
  | some row ↦ do
    require (leb (suc row.count) int4_max) DbError.out_of_range
    ok (
      suc row.count,
      update_where (in_bucket key bucket) (λ r. record r { count = suc r.count }) rows,
    )
]

unfoldable pub check_and_increment :
    Text → Instant → ℤ → ℤ → Database → Result (RateDecision × Database)
check_and_increment key_hash now window_seconds limit db = do
  let window = max_ℤ window_seconds (pos 1)
  let bucket = window_start now (abs_ℕ window)
  (count, rows) ← count_request key_hash bucket db.inbound_rate_limits
  let decision =
      if ltb_ℤ (max_ℤ limit (pos 1)) (pos count) then RateDecision.limited else RateDecision.allow
  ok (decision, record db { inbound_rate_limits = rows })

-- The number of rows deleted, and the tables after. `kept_for` is a duration in microseconds.
unfoldable pub reap_inbound_rate_limits : Instant → ℤ → Database → ℕ × Database
reap_inbound_rate_limits now kept_for db =
    let cutoff = now -ℤ kept_for in
    let ended = λ (r : RateRow). ltb_ℤ r.bucket_start cutoff in
    (
      length (keep ended db.inbound_rate_limits),
      record db { inbound_rate_limits = keep (λ r. not (ended r)) db.inbound_rate_limits },
    )
