-- ===== src/Db/Flush/Inbound/Done.antt =====
-- The row of a message that was completed at a time, under the statements of crates/db that claim and
-- complete messages, and under the clean-up of crates/db/src/ops.rs while the row is young.
use andy.Base.{
  ◌≡◌, refl, Bool, true, false, not, ◌&&◌, some, List, [], ◌∷◌, any, keep, update_where, arith,
  Text, text_eq_refl, pos, ◌+ℤ◌, ◌-ℤ◌, ◌*ℤ◌, leb_ℤ, ltb_ℤ, eqb_ℤ, +ℤ_parts, -ℤ_parts, option_eq,
}
use andy.Domain.{Instant}
use andy.Db.Tables.{Database, ProcessedRow}
use andy.Db.Reapers.{reap_processed_messages, is_stale}
use andy.Db.Flush.{
  claim_slot, complete_message, is_message, is_claimed, claimed_message, stale_claim,
}
use andy.Db.Flush.Inbound.{Completed, completed_row, claimed_row}
use andy.Db.Flush.Inbound.Rows
use andy.Db.Flush.Inbound.Rows.{complete_row, reclaim_row}

abbrev pub is_done : Text → Instant → ProcessedRow → Bool
is_done m c p =
    is_message m p && (not (is_claimed p.status) && option_eq eqb_ℤ p.completed_at (some c))

-- The message was completed at `c`, and its row is there.
abbrev pub Done : Text → Instant → Database → Type 0
Done m c db = any (is_done m c) db.processed_messages ≡ true

module _ (m : Text) where
  completing-done :
      (c : Instant) (n : Text) (now : Instant) (ps : List ProcessedRow)
      → any (is_done m c) ps ≡ true
      → any (is_done m c) (update_where (claimed_message n) (complete_row now) ps) ≡ true
  completing-done c n now [] h = h
  completing-done c n now (p ∷ ps) h = ground (arith, completing-done c n now ps)

  reclaiming-done :
      (c : Instant) (n : Text) (now t : Instant) (ps : List ProcessedRow)
      → any (is_done m c) ps ≡ true
      → any (is_done m c) (update_where (stale_claim n now) (reclaim_row t) ps) ≡ true
  reclaiming-done c n now t [] h = h
  reclaiming-done c n now t (p ∷ ps) h = ground (arith, reclaiming-done c n now t ps)

  completed-done :
      (now : Instant) (ps : List ProcessedRow)
      → any (claimed_message m) ps ≡ true
      → any (is_done m now) (update_where (claimed_message m) (complete_row now) ps) ≡ true
  completed-done now [] h = h
  completed-done now (p ∷ ps) h = ground (arith, completed-done now ps)

  young :
      (c cutoff cutoff' : Instant) (p : ProcessedRow)
      → ltb_ℤ c cutoff ≡ false
      → is_done m c p ≡ true
      → is_stale cutoff cutoff' p ≡ false
  young c cutoff cutoff' p h d = ground (arith, h, d)

  reaping-done :
      (c cutoff cutoff' : Instant) (ps : List ProcessedRow)
      → ltb_ℤ c cutoff ≡ false
      → any (is_done m c) ps ≡ true
      → any (is_done m c) (keep (λ p. not (is_stale cutoff cutoff' p)) ps) ≡ true
  reaping-done c cutoff cutoff' [] h d = d
  reaping-done c cutoff cutoff' (p ∷ ps) h d =
      ground (arith, d, young c cutoff cutoff' p h, reaping-done c cutoff cutoff' ps h)

  reaping-unclaimed :
      (gone : ProcessedRow → Bool) (ps : List ProcessedRow)
      → any (claimed_message m) ps ≡ false
      → any (claimed_message m) (keep (λ p. not (gone p)) ps) ≡ false
  reaping-unclaimed gone [] h = refl
  reaping-unclaimed gone (p ∷ ps) h = ground (arith, h, reaping-unclaimed gone ps)

  done-there :
      (c : Instant) (ps : List ProcessedRow)
      → any (is_done m c) ps ≡ true
      → any (is_message m) ps ≡ true
  done-there c [] h = h
  done-there c (p ∷ ps) h = ground (arith, h, done-there c ps)

  cutoff_low :
      (at c : Instant)
      → leb_ℤ at (c +ℤ pos 259200000000) ≡ true
      → ltb_ℤ c (at -ℤ pos 3 *ℤ pos 86400000000) ≡ false
  unfolding ◌*ℤ◌
  cutoff_low at c h =
      ground (arith, h, +ℤ_parts c (pos 259200000000), -ℤ_parts at (pos 259200000000))

  -- Completing the message leaves its row with the time.
  pub complete_message-Done_now :
      (db : Database) {db' : Database} → complete_message m db ≡ some db' → Done m db'.now db'
  unfolding complete_message
  complete_message-Done_now db e = ground (
    arith,
    text_eq_refl m,
    completed-done db.now db.processed_messages,
    Rows.any-append m (is_done m db.now) db.processed_messages (completed_row m db),
  )

  pub complete_message-Done :
      (c : Instant) (n : Text) (db db' : Database)
      → complete_message n db ≡ some db'
      → Done m c db
      → Done m c db'
  unfolding complete_message
  complete_message-Done c n db db' e h = ground (
    arith,
    h,
    completing-done c n db.now db.processed_messages h,
    Rows.any-append m (is_done m c) db.processed_messages (completed_row n db),
  )

  pub claim_slot-Done :
      (c : Instant) (n : Text) (t : Instant) (db : Database)
      → Done m c db
      → Done m c (claim_slot n t db).1
  unfolding claim_slot
  claim_slot-Done c n t db h = ground (
    arith,
    h,
    reclaiming-done c n t t db.processed_messages h,
    Rows.any-append m (is_done m c) db.processed_messages (claimed_row n t),
  )

  -- A clean-up within three days.
  pub reap_processed_messages-Done :
      (at c : Instant) (db : Database)
      → leb_ℤ at (c +ℤ pos 259200000000) ≡ true
      → Done m c db
      → Done m c (reap_processed_messages at (pos 3) (pos 24) db).1
  unfolding reap_processed_messages
  reap_processed_messages-Done at c db h =
      reaping-done c _ _ db.processed_messages (cutoff_low at c h)

  pub reap_processed_messages-Completed :
      (at c : Instant) (db : Database)
      → leb_ℤ at (c +ℤ pos 259200000000) ≡ true
      → Done m c db
      → Completed m db
      → Completed m (reap_processed_messages at (pos 3) (pos 24) db).1
  unfolding reap_processed_messages
  reap_processed_messages-Completed at c db h d k = (
    done-there c _ (reaping-done c _ _ db.processed_messages (cutoff_low at c h) d),
    reaping-unclaimed _ db.processed_messages k.1,
  )
