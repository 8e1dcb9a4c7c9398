-- ===== src/Db/Flush/Inbound/Rows.antt =====
-- The rows of `processed_messages` under the statements of crates/db that claim and complete them.
use andy.Base.{
  ◌≡◌, refl, Bool, true, false, none, some, List, [], ◌∷◌, ◌++◌, any, update_where, arith, Text,
  if◌then◌else◌,
}
use andy.Domain.{Instant}
use andy.Db.Tables.{ProcessedRow, MessageStatus}
use andy.Db.Flush.{is_message, claimed_message, stale_claim}

abbrev pub complete_row : Instant → ProcessedRow → ProcessedRow
complete_row now p = record p { status = MessageStatus.completed; completed_at = some now }

abbrev pub reclaim_row : Instant → ProcessedRow → ProcessedRow
reclaim_row now p = record p {
  status = MessageStatus.claimed;
  claimed_at = now;
  completed_at = none;
}

module _ (m : Text) where
  pub completing-there :
      (n : Text) (now : Instant) (ps : List ProcessedRow)
      → any (is_message m) (update_where (claimed_message n) (complete_row now) ps)
        ≡ any (is_message m) ps
  completing-there n now [] = refl
  completing-there n now (p ∷ ps) = ground (arith, completing-there n now ps)

  pub completing-unclaimed :
      (n : Text) (now : Instant) (ps : List ProcessedRow)
      → any (claimed_message m) ps ≡ false
      → any (claimed_message m) (update_where (claimed_message n) (complete_row now) ps) ≡ false
  completing-unclaimed n now [] h = refl
  completing-unclaimed n now (p ∷ ps) h = ground (arith, completing-unclaimed n now ps)

  pub completing-own :
      (now : Instant) (ps : List ProcessedRow)
      → any (claimed_message m) (update_where (claimed_message m) (complete_row now) ps) ≡ false
  completing-own now [] = refl
  completing-own now (p ∷ ps) = ground (arith, completing-own now ps)

  pub claimed-there :
      (ps : List ProcessedRow) → any (claimed_message m) ps ≡ true → any (is_message m) ps ≡ true
  claimed-there [] h = h
  claimed-there (p ∷ ps) h = ground (arith, claimed-there ps)

  pub reclaiming-there :
      (n : Text) (now t : Instant) (ps : List ProcessedRow)
      → any (is_message m) (update_where (stale_claim n now) (reclaim_row t) ps)
        ≡ any (is_message m) ps
  reclaiming-there n now t [] = refl
  reclaiming-there n now t (p ∷ ps) = ground (arith, reclaiming-there n now t ps)

  pub reclaiming-unclaimed :
      (n : Text) (now t : Instant) (ps : List ProcessedRow)
      → any (claimed_message m) ps ≡ false
      → any (claimed_message m) (update_where (stale_claim n now) (reclaim_row t) ps) ≡ false
  reclaiming-unclaimed n now t [] h = refl
  reclaiming-unclaimed n now t (p ∷ ps) h = ground (arith, reclaiming-unclaimed n now t ps)

  pub unclaimed-fresh :
      (now : Instant) (ps : List ProcessedRow)
      → any (claimed_message m) ps ≡ false
      → any (stale_claim m now) ps ≡ false
  unclaimed-fresh now [] h = refl
  unclaimed-fresh now (p ∷ ps) h = ground (arith, unclaimed-fresh now ps)

  pub any-append :
      (f : ProcessedRow → Bool) (ps : List ProcessedRow) (p : ProcessedRow)
      → any f (ps ++ p ∷ []) ≡ (if f p then true else any f ps)
  any-append f [] p = ground arith
  any-append f (q ∷ ps) p = ground (arith, any-append f ps p)
