-- ===== src/Db/Flush/Exclusion.antt =====
-- One worker at a time handles an inbound message: `claim_slot` of crates/db/src/queries.rs.
use andy.Base.{
  ◌≡◌, refl, true, false, List, [], ◌∷◌, any, arith, Text, ◌∙◌, update_where, inl, inr, Bool-cases,
  text_eq_refl, text_eq_sound, leb_ℤ, ltb_ℤ, ◌+ℤ◌,
}
use andy.Domain.{Instant}
use andy.Db.Tables.{Database, ProcessedRow}
use andy.Db.Flush.{ClaimResult, claim_slot, claim_ttl, is_message, stale_claim}
use andy.Db.Flush.Inbound.{claimed_row}
use andy.Db.Flush.Inbound.Rows.{reclaim_row, reclaiming-there, any-append}

-- The primary key of `processed_messages`.
abbrev pub Keyed : List ProcessedRow → Type 0
Keyed [] = Unit
Keyed (p ∷ ps) = (any (is_message p.message_id) ps ≡ false) × Keyed ps

not_before : (t t' : Instant) → ltb_ℤ t' (t +ℤ claim_ttl) ≡ true → leb_ℤ (t +ℤ claim_ttl) t' ≡ false
not_before t t' h = ground (arith, h)

module _ (m : Text) where
  absent-stale :
      (t : Instant) (ps : List ProcessedRow)
      → any (is_message m) ps ≡ false
      → any (stale_claim m t) ps ≡ false
  absent-stale t [] h = refl
  absent-stale t (p ∷ ps) h = ground (arith, absent-stale t ps)

  sole :
      (p : ProcessedRow) (ps : List ProcessedRow)
      → any (is_message p.message_id) ps ≡ false
      → is_message m p ≡ true
      → any (is_message m) ps ≡ false
  sole p ps h e = rw (← text_eq_sound p.message_id m e) h

  reclaimed-held :
      (t t' : Instant) (ps : List ProcessedRow)
      → Keyed ps
      → ltb_ℤ t' (t +ℤ claim_ttl) ≡ true
      → any (stale_claim m t) ps ≡ true
      → any (stale_claim m t') (update_where (stale_claim m t) (reclaim_row t) ps) ≡ false
  reclaimed-held t t' [] k lt h = cc
  reclaimed-held t t' (p ∷ ps) k lt h = elim (Bool-cases (is_message m p)) [
    | inl e ↦ ground (
      arith,
      lt,
      h,
      absent-stale t ps (sole p ps k.0 e),
      absent-stale t' (update_where (stale_claim m t) (reclaim_row t) ps)
          (reclaiming-there m m t t ps ∙ sole p ps k.0 e),
      not_before t t' lt,
    )
    | inr e ↦ ground (arith, reclaimed-held t t' ps k.1 lt)
  ]

-- A worker that is given a message is the only one for the length of the claim: until then every
-- other delivery of the message is told to skip and changes nothing. The table has its primary key.
pub claim_slot-excludes :
    (m : Text) (t t' : Instant) (db : Database)
    → Keyed db.processed_messages
    → (claim_slot m t db).0 ≡ ClaimResult.process
    → ltb_ℤ t' (t +ℤ claim_ttl) ≡ true
    → claim_slot m t' (claim_slot m t db).1 ≡ (ClaimResult.skip, (claim_slot m t db).1)
unfolding claim_slot
claim_slot-excludes m t t' db k p lt =
    elim (Bool-cases (any (is_message m) db.processed_messages)) [
      | inl e ↦ elim (Bool-cases (any (stale_claim m t) db.processed_messages)) [
        | inl f ↦ ground (
          arith,
          e,
          f,
          reclaiming-there m m t t db.processed_messages,
          reclaimed-held m t t' db.processed_messages k lt f,
        )
        | inr f ↦ ground (arith, e, f)
      ]
      | inr e ↦ ground (
        arith,
        e,
        text_eq_refl m,
        not_before t t' lt,
        absent-stale m t' db.processed_messages e,
        any-append m (is_message m) db.processed_messages (claimed_row m t),
        any-append m (stale_claim m t') db.processed_messages (claimed_row m t),
      )
    ]
