-- ===== src/Db/Outbox/Claims.antt =====
-- Which rows the claims of crates/db/src/ops.rs take.
use Prim.Native.Nat.{zero, min, max}
use mathlib.Core.Path.{subst}
use mathlib.Core.List.{Permᴰ}
use mathlib.Core.List.Permᴰ
use andy.Base.{
  ℕ, suc, ◌≤◌, ◌≡◌, refl, true, false, List, [], ◌∷◌, ◌++◌, arith, keep, take, map, length,
  length-map, length-take-le, length-Permᴰ, inl, inr, Bool-cases, ltb_ℤ, ◌+ℤ◌, ◌∙◌, ap,
  if◌then◌else◌,
}
use andy.Domain.{Instant}
use andy.Db.Tables.{Engine, Database, OutboundRow}
use andy.Db.Outbox.{
  OutboundMessageRow, outbound_from_row, is_due, claim, claim_first, claim_timeout, clamp_limit,
  claim_due_outbound_messages,
}

-- The rows that a scan for `n` messages does not claim.
abbrev pub unclaimed : Instant → ℕ → List OutboundRow → List OutboundRow
unclaimed at zero os = os
unclaimed at (suc n) [] = []
unclaimed at (suc n) (o ∷ os) =
    if is_due at o then unclaimed at n os else o ∷ unclaimed at (suc n) os

module _ (at now : Instant) where
  -- A scan claims the first rows that are due.
  claim_first-eq :
      (n : ℕ) (os : List OutboundRow)
      → (claim_first at now n os).0 ≡ map (claim now) (take n (keep (is_due at) os))
  unfolding claim_first
  claim_first-eq zero os = refl
  claim_first-eq (suc n) [] = refl
  claim_first-eq (suc n) (o ∷ os) = elim (Bool-cases (is_due at o)) [
    | inl e ↦ ground (arith, e, claim_first-eq n os)
    | inr e ↦ ground (arith, e, claim_first-eq (suc n) os)
  ]

  -- The rows claimed and the others are all the rows.
  claimed-unclaimed :
      (n : ℕ) (os : List OutboundRow) → Permᴰ (take n (keep (is_due at) os) ++ unclaimed at n os) os
  claimed-unclaimed zero os = Permᴰ.refl os
  claimed-unclaimed (suc n) [] = Permᴰ.nil
  claimed-unclaimed (suc n) (o ∷ os) = elim (Bool-cases (is_due at o)) [
    | inl e ↦ rw e (Permᴰ.cons refl (claimed-unclaimed n os))
    | inr e ↦ rw e (
        Permᴰ.trans (Permᴰ.middle o (take (suc n) (keep (is_due at) os)) (unclaimed at (suc n) os))
          (Permᴰ.cons refl (claimed-unclaimed (suc n) os)))
  ]

module _ (at now at' : Instant) (soon : ltb_ℤ at' (now +ℤ claim_timeout) ≡ true) where
  -- A row just claimed is not due before the claim times out.
  claimed-waits : (o : OutboundRow) → is_due at' (claim now o) ≡ false
  unfolding is_due
  claimed-waits o = ground (arith, soon)

  claim_first-skips :
      (n : ℕ) (o : OutboundRow) (os : List OutboundRow)
      → is_due at o ≡ false
      → (claim_first at now (suc n) (o ∷ os)).1 ≡ o ∷ (claim_first at now (suc n) os).1
  unfolding claim_first
  claim_first-skips n o os e = ground (arith, e)

  keep-cons :
      (o : OutboundRow) (xs ys : List OutboundRow)
      → keep (is_due at') xs ≡ keep (is_due at') ys
      → keep (is_due at') (o ∷ xs) ≡ keep (is_due at') (o ∷ ys)
  keep-cons o xs ys e = ap (λ zs. if is_due at' o then o ∷ zs else zs) e

  -- What is due after a claim was left by it.
  claim_first-rest :
      (n : ℕ) (os : List OutboundRow)
      → keep (is_due at') (claim_first at now n os).1 ≡ keep (is_due at') (unclaimed at n os)
  unfolding claim_first
  claim_first-rest zero os = refl
  claim_first-rest (suc n) [] = refl
  claim_first-rest (suc n) (o ∷ os) = elim (Bool-cases (is_due at o)) [
    | inl e ↦ ground (arith, e, claimed-waits o, claim_first-rest n os)
    | inr e ↦ rw (claim_first-skips n o os e, e) (keep-cons o _ _ (claim_first-rest (suc n) os))
  ]

-- What a claim returns of a row that it takes.
abbrev pub returned : Instant → OutboundRow → OutboundMessageRow
returned now o = outbound_from_row (claim now o)

map-returned :
    (now : Instant) (os : List OutboundRow)
    → map outbound_from_row (map (claim now) os) ≡ map (returned now) os
map-returned now [] = refl
map-returned now (o ∷ os) = ap (λ ms. returned now o ∷ ms) (map-returned now os)

module _ (pg : Engine) (arranges : (os : List OutboundRow) → Permᴰ (pg.returning os) os) where
  messages-Permᴰ :
      (now : Instant) (os claimed : List OutboundRow)
      → claimed ≡ map (claim now) os
      → Permᴰ (map outbound_from_row (pg.returning claimed)) (map (returned now) os)
  messages-Permᴰ now os claimed e =
      subst (Permᴰ (map outbound_from_row (pg.returning claimed)))
        (ap (map outbound_from_row) e ∙ map-returned now os)
        (Permᴰ.map outbound_from_row (arranges claimed))

  -- A claim of due messages returns the oldest rows that are due, as many as the limit brought between 1
  -- and 50 allows, in some order, each with one more attempt and with its number and its text trimmed
  -- and cut off, when the update returns each row that it changes once.
  pub claim_due_outbound_messages-eq :
      (at : Instant) (limit : ℕ) (db : Database)
      → (Permᴰ (claim_due_outbound_messages pg at limit db).0 (
          map (returned db.now) (take (clamp_limit limit) (keep (is_due at) db.outbound_messages))))
        × (length (claim_due_outbound_messages pg at limit db).0 ≤ max 1 (min 50 limit))
  unfolding claim_due_outbound_messages
  claim_due_outbound_messages-eq at limit db =
      (let due = take (clamp_limit limit) (keep (is_due at) db.outbound_messages) in
        let order =
          messages-Permᴰ db.now due _
            (claim_first-eq at db.now (clamp_limit limit) db.outbound_messages) in
        (
          order,
          ground (
            arith,
            length-Permᴰ order,
            length-map (returned db.now) due,
            length-take-le (clamp_limit limit) (keep (is_due at) db.outbound_messages),
          ),
        ))

  -- A second claim, at any time before the first one times out, returns what it would return if the
  -- table had no other rows than those that the first one left; and the rows that the first one took
  -- and those that it left are all the rows, each once. An update returns each row that it changes
  -- once, in some order.
  pub claim_due_outbound_messages-disjoint :
      (at at' now' : Instant) (limit limit' : ℕ) (db : Database)
      → ltb_ℤ at' (db.now +ℤ claim_timeout) ≡ true
      → (let left = unclaimed at (clamp_limit limit) db.outbound_messages in
          (Permᴰ
            (claim_due_outbound_messages pg at' limit'
              (record (claim_due_outbound_messages pg at limit db).1 { now = now' })).0
            (map (returned now') (take (clamp_limit limit') (keep (is_due at') left))))
          × Permᴰ
              (take (clamp_limit limit) (keep (is_due at) db.outbound_messages) ++ left)
              db.outbound_messages)
  unfolding claim_due_outbound_messages
  claim_due_outbound_messages-disjoint at at' now' limit limit' db soon = (
    messages-Permᴰ now' _ _ (
        claim_first-eq at' now' (clamp_limit limit') _
        ∙ ap (λ os. map (claim now') (take (clamp_limit limit') os))
            (claim_first-rest at db.now at' soon (clamp_limit limit) db.outbound_messages)),
    claimed-unclaimed at db.now (clamp_limit limit) db.outbound_messages,
  )
