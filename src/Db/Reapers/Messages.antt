-- ===== src/Db/Reapers/Messages.antt =====
-- The turns of a conversation that `reap_messages` of crates/db/src/ops.rs keeps.
use andy.Base.{
  ℕ, suc, ◌-◌, ◌≤◌, ◌≡◌, refl, sym, ◌∙◌, ap, leb→le, true, not, List, [], ◌∷◌, keep, length, drop,
  pos, ◌+ℤ◌, ◌-ℤ◌, leb_ℤ, leb, Bool-cases, inl, inr, arith,
}
use andy.Domain.{Uuid}
use andy.Db.Tables.{Database, MessageRow, ok}
use andy.Db.Reapers.{of_user, without_older, reap_messages}

module _ {ℓ} {A : Type ℓ} where
  drop-fits : (c n : ℕ) (xs : List A) → c ≤ n → drop (c - n) xs ≡ xs
  drop-fits c n xs h = (let e : c - n ≡ 0 = omega (arith, h) in ap (λ k. drop k xs) e)

  drop-more : (c n : ℕ) (x : A) (xs : List A) → n ≤ c → drop (suc c - n) (x ∷ xs) ≡ drop (c - n) xs
  drop-more c n x xs h =
      (let e : suc c - n ≡ suc (c - n) = omega (arith, h) in ap (λ k. drop k (x ∷ xs)) e)

pos-less : (n : ℕ) → 1 ≤ n → pos n -ℤ pos 1 ≡ pos (n - 1)
unfolding ◌-ℤ◌ ◌+ℤ◌
pos-less n h = ground (arith, h)

zero_le : (n : ℕ) → leb_ℤ (pos 0) (pos n) ≡ true
zero_le n = ground arith

module _ (user : Uuid) where
  -- The user's rows, and the others'.
  abbrev pub turns_of : List MessageRow → List MessageRow
  turns_of ms = keep (of_user user) ms

  abbrev pub turns_of_others : List MessageRow → List MessageRow
  turns_of_others ms = keep (λ m. not (of_user user m)) ms

  fits :
      (n : ℕ) (ms : List MessageRow)
      → length (turns_of ms) ≤ n
      → drop (length (turns_of ms) - suc n) (turns_of ms) ≡ turns_of ms
  fits n ms h = drop-fits (length (turns_of ms)) (suc n) (turns_of ms) (omega (arith, h))

  newest :
      (n : ℕ) (ms : List MessageRow)
      → turns_of (without_older n user ms) ≡ drop (length (turns_of ms) - suc n) (turns_of ms)
  newest n [] = sym (drop-fits 0 (suc n) [] (omega arith))
  newest n (m ∷ ms) = elim (Bool-cases (of_user user m)) [
    | inr e ↦ rw (e, e) (newest n ms)
    | inl e ↦ elim (Bool-cases (leb (length (turns_of ms)) n)) [
      | inl f ↦
          rw (e, f, e)
            (ap (λ k. m ∷ k) (newest n ms ∙ fits n ms (leb→le _ _ f))
              ∙ sym (
                  drop-fits (suc (length (turns_of ms))) (suc n) (m ∷ turns_of ms)
                    (omega (arith, leb→le _ _ f))))
      | inr f ↦
          rw (e, f)
            (newest n ms
              ∙ sym (drop-more (length (turns_of ms)) (suc n) m (turns_of ms) (ground (arith, f))))
    ]
  ]

  others :
      (n : ℕ) (ms : List MessageRow)
      → turns_of_others (without_older n user ms) ≡ turns_of_others ms
  others n [] = refl
  others n (m ∷ ms) = ground (arith, others n ms)

  -- Reaping a user's turns down to the latest `latest`, at least one, goes through: the user's turns
  -- that stay are the latest ones, all of them if there are fewer, in their order, and those of the
  -- other users stay as they were.
  pub reap_messages-latest :
      (latest : ℕ) (db : Database)
      → 1 ≤ latest
      → (r : ℕ × Database) × (reap_messages user (pos latest) db ≡ ok r)
        × (turns_of r.1.messages
            ≡ drop (length (turns_of db.messages) - latest) (turns_of db.messages))
        × (turns_of_others r.1.messages ≡ turns_of_others db.messages)
  unfolding reap_messages
  reap_messages-latest latest db h =
      (let rest = without_older (latest - 1) user db.messages in
        let same : suc (latest - 1) ≡ latest = omega (arith, h) in
        rw (pos-less latest h, zero_le (latest - 1))
          (
            (length db.messages - length rest, record db { messages = rest }),
            refl,
            newest (latest - 1) db.messages
                ∙ ap (λ k. drop (length (turns_of db.messages) - k) (turns_of db.messages)) same,
            others (latest - 1) db.messages,
          ))
