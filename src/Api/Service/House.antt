-- ===== src/Api/Service/House.antt =====
-- What the statements of a turn (crates/api/src/service.rs) leave of a user's ledger and of the writes
-- that wait for a "yes".
use mathlib.Core.Path.{subst}
use mathlib.Core.List.{reverse_aux}
use andy.Base.{
  ◌≡◌, refl, sym, Option, none, some, map_some, text_eq, List, [], ◌∷◌, ◌++◌, map, find,
  update_where, All, All-find, Text, inl, inr, Bool-cases, Option-cases, arith, any, not, ◌==◌,
}
use andy.Domain.{Uuid, Instant, MessageRole, WriteIntent}
use andy.Shared.Allowlist.{normalize_phone}
use andy.Db.Tables.{
  Engine, Database, UserRow, ConfirmationRow, OutboundRow, Ensures, Ensures-map, Ensures-both,
  Ensures-require, ConfirmationStatus, has_user,
}
use andy.Db.Confirmations.{
  save_pending_confirmation, latest_pending_confirmation, is_live, is_users_pending, same_source,
}
use andy.Db.Ledger.GoalRows.{IsBook}
use andy.Db.Flush.{FlushResult, flush_writes}
use andy.Db.Flush.Book.{intent_user, AllFor, IsBook-same}
use andy.Db.Flush.Balances.{flush_writes-IsBook}
use andy.Db.Flush.Quiet.{payloads}
use andy.Db.Flush.Parked.{flush_writes-payloads}
use andy.Api.Service.{rewrite_turn, rewrite_assistant_turn}

-- The user who has the number.
abbrev pub Owns : Text → Uuid → List UserRow → Type 0
Owns number user us =
    map_some (λ (u : UserRow). u.id) (find (λ u. text_eq u.phone (normalize_phone number)) us)
    ≡ some user

-- The ledger is well formed, the writes that wait for a "yes" are the user's, and so is the number.
pub record IsHouse (number : Text) (user : Uuid) (db : Database) : Type 0 where
  pub book : IsBook user db
  pub parked : All (AllFor user) (payloads db)
  pub owner : Owns number user db.users

module _ (number : Text) (user : Uuid) where
  pub IsHouse-same :
      (db db' : Database)
      → db'.transactions ≡ db.transactions
      → db'.savings_goals ≡ db.savings_goals
      → payloads db' ≡ payloads db
      → db'.users ≡ db.users
      → IsHouse number user db
      → IsHouse number user db'
  IsHouse-same db db' ts gs ps us h = record {
    book = IsBook-same user db db' ts gs h.book;
    parked = subst (All (AllFor user)) (sym ps) h.parked;
    owner = subst (Owns number user) (sym us) h.owner;
  }

  pub flush-IsHouse :
      (pg : Engine) (m : Option Text) (ws : List WriteIntent) (db : Database)
      → AllFor user ws
      → IsHouse number user db
      → Ensures (λ r. IsHouse number user r.1) (flush_writes pg m ws db)
  flush-IsHouse pg m ws db f h =
      (let Parked =
          λ (r : FlushResult × Database). (payloads r.1 ≡ payloads db) × (r.1.users ≡ db.users) in
        Ensures-map (λ r. IsBook user r.1 × Parked r) _ _
          (λ r p. record {
            book = p.0;
            parked = subst (All (AllFor user)) (sym p.1.0) h.parked;
            owner = subst (Owns number user) (sym p.1.1) h.owner;
          })
          (Ensures-both (λ r. IsBook user r.1) Parked _
            (flush_writes-IsBook pg user m ws db f h.book) (flush_writes-payloads pg m ws db)))

  rows-parked :
      (cs : List ConfirmationRow)
      → All (AllFor user) (map (λ (c : ConfirmationRow). c.payload) cs)
      → All (λ (c : ConfirmationRow). AllFor user c.payload) cs
  rows-parked [] h = tt
  rows-parked (c ∷ cs) h = (h.0, rows-parked cs h.1)

  All-reverse :
      (cs before : List ConfirmationRow)
      → All (λ (c : ConfirmationRow). AllFor user c.payload) cs
      → All (λ (c : ConfirmationRow). AllFor user c.payload) before
      → All (λ (c : ConfirmationRow). AllFor user c.payload) (reverse_aux cs before)
  All-reverse [] before h k = k
  All-reverse (c ∷ cs) before h k = All-reverse cs (c ∷ before) h.1 (h.0, k)

  -- The confirmation that a "yes" answers.
  abbrev pub Waits : Option ConfirmationRow → Type 0
  Waits none = Unit
  Waits (some c) = AllFor user c.payload

  pub latest-Waits :
      (db : Database) → IsHouse number user db → Waits (latest_pending_confirmation user db.now db)
  unfolding latest_pending_confirmation
  latest-Waits db h =
      (let rows =
          All-reverse db.pending_confirmations [] (rows-parked db.pending_confirmations h.parked)
            tt in
        elim (Option-cases (find (is_live user db.now) (reverse_aux db.pending_confirmations []))) [
          | inl e ↦ rw e tt
          | inr (c, e) ↦ rw e (All-find _ (is_live user db.now) _ rows e)
        ])

  pub cancelled-payloads :
      (cs : List ConfirmationRow)
      → map
          (λ (c : ConfirmationRow). c.payload)
          (update_where
            (is_users_pending user)
            (λ c. record c { status = ConfirmationStatus.cancelled })
            cs)
        ≡ map (λ (c : ConfirmationRow). c.payload) cs
  cancelled-payloads [] = refl
  cancelled-payloads (c ∷ cs) = ground (arith, cancelled-payloads cs)

  added-payloads :
      (cs : List ConfirmationRow) (c : ConfirmationRow)
      → All (AllFor user) (map (λ (c : ConfirmationRow). c.payload) cs)
      → AllFor user c.payload
      → All (AllFor user) (map (λ (c : ConfirmationRow). c.payload) (cs ++ c ∷ []))
  added-payloads [] c h k = (k, tt)
  added-payloads (d ∷ cs) c h k = (h.0, added-payloads cs c h.1 k)

  pub asked-IsHouse :
      (pg : Engine) (phone : Text) (m : Option Text) (summary : Text) (ws : List WriteIntent)
      (t : Instant) (db : Database)
      → AllFor user ws
      → IsHouse number user db
      → Ensures (IsHouse number user) (save_pending_confirmation pg user phone m summary ws t db)
  unfolding save_pending_confirmation
  asked-IsHouse pg phone m summary ws t db f h =
      elim (Bool-cases (any (same_source m) db.pending_confirmations)) [
        | inl e ↦ rw e h
        | inr e ↦ rw e (
            Ensures-require (IsHouse number user) (has_user db user) _ _ λ _.
              Ensures-require (IsHouse number user)
                (not (any (λ c. c.id == pg.random db.drawn) db.pending_confirmations)) _ _
                λ _. record {
                  book = IsBook-same user db _ refl refl h.book;
                  owner = h.owner;
                  parked = added-payloads db.pending_confirmations _ h.parked f;
                })
      ]

  rewritten :
      (sent : Text) (w : WriteIntent)
      → intent_user w ≡ user
      → intent_user (rewrite_turn sent w) ≡ user
  rewritten sent (WriteIntent.save_turn u MessageRole.assistant content) h = h
  rewritten sent (WriteIntent.save_turn u MessageRole.user content) h = h
  rewritten sent _ h = h

  pub rewritten_all :
      (sent : Text) (ws : List WriteIntent)
      → AllFor user ws
      → AllFor user (rewrite_assistant_turn ws sent)
  unfolding rewrite_assistant_turn
  rewritten_all sent [] h = tt
  rewritten_all sent (w ∷ ws) h = (rewritten sent w h.0, rewritten_all sent ws h.1)

  pub queue-IsHouse :
      (db : Database) (os : List OutboundRow)
      → IsHouse number user db
      → IsHouse number user (record db { outbound_messages = os })
  queue-IsHouse db os = IsHouse-same db _ refl refl refl refl
