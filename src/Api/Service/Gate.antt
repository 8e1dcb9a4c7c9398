-- ===== src/Api/Service/Gate.antt =====
-- What the turn of an inbound message (crates/api/src/service.rs) can change.
use andy.Base.{
  ◌≡◌, ◌≢◌, refl, true, Option, some, List, [], ◌∷◌, ◌++◌, map, keep, Text, inl, inr, Bool-cases,
  arith,
}
use andy.Domain.{Uuid, Instant, MessageRole, WriteIntent}
use andy.Policy.{WriteRisk}
use andy.Db.Tables.{Engine, Database, OutboundRow, Ensures, Ensures-map}
use andy.Db.Confirmations.{save_pending_confirmation}
use andy.Db.Flush.{claim_slot, resolve_user_id}
use andy.Db.Flush.Talk.{SameBooks, SameBooks-trans, is_talk, AllTalk, flush_writes-SameBooks}
use andy.Api.Program.{Program}
use andy.Api.Program.Holds.{Holds, Holds-bind, Holds-try_execute}
use andy.Api.Service.Commit.{commit-Holds}
use andy.Api.Service.{
  Service, is_conversation_turn, rewrite_turn, rewrite_assistant_turn, reply_key,
  commit_and_reply_writes, act_on,
}

-- From any state with the books of `old`, the program ends in one.
abbrev pub Stays {ℓ} : {A : Type ℓ} → Database → Program A → Type 0
Stays old m = Holds (SameBooks old) m

queue-SameBooks :
    (old db : Database) (os : List OutboundRow)
    → SameBooks old db
    → SameBooks old (record db { outbound_messages = os })
queue-SameBooks old db os b = ground (arith, b)

pub slot-SameBooks : (m : Text) (t : Instant) (db : Database) → SameBooks db (claim_slot m t db).1
unfolding claim_slot
slot-SameBooks m t db = ground arith

pub user-SameBooks :
    (pg : Engine) (phone : Text) (db : Database)
    → Ensures (λ r. SameBooks db r.1) (resolve_user_id pg phone db)
unfolding resolve_user_id
user-SameBooks pg phone db = ground arith

ask-SameBooks :
    (pg : Engine) (user : Uuid) (phone : Text) (m : Option Text) (summary : Text)
    (ws : List WriteIntent) (t : Instant) (db : Database)
    → Ensures (SameBooks db) (save_pending_confirmation pg user phone m summary ws t db)
unfolding save_pending_confirmation
ask-SameBooks pg user phone m summary ws t db = ground arith

-- Conversation turns stay conversation turns.
rewritten-AllTalk :
    (ws : List WriteIntent) (sent : Text) (reply : WriteIntent)
    → is_talk reply ≡ true
    → AllTalk (map (rewrite_turn sent) (keep is_conversation_turn ws) ++ reply ∷ [])
unfolding is_conversation_turn
rewritten-AllTalk [] sent reply h = (h, tt)
rewritten-AllTalk (w ∷ ws) sent reply h = elim (Bool-cases (is_conversation_turn w)) [
  | inl e ↦ rw e (still w e, rewritten-AllTalk ws sent reply h)
  | inr e ↦ rw e (rewritten-AllTalk ws sent reply h)
]
  where
    still : (w : WriteIntent) → is_conversation_turn w ≡ true → is_talk (rewrite_turn sent w) ≡ true
    still (WriteIntent.save_turn user MessageRole.assistant content) e = refl
    still (WriteIntent.save_turn user MessageRole.user content) e = refl
    still _ e = cc

module _ (service : Service) (old : Database) where
  commit-Stays :
      (dedup key : Text) (ws : List WriteIntent)
      → AllTalk ws
      → Stays old (commit_and_reply_writes service dedup key ws)
  commit-Stays dedup key ws h =
      commit-Holds (SameBooks old) service (queue-SameBooks old) dedup key ws λ db b.
        Ensures-map (λ r. SameBooks db r.1) _ _ (λ r. SameBooks-trans b)
          (flush_writes-SameBooks service.engine (some dedup) ws db h)

  -- Every verdict but the safe one keeps the model's writes from the books.
  pub act_on-Stays :
      (v : WriteRisk) (user : Uuid) (phone : Text) (m : Option Text) (dedup reply : Text)
      (ws : List WriteIntent)
      → v ≢ WriteRisk.safe
      → Stays old (act_on service v user phone m dedup reply ws)
  unfolding act_on rewrite_assistant_turn
  act_on-Stays WriteRisk.safe user phone m dedup reply ws unsafe = absurd (unsafe refl)
  act_on-Stays (WriteRisk.needs_confirmation reason summary) user phone m dedup reply ws unsafe =
      Holds-bind (SameBooks old) _ _
        (Holds-try_execute (SameBooks old) _ λ db b.
          Ensures-map (SameBooks db) _ _ (λ r. SameBooks-trans b)
            (ask-SameBooks service.engine user phone m summary _ _ db))
        λ _. commit-Stays dedup (reply_key dedup) _ (rewritten-AllTalk ws _ _ refl)
  act_on-Stays (WriteRisk.reject reason) user phone m dedup reply ws unsafe =
      commit-Stays dedup (reply_key dedup) _ (rewritten-AllTalk ws _ _ refl)
