-- ===== src/Api/Service/Book.antt =====
-- What a whole turn of crates/api/src/service.rs leaves of a user's ledger.
use mathlib.Core.Path.{subst}
use andy.Base.{
  sym, ◌≡◌, refl, Bool, true, false, Option, none, some, List, [], ◌∷◌, map_some, find, All-insert,
  All-keep, Text, text_eq, inl, inr, Bool-cases, arith, unwrap_or, codes,
}
use andy.Domain.{Uuid, WriteIntent}
use andy.Policy.{ConfirmReply, WriteRisk, confirm_reply}
use andy.Shared.Allowlist.Normal.{is_allowed_iff}
use andy.Shared.Allowlist.{is_allowed}
use andy.Db.Tables.{Engine, Database, UserRow, ConfirmationRow, ok}
use andy.Db.Confirmations.{latest_pending_confirmation, cancel_pending_confirmations}
use andy.Db.Flush.{claim_slot, resolve_user_id, ClaimResult}
use andy.Db.Flush.Book.{intent_user, AllFor}
use andy.Api.Program.{World, query, read, final}
use andy.Api.Program.Holds.{
  Holds, Holds-bind, Holds-look_bind, Holds-query, Holds-try_execute, Holds-silent, Holds-read,
  Holds-pure,
}
use andy.Shared.Dedup.{content_dedup_key}
use andy.Api.Reaction.{append_budget_reaction}
use andy.Api.Outbound.{send_message}
use andy.Api.Service.Commit.{commit-Holds}
use andy.Api.Service.{
  Service, AgentAnswer, is_conversation_turn, reply_key, commit_and_reply, commit_and_reply_writes,
  act_on, answer_confirmation, answer_latest, resolve_pending_confirmation, resolve_if_reply,
  take_answer, unless_resolved, after_claim, handle_allowed, handle, verdict,
}
use andy.Api.Service.House.{
  IsHouse, Owns, Waits, IsHouse-same, flush-IsHouse, latest-Waits, cancelled-payloads,
  asked-IsHouse, rewritten_all, queue-IsHouse,
}

-- The writes of an answer are the user's.
abbrev pub Answers : Uuid → AgentAnswer → Type 0
Answers user (AgentAnswer.output said writes) = AllFor user writes
Answers user (AgentAnswer.failure sorry) = Unit
Answers user (AgentAnswer.broken e) = Unit

module _ (service : Service) (number : Text) (user : Uuid) where
  commit-IsHouse :
      (dedup key : Text) (ws : List WriteIntent)
      → AllFor user ws
      → Holds (IsHouse number user) (commit_and_reply_writes service dedup key ws)
  commit-IsHouse dedup key ws f =
      commit-Holds (IsHouse number user) service (queue-IsHouse number user) dedup key ws
        λ db. flush-IsHouse number user service.engine (some dedup) ws db f

  act_on-IsHouse :
      (v : WriteRisk) (phone : Text) (m : Option Text) (dedup reply : Text) (ws : List WriteIntent)
      → AllFor user ws
      → Holds (IsHouse number user) (act_on service v user phone m dedup reply ws)
  unfolding act_on commit_and_reply
  act_on-IsHouse WriteRisk.safe phone m dedup reply ws f =
      commit-IsHouse dedup (reply_key dedup) _ (All-insert _ ws _ f refl)
  act_on-IsHouse (WriteRisk.needs_confirmation reason summary) phone m dedup reply ws f =
      Holds-bind (IsHouse number user) _ _
        (Holds-try_execute (IsHouse number user) _
          λ db. asked-IsHouse number user service.engine phone m summary _ _ db (All-keep _ _ ws f))
        λ _. commit-IsHouse dedup (reply_key dedup) _ (
          All-insert _ _ _ (rewritten_all number user _ _ (All-keep _ is_conversation_turn ws f))
            refl)
  act_on-IsHouse (WriteRisk.reject reason) phone m dedup reply ws f =
      commit-IsHouse dedup (reply_key dedup) _ (
        All-insert _ _ _ (rewritten_all number user _ _ (All-keep _ is_conversation_turn ws f))
          refl)

  answer-IsHouse :
      (phone dedup : Text) (reply : ConfirmReply) (pending : ConfirmationRow)
      → AllFor user pending.payload
      → Holds (IsHouse number user) (answer_confirmation service user phone dedup reply pending)
  unfolding answer_confirmation cancel_pending_confirmations
  answer-IsHouse phone dedup ConfirmReply.cancel pending f =
      let cancelled =
        WriteIntent.outbound_reply user phone (codes "okay, cancelled — nothing changed.")
          (some (reply_key dedup)) in
      Holds-bind (IsHouse number user) (query (cancel_pending_confirmations user)) _
        (Holds-query (IsHouse number user) _ λ db h.
          IsHouse-same number user db _ refl refl
            (cancelled-payloads number user db.pending_confirmations) refl h)
        λ _. commit-IsHouse dedup (reply_key dedup) (cancelled ∷ []) (refl, tt)
  answer-IsHouse phone dedup ConfirmReply.agree pending f =
      commit-IsHouse dedup (reply_key dedup) _ (
        All-insert (λ w. intent_user w ≡ user)
          (WriteIntent.consume_confirmation user pending.id ∷ pending.payload) _ (refl, f) refl)

  latest-IsHouse :
      (phone dedup : Text) (reply : ConfirmReply) (latest : Option ConfirmationRow)
      → Waits number user latest
      → Holds (IsHouse number user) (answer_latest service user phone dedup reply latest)
  unfolding answer_latest
  latest-IsHouse phone dedup reply none f = Holds-pure (IsHouse number user) false
  latest-IsHouse phone dedup reply (some pending) f =
      Holds-bind (IsHouse number user) _ _ (answer-IsHouse phone dedup reply pending f)
        λ _. Holds-pure (IsHouse number user) true

  resolve-IsHouse :
      (phone dedup : Text) (reply : Option ConfirmReply)
      → Holds (IsHouse number user) (resolve_if_reply service user phone dedup reply)
  unfolding resolve_pending_confirmation
  resolve-IsHouse phone dedup none = Holds-pure (IsHouse number user) false
  resolve-IsHouse phone dedup (some reply) =
      Holds-look_bind (IsHouse number user) (Waits number user)
        (λ db. latest_pending_confirmation user db.now db) _ (latest-Waits number user)
        (latest-IsHouse phone dedup reply)

  module _ (text phone : Text) (m : Option Text) (dedup : Text) where
    take-IsHouse :
        (answer : AgentAnswer)
        → Answers user answer
        → Holds (IsHouse number user) (take_answer service text user phone m dedup answer)
    unfolding take_answer send_message
    take-IsHouse (AgentAnswer.broken e) f = Holds-silent (IsHouse number user) _ λ w. refl
    take-IsHouse (AgentAnswer.failure sorry) f = Holds-silent (IsHouse number user) _ λ w. refl
    take-IsHouse (AgentAnswer.output said ws) f =
        Holds-bind (IsHouse number user)
          (read (append_budget_reaction service.calendar service.offset_minutes user said ws)) _
          (Holds-read (IsHouse number user) _)
          λ reply. act_on-IsHouse (verdict service text ws) phone m dedup reply ws f

    module _ (agent : (db : Database) → Answers user (service.run_agent text user db)) where
      turn-IsHouse :
          (resolved : Bool)
          → Holds (IsHouse number user) (unless_resolved service text user phone m dedup resolved)
      unfolding unless_resolved
      turn-IsHouse true = Holds-pure (IsHouse number user) tt
      turn-IsHouse false =
          Holds-look_bind (IsHouse number user) (Answers user) (service.run_agent text user) _
            (λ db h. agent db) take-IsHouse

      claimed-IsHouse :
          (c : ClaimResult) (w : World)
          → resolve_user_id service.engine phone w.db ≡ ok (user, w.db)
          → IsHouse number user w.db
          → IsHouse number user (final (after_claim service phone text m dedup c w)).db
      unfolding after_claim
      claimed-IsHouse ClaimResult.skip w e h = h
      claimed-IsHouse ClaimResult.process w e h =
          rw (e, final)
            ((Holds-bind (IsHouse number user)
                (resolve_if_reply service user phone dedup (confirm_reply text)) _
                (resolve-IsHouse phone dedup (confirm_reply text)) turn-IsHouse).run
              w h)

pub resolved :
    (pg : Engine) (phone : Text) (user : Uuid) (db : Database)
    → Owns phone user db.users
    → resolve_user_id pg phone db ≡ ok (user, db)
unfolding resolve_user_id
resolved pg phone user db o = ground (arith, o)

claim_slot-IsHouse :
    (number : Text) (user : Uuid) (m : Text) (db : Database)
    → IsHouse number user db
    → IsHouse number user (claim_slot m db.now db).1
unfolding claim_slot
claim_slot-IsHouse number user m db h =
    IsHouse-same number user db _ (ground arith) (ground arith) (ground arith) (ground arith) h

-- A turn keeps the user's ledger well formed, and the writes that wait for a "yes" the user's,
-- however it ends: by a reply, by the answer to a confirmation, by a refusal or by an error. The
-- allowed number is the user's, and what the agent answers are writes for the user.
pub handle-IsHouse :
    (service : Service) (user : Uuid) (phone text : Text) (m : Option Text) (w : World)
    → ((db : Database) → Answers user (service.run_agent text user db))
    → IsHouse service.allowed_phone user w.db
    → IsHouse service.allowed_phone user (final (handle service phone text m w)).db
unfolding handle handle_allowed
handle-IsHouse service user phone text m w agent h =
    elim (Bool-cases (is_allowed phone service.allowed_phone)) [
      | inl a ↦ rw a (
          let key = unwrap_or (content_dedup_key service.sha256_hex phone text w.db.now) m in
          let house = claim_slot-IsHouse service.allowed_phone user key w.db h in
          claimed-IsHouse service service.allowed_phone user text phone m key agent
            (claim_slot key w.db.now w.db).0 _
            (resolved service.engine phone user _ (
              subst
                (λ n.
                  map_some (λ (u : UserRow). u.id)
                    (find (λ u. text_eq u.phone n) (claim_slot key w.db.now w.db).1.users)
                  ≡ some user)
                (sym ((is_allowed_iff phone service.allowed_phone).0 a).1) house.owner))
            house)
      | inr a ↦ rw a h
    ]
