-- ===== src/Api/Service/Turn.antt =====
-- Whole turns of crates/api/src/service.rs.
use andy.Base.{◌≡◌, ◌≢◌, refl, false, Option, none, some, Text, unwrap_or, inl, inr, Bool-cases}
use andy.Domain.{Uuid}
use andy.Policy.{confirm_reply, WriteRisk}
use andy.Shared.Allowlist.{normalize_phone, is_allowed}
use andy.Shared.Allowlist.Normal.{is_allowed_iff}
use andy.Db.Tables.{Database, Ensures-map}
use andy.Db.Flush.{ClaimResult, claim_slot, resolve_user_id}
use andy.Db.Flush.Inbound.{Completed, claim_slot-skips}
use andy.Db.Flush.Talk.{SameBooks, SameBooks-refl, SameBooks-trans}
use andy.Api.Program.{World, Outcome, query, try_query, look, read, final}
use andy.Shared.Dedup.{content_dedup_key}
use andy.Api.Reaction.{append_budget_reaction}
use andy.Api.Outbound.{send_message}
use andy.Api.Service.{
  Service, AgentAnswer, verdict, take_answer, unless_resolved, after_claim, handle_allowed, handle,
}
use andy.Api.Program.Holds.{
  Holds-bind, Holds-query, Holds-try_query, Holds-silent, Holds-read, Holds-pure,
}
use andy.Api.Service.Gate.{Stays, act_on-Stays, slot-SameBooks, user-SameBooks}

-- The model failed, or its writes are not judged safe.
abbrev pub Held : Service → Text → AgentAnswer → Type 0
Held service text (AgentAnswer.failure sorry) = Unit
Held service text (AgentAnswer.broken e) = Unit
Held service text (AgentAnswer.output said writes) = verdict service text writes ≢ WriteRisk.safe

module _ (service : Service) (old : Database) (phone text : Text) (m : Option Text) where
  take_answer-Stays :
      (user : Uuid) (dedup : Text) (answer : AgentAnswer)
      → Held service text answer
      → Stays old (take_answer service text user phone m dedup answer)
  unfolding take_answer send_message
  take_answer-Stays user dedup (AgentAnswer.broken e) h = Holds-silent (SameBooks old) _ λ w. refl
  take_answer-Stays user dedup (AgentAnswer.failure sorry) h =
      Holds-silent (SameBooks old) _ λ w. refl
  take_answer-Stays user dedup (AgentAnswer.output said writes) h =
      Holds-bind (SameBooks old)
        (read (append_budget_reaction service.calendar service.offset_minutes user said writes)) _
        (Holds-read (SameBooks old) _)
        λ reply. act_on-Stays service old _ user phone m dedup reply writes h

  module _
      (held : (user : Uuid) (db : Database)
        → Held service text (service.run_agent text user db)) where
    turn-Stays :
        (user : Uuid) (dedup : Text)
        → Stays old (unless_resolved service text user phone m dedup false)
    unfolding unless_resolved
    turn-Stays user dedup = record {
      run = λ w b.
          (take_answer-Stays user dedup (service.run_agent text user w.db) (held user w.db)).run w
            b;
    }

    after_claim-Stays :
        (dedup : Text) (c : ClaimResult)
        → confirm_reply text ≡ none
        → Stays old (after_claim service phone text m dedup c)
    unfolding after_claim
    after_claim-Stays dedup ClaimResult.skip e = Holds-pure (SameBooks old) tt
    after_claim-Stays dedup ClaimResult.process e =
        Holds-bind (SameBooks old) (try_query (resolve_user_id service.engine phone)) _
          (Holds-try_query (SameBooks old) _ λ db b.
            Ensures-map (λ r. SameBooks db r.1) _ _ (λ r. SameBooks-trans b)
              (user-SameBooks service.engine phone db))
          λ user. rw e (turn-Stays user dedup)

    handle_allowed-Stays :
        confirm_reply text ≡ none → Stays old (handle_allowed service phone text m)
    unfolding handle_allowed
    handle_allowed-Stays e =
        Holds-bind (SameBooks old)
          (look λ db. unwrap_or (content_dedup_key service.sha256_hex phone text db.now) m) _
          (Holds-silent (SameBooks old) _ λ w. refl)
          λ dedup.
            Holds-bind (SameBooks old) (query λ db. claim_slot dedup db.now db) _
              (Holds-query (SameBooks old) _
                λ db b. SameBooks-trans b (slot-SameBooks dedup db.now db))
              λ c. after_claim-Stays dedup c e

-- Whatever the model proposes, a turn whose writes are not judged safe leaves the user's records as
-- they were: transactions, goals, budgets, memories, reminders, transfers and the audit trail. It
-- holds however the turn ends, for a message that is no answer to a confirmation.
pub handle-holds_back :
    (service : Service) (phone text : Text) (m : Option Text) (w : World)
    → confirm_reply text ≡ none
    → ((user : Uuid) (db : Database) → Held service text (service.run_agent text user db))
    → SameBooks w.db (final (handle service phone text m w)).db
unfolding handle
handle-holds_back service phone text m w e held =
    elim (Bool-cases (is_allowed phone service.allowed_phone)) [
      | inl a ↦
          rw a ((handle_allowed-Stays service w.db phone text m held e).run w (SameBooks-refl w.db))
      | inr a ↦ rw a (SameBooks-refl w.db)
    ]

-- A number that does not normalise to the allowed one changes nothing and is sent nothing.
pub handle-stranger :
    (service : Service) (phone text : Text) (m : Option Text) (w : World)
    → normalize_phone phone ≢ normalize_phone service.allowed_phone
    → handle service phone text m w ≡ Outcome.done tt w
unfolding handle
handle-stranger service phone text m w differs =
    elim (Bool-cases (is_allowed phone service.allowed_phone)) [
      | inl a ↦ absurd (differs ((is_allowed_iff phone service.allowed_phone).0 a).1)
      | inr a ↦ rw a refl
    ]

-- A message that was handled changes nothing when it is delivered again, and nothing is sent.
pub handle-again :
    (service : Service) (phone text m : Text) (w : World)
    → Completed m w.db
    → handle service phone text (some m) w ≡ Outcome.done tt w
unfolding handle handle_allowed after_claim
handle-again service phone text m w h = elim (Bool-cases (is_allowed phone service.allowed_phone)) [
  | inl a ↦ rw a (rw (claim_slot-skips m w.db.now w.db h) refl)
  | inr a ↦ rw a refl
]
