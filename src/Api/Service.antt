-- ===== src/Api/Service.antt =====
-- crates/api/src/service.rs: the turn of one inbound message. What the handler asks of the model is
-- a field of `Service`.
pub mod Commit
pub mod Gate
pub mod Turn
pub mod House
pub mod Book
pub mod Answer
use andy.Base.{
  ℕ, Bool, true, false, not, Option, none, some, List, [], ◌∷◌, ◌++◌, map, keep, unwrap_or, ℤ, pos,
  ◌+ℤ◌, Text, codes, if◌then◌else◌,
}
use andy.Domain.{Uuid, Instant, MessageRole, WriteIntent}
use andy.Policy.{
  ConfirmReply, confirm_reply, PolicySettings, from_threshold, WriteRisk, classify_writes,
}
use andy.Shared.Allowlist.{is_allowed}
use andy.Db.Tables.{Engine, Database, ConfirmationRow}
use andy.Db.Confirmations.{
  save_pending_confirmation, latest_pending_confirmation, cancel_pending_confirmations,
}
use andy.Db.Flush.{FlushResult, flush_writes, ClaimResult, claim_slot, resolve_user_id}
use andy.Api.Program.{
  World, Outcome, ProgramError, Program, pure, fail, ◌>>=◌, ◌>>◌, execute, query, try_query,
  try_execute, look, read,
}
use andy.Shared.Time.{Calendar}
use andy.Shared.Dedup.{content_dedup_key}
use andy.Api.Reaction.{append_budget_reaction}
use andy.Api.Outbound.{Sendblue, send_message, deliver_outbound_by_dedup_key}

-- What the agent gives back: a reply and writes, the text that tells the user of its failure, or an
-- error before it could run.
pub data AgentAnswer : Type 0 where
  output : Text → List WriteIntent → AgentAnswer
  failure : Text → AgentAnswer
  broken : ProgramError → AgentAnswer

pub record Service : Type 0 where
  pub engine : Engine
  pub sendblue : Sendblue
  pub allowed_phone : Text
  pub confirm_amount_threshold_centavos : Option ℤ
  pub run_agent : Text → Uuid → Database → AgentAnswer
  pub calendar : Calendar
  -- `AppTimeConfig::offset_minutes`
  pub offset_minutes : ℤ
  pub sha256_hex : Text → Text

-- `CONFIRM_TTL_MINUTES`, in microseconds.
abbrev pub confirm_ttl : ℤ
confirm_ttl = pos 3600000000

unfoldable pub is_conversation_turn : WriteIntent → Bool
is_conversation_turn (WriteIntent.save_turn _ _ _) = true
is_conversation_turn _ = false

abbrev pub rewrite_turn : Text → WriteIntent → WriteIntent
rewrite_turn sent (WriteIntent.save_turn user MessageRole.assistant content) =
    WriteIntent.save_turn user MessageRole.assistant sent
rewrite_turn sent w = w

unfoldable pub rewrite_assistant_turn : List WriteIntent → Text → List WriteIntent
rewrite_assistant_turn turns sent = map (rewrite_turn sent) turns

abbrev pub reply_key : Text → Text
reply_key dedup_id = codes "inbound-reply:" ++ dedup_id

module _ (service : Service) where
  -- A reply is delivered if its flush committed.
  unfoldable pub after_flush : Text → FlushResult → Program (Unit {0})
  after_flush outbound_dedup_key FlushResult.superseded = pure tt
  after_flush outbound_dedup_key FlushResult.committed = do
    delivered ← deliver_outbound_by_dedup_key service.sendblue outbound_dedup_key
    pure tt

  unfoldable pub commit_and_reply_writes : Text → Text → List WriteIntent → Program (Unit {0})
  unfolding after_flush
  commit_and_reply_writes dedup_id outbound_dedup_key writes = do
    flushed ← try_query (flush_writes service.engine (some dedup_id) writes)
    after_flush outbound_dedup_key flushed

  unfoldable pub commit_and_reply :
      Text → Text → Uuid → Text → Text → List WriteIntent → Program (Unit {0})
  unfolding commit_and_reply_writes
  commit_and_reply dedup_id outbound_dedup_key user_id phone reply writes =
      commit_and_reply_writes dedup_id outbound_dedup_key
        (writes ++ WriteIntent.outbound_reply user_id phone reply (some outbound_dedup_key) ∷ [])

  -- The answer to a confirmation that is pending.
  unfoldable pub answer_confirmation :
      Uuid → Text → Text → ConfirmReply → ConfirmationRow → Program (Unit {0})
  unfolding commit_and_reply_writes
  answer_confirmation user_id phone dedup_id ConfirmReply.cancel pending = do
    cancelled ← query (cancel_pending_confirmations user_id)
    commit_and_reply_writes dedup_id (reply_key dedup_id) (
        WriteIntent.outbound_reply user_id phone (codes "okay, cancelled — nothing changed.")
          (some (reply_key dedup_id))
        ∷ [])
  answer_confirmation user_id phone dedup_id ConfirmReply.agree pending =
      commit_and_reply_writes dedup_id (reply_key dedup_id) (
        (WriteIntent.consume_confirmation user_id pending.id ∷ pending.payload)
        ++ WriteIntent.outbound_reply user_id phone
            (codes "done — " ++ pending.summary ++ codes ".") (some (reply_key dedup_id))
          ∷ [])

  unfoldable pub answer_latest :
      Uuid → Text → Text → ConfirmReply → Option ConfirmationRow → Program Bool
  unfolding answer_confirmation
  answer_latest user_id phone dedup_id reply none = pure false
  answer_latest user_id phone dedup_id reply (some pending) = do
    answer_confirmation user_id phone dedup_id reply pending
    pure true

  -- Whether the message was an answer to a pending confirmation.
  unfoldable pub resolve_pending_confirmation : Uuid → Text → Text → ConfirmReply → Program Bool
  unfolding answer_latest
  resolve_pending_confirmation user_id phone dedup_id reply = do
    latest ← look (λ db. latest_pending_confirmation user_id db.now db)
    answer_latest user_id phone dedup_id reply latest

  -- What the verdict of the safety gate does with the model's output.
  unfoldable pub act_on :
      WriteRisk → Uuid → Text → Option Text → Text → Text → List WriteIntent → Program (Unit {0})
  unfolding commit_and_reply commit_and_reply_writes rewrite_assistant_turn
  act_on WriteRisk.safe user_id phone message_id dedup_id reply writes =
      commit_and_reply dedup_id (reply_key dedup_id) user_id phone reply writes
  act_on (WriteRisk.needs_confirmation reason summary) user_id phone message_id dedup_id reply
        writes =
      let turns = keep is_conversation_turn writes in
      let ledger = keep (λ w. not (is_conversation_turn w)) writes in
      let ask =
        codes "before i do that — "
        ++ reason
        ++ codes ". confirm? ("
        ++ summary
        ++ codes "). reply yes or no." in
      (do
        try_execute λ db.
            save_pending_confirmation service.engine user_id phone message_id summary ledger
              (db.now +ℤ confirm_ttl) db
        commit_and_reply_writes dedup_id (reply_key dedup_id) (
            rewrite_assistant_turn turns ask
            ++ WriteIntent.outbound_reply user_id phone ask (some (reply_key dedup_id)) ∷ []))
  act_on (WriteRisk.reject reason) user_id phone message_id dedup_id reply writes =
      let turns = keep is_conversation_turn writes in
      let rejection = codes "i can't do that — " ++ reason ++ codes "." in
      commit_and_reply_writes dedup_id (reply_key dedup_id) (
        rewrite_assistant_turn turns rejection
        ++ WriteIntent.outbound_reply user_id phone rejection (some (reply_key dedup_id)) ∷ [])

  -- The verdict on a turn.
  abbrev pub verdict : Text → List WriteIntent → WriteRisk
  verdict text writes =
      classify_writes text writes (from_threshold service.confirm_amount_threshold_centavos)

  unfoldable pub take_answer :
      Text → Uuid → Text → Option Text → Text → AgentAnswer → Program (Unit {0})
  unfolding act_on
  take_answer text user_id phone message_id dedup_id (AgentAnswer.broken e) = fail e
  take_answer text user_id phone message_id dedup_id (AgentAnswer.failure sorry) = do
    answered ← send_message service.sendblue phone sorry
    pure tt
  take_answer text user_id phone message_id dedup_id (AgentAnswer.output said writes) = do
    reply ←
        read (append_budget_reaction service.calendar service.offset_minutes user_id said writes)
    act_on (verdict text writes) user_id phone message_id dedup_id reply writes

  -- A turn of the model, unless the message was an answer.
  unfoldable pub unless_resolved :
      Text → Uuid → Text → Option Text → Text → Bool → Program (Unit {0})
  unfolding take_answer
  unless_resolved text user_id phone message_id dedup_id true = pure tt
  unless_resolved text user_id phone message_id dedup_id false = do
    answer ← look (service.run_agent text user_id)
    take_answer text user_id phone message_id dedup_id answer

  abbrev pub resolve_if_reply : Uuid → Text → Text → Option ConfirmReply → Program Bool
  resolve_if_reply user_id phone dedup_id none = pure false
  resolve_if_reply user_id phone dedup_id (some reply) =
      resolve_pending_confirmation user_id phone dedup_id reply

  unfoldable pub after_claim : Text → Text → Option Text → Text → ClaimResult → Program (Unit {0})
  unfolding unless_resolved resolve_pending_confirmation
  after_claim phone text message_id dedup_id ClaimResult.skip = pure tt
  after_claim phone text message_id dedup_id ClaimResult.process = do
    user_id ← try_query (resolve_user_id service.engine phone)
    resolved ← resolve_if_reply user_id phone dedup_id (confirm_reply text)
    unless_resolved text user_id phone message_id dedup_id resolved

  unfoldable pub handle_allowed : Text → Text → Option Text → Program (Unit {0})
  unfolding after_claim
  handle_allowed phone text message_id = do
    dedup_id ←
        look λ db. unwrap_or (content_dedup_key service.sha256_hex phone text db.now) message_id
    claimed ← query λ db. claim_slot dedup_id db.now db
    after_claim phone text message_id dedup_id claimed

  unfoldable pub handle : Text → Text → Option Text → Program (Unit {0})
  unfolding handle_allowed
  handle phone text message_id =
      if not (is_allowed phone service.allowed_phone)
      then pure tt
      else handle_allowed phone text message_id
