-- ===== src/Tests/Turn.antt =====
-- Turns of crates/api/src/service.rs at concrete messages.
use andy.Shared.Dedup.{key_input, strip_control, is_control, minute_bucket}
use andy.Shared.Dedup.Injective.{key_input-injective}
use andy.Base.{
  trim, is_whitespace, div_euclid, ◌+ℤ◌, ◌*ℤ◌, decimal, pos, ◌≡◌, ◌≢◌, refl, Bool, true, false,
  none, some, List, [], ◌∷◌, codes, trim, trim_matches, is_ascii_alphanumeric, lower_char, ap,
}
use andy.Domain.{WriteIntent, MessageRole}
use andy.Policy.{
  ConfirmReply, confirm_reply, WriteRisk, classify_writes, is_destructive, is_bookkeeping,
  is_one_off_memory, is_constructive_ledger,
}
use andy.Db.Flush.Talk.{SameBooks}
use andy.Api.Program.{World, Outcome, final}
use andy.Api.Service.{Service, AgentAnswer, verdict, answer_confirmation, handle}
use andy.Api.Service.Answer.{answer_confirmation-Settled}
use andy.Api.Service.Turn.{handle-holds_back, handle-again}
use andy.Tests.Libraries.{long_months}
use andy.Tests.Fixtures.{engine, start, waiting, confirmed}

-- A model that always wants to delete the last transaction.
abbrev eager : List WriteIntent
eager =
    WriteIntent.delete_last 1 (some 50) false
    ∷ WriteIntent.save_turn 1 MessageRole.assistant (codes "done")
    ∷ []

abbrev pub service : Service
service = record {
  engine = engine;
  sendblue = λ n phone content. none;
  allowed_phone = codes "+63917";
  confirm_amount_threshold_centavos = none;
  run_agent = λ text user db. AgentAnswer.output (codes "done") eager;
  calendar = long_months;
  offset_minutes = pos 480;
  sha256_hex = λ s. s;
}

abbrev world : World
world = record { db = start; sent = [] }

abbrev world_after : World
world_after = record { db = confirmed; sent = [] }

no_answer : confirm_reply (codes "undo") ≡ none
unfolding confirm_reply trim trim_matches is_ascii_alphanumeric lower_char
no_answer = refl

abbrev is_safe : WriteRisk → Bool
is_safe WriteRisk.safe = true
is_safe (WriteRisk.needs_confirmation reason summary) = false
is_safe (WriteRisk.reject reason) = false

unsafe : verdict service (codes "undo") eager ≢ WriteRisk.safe
unfolding classify_writes is_one_off_memory is_destructive is_bookkeeping is_constructive_ledger
unsafe e = (let f : false ≡ true = ap is_safe e in cc)

handle-holds_back_example :
    SameBooks start (final (handle service (codes "+63 917") (codes "undo") none world)).db
handle-holds_back_example =
    handle-holds_back service (codes "+63 917") (codes "undo") none world no_answer
      λ user db. unsafe

handle-again_example :
    handle service (codes "+63917") (codes "undo") (some (codes "m2")) world_after
    ≡ Outcome.done tt world_after
handle-again_example =
    handle-again service (codes "+63917") (codes "undo") (codes "m2") world_after (refl, refl)

answer_confirmation-Settled_example :
    final (
      answer_confirmation service 1
        (codes "+63917")
        (codes "m5")
        ConfirmReply.agree
        waiting
        world_after)
    ≡ world_after
answer_confirmation-Settled_example =
    answer_confirmation-Settled service 1 (codes "+63917") (codes "m5") waiting world_after refl

-- The same message within one minute, with spaces around it.
same_key :
    key_input (codes "+1") (codes " hi") (pos 10000000)
    ≡ key_input (codes "+1") (codes "hi") (pos 50000000)
unfolding key_input strip_control is_control minute_bucket trim is_whitespace div_euclid ◌+ℤ◌ ◌*ℤ◌
    decimal
same_key = refl

key_input-injective_example :
    (strip_control (codes "+1") ≡ strip_control (codes "+1"))
    × (strip_control (trim (codes " hi")) ≡ strip_control (trim (codes "hi")))
    × (div_euclid (pos 10000000) 60000000 ≡ div_euclid (pos 50000000) 60000000)
key_input-injective_example =
    key_input-injective (codes "+1") (codes "+1") (codes " hi") (codes "hi") (pos 10000000)
      (pos 50000000) same_key
