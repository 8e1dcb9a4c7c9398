-- ===== src/Policy.antt =====
-- crates/ai/src/policy.rs: the deterministic safety gate between the agent and the ledger.
pub mod Total
pub mod Classify
use andy.Base.{
  ℕ, ◌+◌, Bool, true, false, not, ◌&&◌, ◌||◌, Option, none, some, List, [], ◌∷◌, ◌++◌, map, length,
  keep, any, filter_map, ℤ, pos, ltb_ℤ, leb_ℤ, max_ℤ, ltb, if◌then◌else◌, ◌==◌, saturating_add,
  saturating_sub, Text, codes, text_eq, trim, trim_matches, to_ascii_lowercase, contains,
  is_ascii_digit, is_ascii_alphanumeric, one_of, join, decimal, is_empty,
}
use andy.Domain.{WriteIntent, TxKind}

-- `DEFAULT_CONFIRM_THRESHOLD_CENTAVOS`
abbrev pub default_confirm_threshold_centavos : ℤ
default_confirm_threshold_centavos = pos 5000000

-- `MAX_WRITES_PER_TURN`
abbrev pub max_writes_per_turn : ℕ
max_writes_per_turn = 5

pub record PolicySettings : Type 0 where
  pub confirm_threshold_centavos : ℤ

unfoldable pub from_threshold : Option ℤ → PolicySettings
from_threshold none = record { confirm_threshold_centavos = default_confirm_threshold_centavos }
from_threshold (some t) = record {
  confirm_threshold_centavos = if ltb_ℤ (pos 0) t then t else default_confirm_threshold_centavos;
}

pub data WriteRisk : Type 0 where
  safe : WriteRisk
  -- reason, summary
  needs_confirmation : Text → Text → WriteRisk
  reject : Text → WriteRisk

pub data ConfirmReply : Type 0 where
  agree cancel : ConfirmReply

-- The two lists of `confirm_reply`.
abbrev yes_words : List Text
yes_words =
    codes "yes"
    ∷ codes "y"
    ∷ codes "yeah"
    ∷ codes "yep"
    ∷ codes "yup"
    ∷ codes "confirm"
    ∷ codes "confirmed"
    ∷ codes "ok"
    ∷ codes "okay"
    ∷ codes "sure"
    ∷ codes "go ahead"
    ∷ codes "do it"
    ∷ codes "proceed"
    ∷ codes "g"
    ∷ codes "sige"
    ∷ codes "oo"
    ∷ []

abbrev no_words : List Text
no_words =
    codes "no"
    ∷ codes "n"
    ∷ codes "nope"
    ∷ codes "cancel"
    ∷ codes "stop"
    ∷ codes "nvm"
    ∷ codes "nevermind"
    ∷ codes "never mind"
    ∷ codes "wag"
    ∷ codes "huwag"
    ∷ codes "dont"
    ∷ []

unfoldable pub confirm_reply : Text → Option ConfirmReply
confirm_reply text =
    let normalized =
      trim_matches (λ c. not (is_ascii_alphanumeric c)) (to_ascii_lowercase (trim text)) in
    if one_of normalized yes_words
    then some agree
    else if one_of normalized no_words
    then some cancel
    else none

unfoldable pub is_destructive : WriteIntent → Bool
is_destructive (WriteIntent.delete_last _ _ _) = true
is_destructive (WriteIntent.delete_goal _ _) = true
is_destructive (WriteIntent.remove_budget _ _) = true
is_destructive (WriteIntent.remove_recurring _ _) = true
is_destructive (WriteIntent.forget_memory _ _) = true
is_destructive _ = false

unfoldable pub is_constructive_ledger : WriteIntent → Bool
is_constructive_ledger (WriteIntent.transaction _ _ _ _ _ _ _) = true
is_constructive_ledger (WriteIntent.goal_contribution _ _ _ _) = true
is_constructive_ledger (WriteIntent.edit_last _ _ _ _ _ _) = true
is_constructive_ledger (WriteIntent.create_goal _ _ _ _) = true
is_constructive_ledger (WriteIntent.edit_goal _ _ _ _ _) = true
is_constructive_ledger (WriteIntent.set_budget _ _ _) = true
is_constructive_ledger (WriteIntent.add_recurring _ _) = true
is_constructive_ledger (WriteIntent.edit_recurring _ _ _ _ _ _ _) = true
is_constructive_ledger (WriteIntent.transfer _ _ _ _ _ _) = true
is_constructive_ledger _ = false

unfoldable pub is_bookkeeping : WriteIntent → Bool
is_bookkeeping (WriteIntent.save_turn _ _ _) = true
is_bookkeeping (WriteIntent.outbound_reply _ _ _ _) = true
is_bookkeeping (WriteIntent.consume_confirmation _ _) = true
is_bookkeeping _ = false

-- The amount that `max_amount_centavos` and `total_amount_centavos` take from an intent.
unfoldable pub amount_of : WriteIntent → Option ℤ
amount_of (WriteIntent.transaction _ _ amount _ _ _ _) = some amount
amount_of (WriteIntent.goal_contribution _ _ amount _) = some amount
amount_of (WriteIntent.transfer _ amount _ _ _ _) = some amount
amount_of (WriteIntent.edit_last _ _ _ amount _ _) = amount
amount_of (WriteIntent.set_budget _ _ limit) = some limit
amount_of (WriteIntent.create_goal _ _ target _) = some target
amount_of _ = none

-- `Iterator::max`
abbrev pub maximum : List ℤ → Option ℤ
maximum [] = none
maximum (a ∷ as') = elim (maximum as') [ none ↦ some a | some b ↦ some (max_ℤ a b) ]

unfoldable pub max_amount_centavos : List WriteIntent → Option ℤ
max_amount_centavos writes = maximum (filter_map amount_of writes)

-- `i64::saturating_abs`
unfoldable pub saturating_abs : ℤ → ℤ
saturating_abs a = if ltb_ℤ a (pos 0) then saturating_sub (pos 0) a else a

-- `Iterator::fold` with the closure of `total_amount_centavos`.
unfoldable pub fold_total : ℤ → List ℤ → ℤ
fold_total acc [] = acc
fold_total acc (a ∷ as') = fold_total (saturating_add acc (saturating_abs a)) as'

unfoldable pub total_amount_centavos : List WriteIntent → ℤ
total_amount_centavos writes = fold_total (pos 0) (filter_map amount_of writes)

unfoldable pub describe : WriteIntent → Text
describe (WriteIntent.transaction TxKind.income _ _ _ _ _ _) = codes "log income"
describe (WriteIntent.transaction TxKind.expense _ _ _ _ _ _) = codes "log expense"
describe (WriteIntent.goal_contribution _ _ _ _) = codes "add to a goal"
describe (WriteIntent.edit_last _ _ _ _ _ _) = codes "edit the last entry"
describe (WriteIntent.delete_last _ _ _) = codes "delete the last entry"
describe (WriteIntent.create_goal _ _ _ _) = codes "create a goal"
describe (WriteIntent.set_budget _ _ _) = codes "set a budget"
describe (WriteIntent.remove_budget _ _) = codes "remove a budget"
describe (WriteIntent.edit_goal _ _ _ _ _) = codes "edit a goal"
describe (WriteIntent.delete_goal _ _) = codes "delete a goal"
describe (WriteIntent.save_memory _ _ _) = codes "save a memory"
describe (WriteIntent.forget_memory _ _) = codes "forget a memory"
describe (WriteIntent.add_recurring _ _) = codes "add a recurring reminder"
describe (WriteIntent.remove_recurring _ _) = codes "remove a recurring reminder"
describe (WriteIntent.edit_recurring _ _ _ _ _ _ _) = codes "edit a recurring reminder"
describe (WriteIntent.transfer _ _ _ _ _ _) = codes "move money between accounts"
describe (WriteIntent.save_turn _ _ _) = codes "note the conversation"
describe (WriteIntent.outbound_reply _ _ _ _) = codes "note the conversation"
describe (WriteIntent.consume_confirmation _ _) = codes "apply a confirmed action"

-- The writes that the policy counts.
abbrev pub ledger_writes : List WriteIntent → List WriteIntent
ledger_writes = keep (λ w. not (is_bookkeeping w))

unfoldable pub summarize : List WriteIntent → Text
unfolding describe is_bookkeeping
summarize writes = join (codes ", ") (map describe (ledger_writes writes))

-- `SPEND_CUES`
abbrev spend_cues : List Text
spend_cues =
    codes "spent"
    ∷ codes "bought"
    ∷ codes "paid"
    ∷ codes "ordered"
    ∷ codes "logged"
    ∷ codes "grab"
    ∷ codes "lunch"
    ∷ codes "dinner"
    ∷ codes "coffee"
    ∷ []

unfoldable pub looks_like_one_off_transaction : Text → Bool
looks_like_one_off_transaction content =
    let normalized = to_ascii_lowercase content in
    any is_ascii_digit normalized && any (λ cue. contains cue normalized) spend_cues

-- The test of the loop that rejects a turn.
unfoldable pub is_one_off_memory : WriteIntent → Bool
is_one_off_memory (WriteIntent.save_memory _ content _) = looks_like_one_off_transaction content
is_one_off_memory _ = false

-- `max_amount_centavos(writes)` is some amount at or above the threshold.
unfoldable pub has_large_amount : List WriteIntent → ℤ → Bool
has_large_amount writes threshold = elim (max_amount_centavos writes) [
  | none ↦ false
  | some max ↦ leb_ℤ threshold max
]

unfoldable pub classify_writes : Text → List WriteIntent → PolicySettings → WriteRisk
classify_writes _ writes settings =
    let ledger = ledger_writes writes in
    let destructive = length (keep is_destructive ledger) in
    let constructive = length (keep is_constructive_ledger ledger) in
    let summary = summarize writes in
    let threshold = settings.confirm_threshold_centavos in
    if length ledger == 0
    then safe
    else if any is_one_off_memory ledger
    then reject (codes "refusing to store a one-off transaction as durable memory")
    else if ltb 0 destructive
    then needs_confirmation
        (if ltb 0 constructive
          then codes "this turn both removes and changes records"
          else codes "this removes saved data")
        summary
    else if ltb max_writes_per_turn (length ledger)
    then needs_confirmation (decimal (length ledger) ++ codes " changes in one message") summary
    else if has_large_amount writes threshold
    then needs_confirmation (codes "that's a large amount") summary
    else if leb_ℤ threshold (total_amount_centavos writes)
    then needs_confirmation (codes "that's a large total") summary
    else safe
