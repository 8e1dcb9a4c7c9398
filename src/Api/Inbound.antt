-- ===== src/Api/Inbound.antt =====
-- crates/api/src/inbound.rs: what a webhook body asks for. The JSON of the body is decoded by a
-- library, a parameter.
use andy.Base.{
  Bool, ◌||◌, not, Option, none, some, Text, text_eq, option_eq, trim, is_empty, codes,
  if◌then◌else◌,
}

pub record InboundMessage : Type 0 where
  pub phone : Text
  pub text : Text
  pub message_id : Option Text

pub data InboundOutcome : Type 0 where
  actionable : InboundMessage → InboundOutcome
  ignore malformed : InboundOutcome

pub record RawInbound : Type 0 where
  pub status : Option Text
  pub number : Option Text
  pub content : Option Text
  pub message_handle : Option Text
  pub is_outbound : Option Bool

abbrev pub is_true : Option Bool → Bool
is_true none = Bool.false
is_true (some b) = b

-- A message with a number and a content.
abbrev pub of_content : Option Text → Text → Text → InboundOutcome
of_content message_handle phone content =
    let text = trim content in
    if is_empty phone || is_empty text
    then InboundOutcome.ignore
    else InboundOutcome.actionable
        (record { phone = phone; text = text; message_id = message_handle })

abbrev pub of_fields : Option Text → Option Text → Option Text → InboundOutcome
of_fields message_handle (some phone) (some content) = of_content message_handle phone content
of_fields message_handle none content = InboundOutcome.ignore
of_fields message_handle (some phone) none = InboundOutcome.ignore

-- `serde_json::from_slice`, `none` on an error.
module _ (decode : Text → Option RawInbound) where
  unfoldable pub parse_inbound : Text → InboundOutcome
  parse_inbound body = elim (decode body) [
    | none ↦ InboundOutcome.malformed
    | some raw ↦
        if is_true raw.is_outbound || not (option_eq text_eq raw.status (some (codes "RECEIVED")))
        then InboundOutcome.ignore
        else of_fields raw.message_handle raw.number raw.content
  ]
