-- ===== src/Api/Credentials.antt =====
-- The helpers of crates/api/src/routes.rs that read what a request presents. Texts are their bytes.
use andy.Base.{
  ℕ, ◌+◌, ◌-◌, ◌*◌, Bool, true, false, not, ◌&&◌, Option, none, some, List, [], ◌∷◌, all, drop,
  starts_with, leb, ltb, unwrap_or, Text, text_eq, codes, is_empty, is_ascii_digit, digits_from,
  split, split_once, ◌==◌, if◌then◌else◌,
}
use andy.Shared.Env.{Env}
use andy.Shared.Security.{constant_time_equal}
use andy.Api.Inbound.{RawInbound}

-- `MAX_BODY_BYTES`
abbrev pub max_body_bytes : ℕ
max_body_bytes = 16384

-- SHA-256 in hex, `String::from_utf8_lossy` and the JSON decoder.
pub record Codecs : Type 0 where
  pub sha256_hex : Text → Text
  pub from_utf8_lossy : Text → Text
  pub decode : Text → Option RawInbound

-- `str::parse::<usize>`
unfoldable pub parse_usize : Text → Option ℕ
parse_usize s =
    let digits = if starts_with (codes "+") s then drop 1 s else s in
    let n = digits_from 0 digits in
    if not (is_empty digits) && (all is_ascii_digit digits && leb n 18446744073709551615)
    then some n
    else none

unfoldable pub declared_content_length_too_large : Option Text → Bool
unfolding parse_usize
declared_content_length_too_large none = false
declared_content_length_too_large (some value) = elim (parse_usize value) [
  | none ↦ false
  | some len ↦ ltb max_body_bytes len
]

-- `char::to_digit(16)`
unfoldable pub hex_digit : ℕ → Option ℕ
hex_digit c =
    if leb b'0' c && leb c b'9'
    then some (c - b'0')
    else if leb b'a' c && leb c b'f'
    then some (c - b'a' + 10)
    else if leb b'A' c && leb c b'F'
    then some (c - b'A' + 10)
    else none

abbrev pub hex_byte : Option ℕ → Option ℕ → Option ℕ
hex_byte (some hi) (some lo) = some (hi * 16 + lo)
hex_byte none lo = none
hex_byte (some hi) none = none

abbrev pub plus_to_space : ℕ → ℕ
plus_to_space c = if c == b'+' then b' ' else c

-- The bytes, before they are read as a text.
unfoldable pub decode_bytes : Text → Text
unfolding hex_digit
decode_bytes [] = []
decode_bytes (c ∷ []) = plus_to_space c ∷ []
decode_bytes (c ∷ (h ∷ [])) = plus_to_space c ∷ (plus_to_space h ∷ [])
decode_bytes (c ∷ (h ∷ (l ∷ rest))) =
    let after = decode_bytes rest in
    let next = decode_bytes (h ∷ (l ∷ rest)) in
    if c == b'%'
    then elim (hex_byte (hex_digit h) (hex_digit l)) [ some b ↦ b ∷ after | none ↦ c ∷ next ]
    else plus_to_space c ∷ next

module _ (codecs : Codecs) where
  unfoldable pub percent_decode : Text → Text
  unfolding decode_bytes
  percent_decode value = codecs.from_utf8_lossy (decode_bytes value)

  -- The loop of `query_param`, with what was found so far.
  unfoldable pub param_from : Text → Option Text → List Text → Option Text
  unfolding percent_decode
  param_from key found [] = found
  param_from key found (pair ∷ pairs) =
      let once =
        param_from key (some (percent_decode (unwrap_or ([], []) (split_once b'=' pair)).1))
          pairs in
      let skipped = param_from key found pairs in
      elim (split_once b'=' pair) [
        | none ↦ none
        | some kv ↦ if text_eq kv.0 key then elim found [ none ↦ once | some v ↦ none ] else skipped
      ]

  unfoldable pub query_param : Option Text → Text → Option Text
  unfolding param_from
  query_param none key = none
  query_param (some query) key = param_from key none (split (λ c. c == b'&') query)

  -- `token_matches_hash` of crates/shared/src/security.rs.
  unfoldable pub token_matches_hash : Text → Text → Bool
  token_matches_hash token expected_hex = constant_time_equal (codecs.sha256_hex token) expected_hex

  unfoldable pub webhook_token_valid : Option Text → Env → Bool
  unfolding token_matches_hash
  webhook_token_valid none env = false
  webhook_token_valid (some actual) env = elim env.webhook_url_token_sha256 [
    | some expected_hash ↦ token_matches_hash actual expected_hash
    | none ↦
        not (is_empty env.webhook_url_token) && constant_time_equal actual env.webhook_url_token
  ]

unfoldable pub signing_secret_valid : Option Text → Env → Bool
signing_secret_valid presented env = elim env.sendblue_signing_secret [
  | none ↦ true
  | some expected ↦ constant_time_equal (unwrap_or [] presented) expected
]
