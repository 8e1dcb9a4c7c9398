-- ===== src/Shared/Env.antt =====
-- The settings of crates/shared/src/env.rs, read through a getter of environment variables.
pub mod Guards
use andy.Base.{
  ℕ, Bool, not, ◌&&◌, ◌||◌, Option, none, some, [], all, drop, starts_with, is_empty, length, leb,
  leb_ℤ, ◌-ℤ◌, abs_ℕ, ℤ, pos, negsuc, fits_i64, Text, codes, trim, to_ascii_lowercase,
  is_ascii_digit, digits_from, ◌==◌, if◌then◌else◌,
}
use andy.Shared.Time.{manila_offset_minutes}

pub record Env : Type 0 where
  pub database_url : Text
  pub sendblue_api_key : Text
  pub sendblue_api_secret : Text
  pub sendblue_from_number : Text
  pub webhook_url_token : Text
  pub webhook_url_token_sha256 : Option Text
  pub sendblue_signing_secret : Option Text
  pub cron_secret : Text
  pub allowed_phone : Text
  pub openrouter_api_key : Option Text
  pub openrouter_model : Option Text
  pub openrouter_base_url : Option Text
  pub app_timezone : Text
  pub app_timezone_offset_minutes : ℤ
  pub confirm_amount_threshold_centavos : Option ℤ
  pub inbound_rate_limit : Option ℤ
  pub inbound_rate_window_seconds : Option ℤ

pub data EnvError : Type 0 where
  missing : Text → EnvError
  invalid_offset invalid_token_hash : EnvError

pub data Loaded {ℓ} (A : Type ℓ) : Type ℓ where
  refused : EnvError → Loaded A
  loaded : A → Loaded A

infixl 5 ◌>>=◌
abbrev pub ◌>>=◌ {ℓ κ} : {A : Type ℓ} {B : Type κ} → Loaded A → (A → Loaded B) → Loaded B
refused e >>= f = refused e
loaded a >>= f = f a

abbrev pub is_blank : Text → Bool
is_blank value = is_empty (trim value)

-- The digits of a number after its sign.
abbrev pub signless : Text → Text
signless s = if starts_with (codes "+") s || starts_with (codes "-") s then drop 1 s else s

-- `str::parse` of an integer, without the bounds of its type.
unfoldable pub parse_int : Text → Option ℤ
parse_int s =
    let digits = signless s in
    let n = digits_from 0 digits in
    if is_empty digits || not (all is_ascii_digit digits)
    then none
    else some (if starts_with (codes "-") s then pos 0 -ℤ pos n else pos n)

abbrev pub within : (ℤ → Bool) → Option ℤ → Option ℤ
within fits none = none
within fits (some n) = if fits n then some n else none

abbrev pub fits_i32 : ℤ → Bool
fits_i32 n = leb_ℤ (negsuc 2147483647) n && leb_ℤ n (pos 2147483647)

-- `mins.abs() <= 14 * 60` on `i32`, where the least number is its own `abs`.
abbrev pub is_offset : ℤ → Bool
is_offset mins = leb_ℤ mins (negsuc 2147483647) || leb (abs_ℕ mins) 840

abbrev pub is_ascii_hexdigit : ℕ → Bool
is_ascii_hexdigit c = is_ascii_digit c || ((leb b'a' c && leb c b'f') || (leb b'A' c && leb c b'F'))

unfoldable pub normalize_token_hash : Text → Loaded Text
normalize_token_hash raw =
    let trimmed = trim raw in
    if (length trimmed == 64) && all is_ascii_hexdigit trimmed
    then loaded (to_ascii_lowercase trimmed)
    else refused EnvError.invalid_token_hash

abbrev pub ok_or : EnvError → Option Text → Loaded Text
ok_or e none = refused e
ok_or e (some value) = loaded value

abbrev pub unless_blank : Option Text → Option Text
unless_blank none = none
unless_blank (some value) = if is_blank value then none else some value

abbrev pub or_invalid : Option ℤ → Loaded ℤ
or_invalid none = refused EnvError.invalid_offset
or_invalid (some mins) = loaded mins

-- The zone's offset, if it is set.
abbrev pub offset_of : Option Text → Loaded ℤ
offset_of none = loaded manila_offset_minutes
offset_of (some raw) = or_invalid (within is_offset (within fits_i32 (parse_int (trim raw))))

abbrev pub hash_of : Option Text → Loaded (Option Text)
hash_of none = loaded none
hash_of (some raw) = normalize_token_hash raw >>= λ hash. loaded (some hash)

-- The token, which only a hash makes optional.
abbrev pub token_of : Option Text → Option Text → Loaded Text
token_of (some token) hash = loaded token
token_of none (some hash) = loaded []
token_of none none = refused (EnvError.missing (codes "WEBHOOK_URL_TOKEN"))

module _ (get : Text → Option Text) where
  -- `optional`, `required` and `optional_i64`
  abbrev pub optional : Text → Option Text
  optional key = unless_blank (get key)

  abbrev pub required : Text → Loaded Text
  required key = ok_or (EnvError.missing key) (optional key)

  abbrev pub optional_i64 : Text → Option ℤ
  optional_i64 key = elim (optional key) [
    | none ↦ none
    | some raw ↦ within fits_i64 (parse_int (trim raw))
  ]

  abbrev pub or_default : Option Text → Text
  or_default none = codes "Asia/Manila"
  or_default (some zone) = zone

  -- `Env::from_getter`
  unfoldable pub from_getter : Loaded Env
  from_getter = do
    offset ← offset_of (optional (codes "APP_TIMEZONE_OFFSET_MINUTES"))
    hash ← hash_of (optional (codes "WEBHOOK_URL_TOKEN_SHA256"))
    token ← token_of (optional (codes "WEBHOOK_URL_TOKEN")) hash
    database_url ← required (codes "DATABASE_URL")
    api_key ← required (codes "SENDBLUE_API_KEY")
    api_secret ← required (codes "SENDBLUE_API_SECRET")
    from_number ← required (codes "SENDBLUE_FROM_NUMBER")
    cron_secret ← required (codes "CRON_SECRET")
    allowed_phone ← required (codes "ALLOWED_PHONE")
    loaded (record {
      database_url = database_url;
      sendblue_api_key = api_key;
      sendblue_api_secret = api_secret;
      sendblue_from_number = from_number;
      webhook_url_token = token;
      webhook_url_token_sha256 = hash;
      sendblue_signing_secret = optional (codes "SENDBLUE_SIGNING_SECRET");
      cron_secret = cron_secret;
      allowed_phone = allowed_phone;
      openrouter_api_key = optional (codes "OPENROUTER_API_KEY");
      openrouter_model = optional (codes "OPENROUTER_MODEL");
      openrouter_base_url = optional (codes "OPENROUTER_BASE_URL");
      app_timezone = or_default (optional (codes "APP_TIMEZONE"));
      app_timezone_offset_minutes = offset;
      confirm_amount_threshold_centavos =
          optional_i64 (codes "ANDY_CONFIRM_AMOUNT_THRESHOLD_CENTAVOS");
      inbound_rate_limit = optional_i64 (codes "ANDY_INBOUND_RATE_LIMIT");
      inbound_rate_window_seconds = optional_i64 (codes "ANDY_INBOUND_RATE_WINDOW_SECONDS");
    })
