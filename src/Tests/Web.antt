-- ===== src/Tests/Web.antt =====
-- Requests of crates/api/src/routes.rs at concrete inputs.
use andy.Base.{
  Text, Option, text_eq, trim, negsuc, ◌-ℤ◌, ◌||◌, if◌then◌else◌, refl, split, split_once,
  is_ascii_digit, ◌≡◌, ◌⊎◌, true, none, some, [], pos, codes,
}
use andy.Api.Program.{World}
use andy.Shared.Env.{Env, from_getter, loaded, parse_int, offset_of}
use andy.Shared.Env.Guards.{IsGuarded, from_getter-IsGuarded}
use andy.Api.Credentials.{
  Codecs, query_param, param_from, percent_decode, decode_bytes, hex_digit, parse_usize,
  declared_content_length_too_large,
}
use andy.Api.Webhook.{WebRequest, sendblue_webhook, daily_cron}
use andy.Api.Webhook.Admission.{
  IsAdmitted, sendblue_webhook-IsAdmitted, IsAuthorized, daily_cron-IsAuthorized,
}
use andy.Tests.Fixtures.{start}
use andy.Tests.Turn.{service}
use andy.Tests.Daily.{cron}

abbrev codecs : Codecs
codecs = record { sha256_hex = λ s. s; from_utf8_lossy = λ s. s; decode = λ s. none }

-- The variables that have to be set.
abbrev variables : Text → Option Text
variables key =
    if text_eq key (codes "DATABASE_URL") || text_eq key (codes "SENDBLUE_API_KEY")
    then some (codes "x")
    else if text_eq key (codes "SENDBLUE_API_SECRET") || text_eq key (codes "SENDBLUE_FROM_NUMBER")
    then some (codes "x")
    else if text_eq key (codes "WEBHOOK_URL_TOKEN")
    then some (codes "secret")
    else if text_eq key (codes "CRON_SECRET")
    then some (codes "cron")
    else if text_eq key (codes "ALLOWED_PHONE")
    then some (codes "+63917")
    else if text_eq key (codes "ANDY_INBOUND_RATE_LIMIT")
    then some (codes " 2 ")
    else none

abbrev pub env : Env
env = record {
  database_url = codes "x";
  sendblue_api_key = codes "x";
  sendblue_api_secret = codes "x";
  sendblue_from_number = codes "x";
  webhook_url_token = codes "secret";
  webhook_url_token_sha256 = none;
  sendblue_signing_secret = none;
  cron_secret = codes "cron";
  allowed_phone = codes "+63917";
  openrouter_api_key = none;
  openrouter_model = none;
  openrouter_base_url = none;
  app_timezone = codes "Asia/Manila";
  app_timezone_offset_minutes = pos 480;
  confirm_amount_threshold_centavos = none;
  inbound_rate_limit = some (pos 2);
  inbound_rate_window_seconds = none;
}

settings : from_getter variables ≡ loaded env
unfolding from_getter parse_int trim is_ascii_digit
settings = refl

from_getter-IsGuarded_example : IsGuarded env
from_getter-IsGuarded_example = from_getter-IsGuarded variables env settings

-- `i32::MIN`, whose `abs` is negative in a build without overflow checks.
least_offset : offset_of (some (codes "-2147483648")) ≡ loaded (negsuc 2147483647)
unfolding parse_int trim is_ascii_digit ◌-ℤ◌
least_offset = refl

abbrev forged : WebRequest
forged = record {
  content_length = some (codes "2");
  query = some (codes "t=guess");
  sb_signing_secret = none;
  body = some (codes "{}");
}

abbrev world : World
world = record { db = start; sent = [] }

sendblue_webhook-IsAdmitted_example :
    ((sendblue_webhook codecs service true (some env) forged world).1 ≡ world)
    ⊎ IsAdmitted codecs (some env) forged
sendblue_webhook-IsAdmitted_example =
    sendblue_webhook-IsAdmitted codecs service true (some env) forged world

repeated : query_param codecs (some (codes "t=a&t=b")) (codes "t") ≡ none
unfolding query_param param_from split split_once
repeated = refl

escaped : query_param codecs (some (codes "u=1&t=%41+%4")) (codes "t") ≡ some (codes "A %4")
unfolding query_param param_from percent_decode decode_bytes hex_digit split split_once
escaped = refl

too_large : declared_content_length_too_large (some (codes "16385")) ≡ true
unfolding declared_content_length_too_large parse_usize is_ascii_digit
too_large = refl

daily_cron-IsAuthorized_example :
    ((daily_cron cron true (pos 1000) (some env) (some (codes "Bearer cron")) world).1 ≡ world)
    ⊎ IsAuthorized (some env) (some (codes "Bearer cron"))
daily_cron-IsAuthorized_example =
    daily_cron-IsAuthorized cron true (pos 1000) (some env) (some (codes "Bearer cron")) world
