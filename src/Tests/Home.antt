-- ===== src/Tests/Home.antt =====
-- A whole request of crates/api/src/routes.rs: a message, an agent that logs lunch and corrects it,
-- the flush and the delivery.
use andy.Base.{
  ◌≡◌, pos, refl, true, false, none, some, [], ◌∷◌, length, ltb, codes, decimal, is_ascii_digit,
  trim, if◌then◌else◌,
}
use andy.Shared.Allowlist.{normalize_phone}
use andy.Ai.OpenRouter.{Response}
use andy.Ai.Client.{Provider}
use andy.Api.Credentials.{Codecs}
use andy.Api.Program.{World}
use andy.Api.Service.House.{IsHouse}
use andy.Api.Assistant.{Assistant, with_assistant}
use andy.Api.Webhook.{WebRequest, sendblue_webhook, daily_cron}
use andy.Api.Served.{Event, Served, Served-IsHouse}
use andy.Db.Tables.{ok}
use andy.Db.Reconcile.{reconcile_goal_balances}
use andy.Tests.Fixtures.{start, start-IsBook}
use andy.Tests.Libraries.{libraries, lunch_call, fix_call}
use andy.Tests.Turn.{service}
use andy.Tests.Daily.{cron}
use andy.Tests.Web.{env}

abbrev provider : Provider
provider = record {
  respond = λ client messages offered n.
      if ltb (length messages) 3
      then Response.choices
          (record { content = none; tool_calls = lunch_call ∷ fix_call ∷ [] } ∷ [])
      else Response.choices (record { content = some (codes "logged"); tool_calls = [] } ∷ []);
  status_text = decimal;
  request_text = codes "request failed";
}

abbrev assistant : Assistant
assistant = record {
  env = record env { openrouter_api_key = some (codes "key") };
  openrouter = none;
  provider = provider;
  lib = libraries;
  instructions = λ snapshot. codes "be brief";
}

abbrev codecs : Codecs
codecs = record {
  sha256_hex = λ s. s;
  from_utf8_lossy = λ s. s;
  decode = λ body. some (record {
    status = some (codes "RECEIVED");
    number = some (codes "+63 917");
    content = some body;
    message_handle = some (codes "m7");
    is_outbound = some false;
  });
}

abbrev request : WebRequest
request = record {
  content_length = none;
  query = some (codes "t=secret");
  sb_signing_secret = none;
  body = some (codes "lunch 120, no, 150");
}

abbrev world : World
world = record { db = start; sent = [] }

start-IsHouse : IsHouse assistant.env.allowed_phone 1 start
unfolding normalize_phone trim is_ascii_digit
start-IsHouse = record { book = start-IsBook; parked = ((refl, tt), tt); owner = refl }

abbrev answered : World
answered =
    (sendblue_webhook codecs (with_assistant service assistant) true (some assistant.env) request
      world).1

abbrev next_day : World
next_day = record answered { db = record answered.db { now = pos 86400000000 } }

abbrev checked : World
checked =
    (daily_cron cron true (pos 86400000000) (some assistant.env) (some (codes "Bearer cron"))
      next_day).1

-- The message, a day, and the daily checks.
Served-IsHouse_example :
    IsHouse assistant.env.allowed_phone 1 checked.db
    × (reconcile_goal_balances 1 checked.db ≡ ok (0, checked.db))
Served-IsHouse_example =
    Served-IsHouse codecs service assistant cron 1 world checked
      (Served.also (Event.message provider true true request world) (
        Served.also (Event.tick (pos 86400000000) answered) (
          Served.also
            (Event.daily true true (pos 86400000000) (some (codes "Bearer cron")) next_day)
            (Served.done checked))))
      start-IsHouse
