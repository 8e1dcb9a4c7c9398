-- ===== src/Api/Webhook/Admission.antt =====
-- Which requests of crates/api/src/routes.rs change anything.
use andy.Base.{
  ◌≡◌, refl, ◌⊎◌, inl, inr, suc, length, ltb, Bool, true, false, ◌≤◌, arith, Option, none, some,
  codes, Text, Bool-cases, Option-cases, ℕ, [], ◌∷◌, ◌++◌, ap, unwrap_or,
}
use andy.Domain.{Instant}
use andy.Shared.Security.{constant_time_equal}
use andy.Shared.Security.Equal.{constant_time_equal_iff}
use andy.Api.Checks.{Cron}
use andy.Api.Program.{World}
use andy.Api.Service.{Service}
use andy.Api.Inbound.{InboundMessage, InboundOutcome, parse_inbound}
use andy.Shared.Env.{Env}
use andy.Api.Credentials.{
  Codecs, max_body_bytes, declared_content_length_too_large, query_param, webhook_token_valid,
  parse_usize, signing_secret_valid,
}
use andy.Api.Webhook.{
  StatusCode, Answer, WebRequest, to_bytes, by_outcome, by_body, with_env, sendblue_webhook,
  daily_cron,
}

-- A header that says no length above 16 KiB.
abbrev pub IsSmall : Option Text → Type 0
IsSmall none = Unit
IsSmall (some value) = (n : ℕ) → parse_usize value ≡ some n → n ≤ 16384

small : (header : Option Text) → declared_content_length_too_large header ≡ false → IsSmall header
unfolding declared_content_length_too_large
small none e = tt
small (some value) e = λ n f. ground (arith, e, f)

-- What a request has to show: the token, the secret if there is one, a body that neither says nor has
-- more than 16 KiB, and a message in it.
pub record IsAdmitted (codecs : Codecs) (env : Option Env) (request : WebRequest) : Type 0 where
  pub settings : Env
  pub configured : env ≡ some settings
  pub token :
      webhook_token_valid codecs (query_param codecs request.query (codes "t")) settings ≡ true
  pub secret : signing_secret_valid request.sb_signing_secret settings ≡ true
  pub declared : IsSmall request.content_length
  pub raw : Text
  pub body : to_bytes request.body (suc max_body_bytes) ≡ some raw
  pub size : length raw ≤ 16384
  pub msg : InboundMessage
  pub message : parse_inbound codecs.decode raw ≡ InboundOutcome.actionable msg

InboundOutcome-cases :
    (o : InboundOutcome)
    → ((msg : InboundMessage) × (o ≡ InboundOutcome.actionable msg))
      ⊎ ((o ≡ InboundOutcome.ignore) ⊎ (o ≡ InboundOutcome.malformed))
InboundOutcome-cases (InboundOutcome.actionable msg) = inl (msg, refl)
InboundOutcome-cases InboundOutcome.ignore = inr (inl refl)
InboundOutcome-cases InboundOutcome.malformed = inr (inr refl)

module _ (codecs : Codecs) (service : Service) (connects : Bool) where
  message-IsAdmitted :
      (e : Env) (request : WebRequest) (w : World) (raw : Text)
      → webhook_token_valid codecs (query_param codecs request.query (codes "t")) e ≡ true
      → signing_secret_valid request.sb_signing_secret e ≡ true
      → IsSmall request.content_length
      → to_bytes request.body (suc max_body_bytes) ≡ some raw
      → ltb max_body_bytes (length raw) ≡ false
      → ((by_outcome codecs service connects e
            (query_param codecs request.query (codes "t"))
            (parse_inbound codecs.decode raw)
            w).1
          ≡ w)
        ⊎ IsAdmitted codecs (some e) request
  unfolding by_outcome
  message-IsAdmitted e request w raw t s d b l =
      elim (InboundOutcome-cases (parse_inbound codecs.decode raw)) [
        | inl (msg, m) ↦ inr (record {
          settings = e;
          configured = refl;
          token = t;
          secret = s;
          raw = raw;
          declared = d;
          size = ground (arith, l);
          body = b;
          msg = msg;
          message = m;
        })
        | inr (inl m) ↦ inl (rw m refl)
        | inr (inr m) ↦ inl (rw m refl)
      ]

  with_env-IsAdmitted :
      (e : Env) (request : WebRequest) (w : World)
      → IsSmall request.content_length
      → ((with_env codecs service connects e request w).1 ≡ w) ⊎ IsAdmitted codecs (some e) request
  unfolding with_env by_body
  with_env-IsAdmitted e request w d =
      (let token = query_param codecs request.query (codes "t") in
        elim (Bool-cases (webhook_token_valid codecs token e)) [
          | inr t ↦ inl (rw t refl)
          | inl t ↦ elim (Bool-cases (signing_secret_valid request.sb_signing_secret e)) [
            | inr s ↦ inl (rw (t, s) refl)
            | inl s ↦ elim (Option-cases (to_bytes request.body (suc max_body_bytes))) [
              | inl b ↦ inl (rw (t, s, b) refl)
              | inr (raw, b) ↦ elim (Bool-cases (ltb max_body_bytes (length raw))) [
                | inl l ↦ inl (rw (t, s, b) (rw l refl))
                | inr l ↦ rw (t, s, b) (rw l (message-IsAdmitted e request w raw t s d b l))
              ]
            ]
          ]
        ])

  of_env :
      (env : Option Env) (request : WebRequest) (w : World)
      → IsSmall request.content_length
      → ((elim env as (λ x. Answer) [
        | none ↦ (StatusCode.internal_server_error, w)
        | some e ↦ with_env codecs service connects e request w
      ]).1
          ≡ w)
        ⊎ IsAdmitted codecs env request
  of_env none request w d = inl refl
  of_env (some e) request w d = with_env-IsAdmitted e request w d

  -- Only an admitted request changes anything or sends a message: one without the token or the
  -- secret, one that says or has more than 16 KiB, and one that is no message leave the tables as they were.
  pub sendblue_webhook-IsAdmitted :
      (env : Option Env) (request : WebRequest) (w : World)
      → ((sendblue_webhook codecs service connects env request w).1 ≡ w)
        ⊎ IsAdmitted codecs env request
  unfolding sendblue_webhook
  sendblue_webhook-IsAdmitted env request w =
      elim (Bool-cases (declared_content_length_too_large request.content_length)) [
        | inl large ↦ inl (rw large refl)
        | inr e ↦ rw e (of_env env request w (small request.content_length e))
      ]

-- What a caller of the cron route has to show.
abbrev pub IsAuthorized : Option Env → Option Text → Type 0
IsAuthorized env authorization =
    (e : Env) × (env ≡ some e) × (authorization ≡ some (codes "Bearer " ++ e.cron_secret))

filled :
    (authorization : Option Text) (c : ℕ) (s : Text)
    → unwrap_or [] authorization ≡ c ∷ s
    → authorization ≡ some (c ∷ s)
filled none c s e = cc
filled (some given) c s e = ap some e

-- The daily checks run only for who shows the secret of the settings: without settings, without the
-- header and with any other header the route changes nothing and sends nothing.
pub daily_cron-IsAuthorized :
    (cron : Cron) (connects : Bool) (now : Instant) (env : Option Env) (authorization : Option Text)
    (w : World)
    → ((daily_cron cron connects now env authorization w).1 ≡ w) ⊎ IsAuthorized env authorization
unfolding daily_cron
daily_cron-IsAuthorized cron connects now none authorization w = inl refl
daily_cron-IsAuthorized cron connects now (some e) authorization w =
    (let given = unwrap_or [] authorization in
      let secret = codes "Bearer " ++ e.cron_secret in
      elim (Bool-cases (constant_time_equal given secret)) [
        | inr t ↦ inl (rw t refl)
        | inl t ↦
            inr (e, refl, filled authorization _ _ ((constant_time_equal_iff given secret).0 t))
      ])
