-- ===== src/Shared/Env/Guards.antt =====
-- What settings that load (crates/shared/src/env.rs) can be relied on for.
use mathlib.Core.Path.{subst}
use andy.Base.{
  ℕ, ◌≤◌, ◌≡◌, ◌⊎◌, inl, inr, refl, Bool, true, false, Option, none, some, [], ◌∷◌, all, length,
  ◌==◌, ◌&&◌, ◌||◌, ℤ, pos, negsuc, leb, leb_ℤ, abs_ℕ, Text, codes, trim, lower_char,
  is_ascii_digit, to_ascii_lowercase, Bool-cases, Option-cases, arith, length-map,
}
use andy.Shared.Env.{
  Env, EnvError, Loaded, refused, loaded, ◌>>=◌, is_blank, within, fits_i32, is_offset, parse_int,
  is_ascii_hexdigit, normalize_token_hash, ok_or, unless_blank, offset_of, hash_of, token_of,
  optional, required, from_getter,
}

-- What a value satisfies that was loaded.
abbrev pub IfLoaded {ℓ κ} : {A : Type ℓ} → (A → Type κ) → Loaded A → Type κ
IfLoaded P (refused e) = Unit
IfLoaded P (loaded a) = P a

loaded-injective {ℓ} : {A : Type ℓ} {x y : A} → loaded x ≡ loaded y → x ≡ y
loaded-injective e = cc

-- Inversion of a bind that loads.
>>=-eq-loaded {ℓ κ} :
    {A : Type ℓ} {B : Type κ} (m : Loaded A) (f : A → Loaded B) {b : B}
    → (m >>= f) ≡ loaded b
    → (a : A) × (m ≡ loaded a) × (f a ≡ loaded b)
>>=-eq-loaded (refused e) f h = cc
>>=-eq-loaded (loaded a) f h = (a, refl, h)

of_loaded {ℓ κ} :
    {A : Type ℓ} (P : A → Type κ) (m : Loaded A) (a : A) → IfLoaded P m → m ≡ loaded a → P a
of_loaded P (refused e) a h q = cc
of_loaded P (loaded b) a h q = subst P (loaded-injective q) h

-- A digest in lower-case hex.
abbrev pub lower_hex : ℕ → Bool
lower_hex c = (leb b'0' c && leb c b'9') || (leb b'a' c && leb c b'f')

abbrev pub IsDigest : Option Text → Type 0
IsDigest none = Unit
IsDigest (some hash) = (length hash ≡ 64) × (all lower_hex hash ≡ true)

-- A setting that may be missing, but not blank.
abbrev pub IsFilled : Option Text → Type 0
IsFilled none = Unit
IsFilled (some value) = is_blank value ≡ false

-- No check of a request compares with a blank secret: the token is blank only if a digest stands in
-- for it. The offset is at most fourteen hours, or the least number of its type.
pub record IsGuarded (env : Env) : Type 0 where
  pub token : env.webhook_url_token_sha256 ≡ none → is_blank env.webhook_url_token ≡ false
  pub digest : IsDigest env.webhook_url_token_sha256
  pub signing : IsFilled env.sendblue_signing_secret
  pub cron : is_blank env.cron_secret ≡ false
  pub phone : is_blank env.allowed_phone ≡ false
  pub offset :
      (abs_ℕ env.app_timezone_offset_minutes ≤ 840)
      ⊎ (env.app_timezone_offset_minutes ≡ negsuc 2147483647)

unless_blank-IsFilled : (value : Option Text) → IsFilled (unless_blank value)
unless_blank-IsFilled none = tt
unless_blank-IsFilled (some value) = elim (Bool-cases (is_blank value)) [
  | inl e ↦ rw e tt
  | inr e ↦ rw e e
]

ok_or-IsFilled :
    (e : EnvError) (value : Option Text)
    → IsFilled value
    → IfLoaded (λ v. is_blank v ≡ false) (ok_or e value)
ok_or-IsFilled e none h = tt
ok_or-IsFilled e (some value) h = h

lowered : (c : ℕ) → is_ascii_hexdigit c ≡ true → lower_hex (lower_char c) ≡ true
unfolding is_ascii_digit lower_char
lowered c h = ground (arith, h)

all_lowered :
    (s : Text) → all is_ascii_hexdigit s ≡ true → all lower_hex (to_ascii_lowercase s) ≡ true
all_lowered [] h = refl
all_lowered (c ∷ s) h = ground (arith, lowered c, all_lowered s)

normalize_token_hash-IsDigest :
    (raw : Text) → IfLoaded (λ h. IsDigest (some h)) (normalize_token_hash raw)
unfolding normalize_token_hash
normalize_token_hash-IsDigest raw =
    elim (Bool-cases ((length (trim raw) == 64) && all is_ascii_hexdigit (trim raw))) [
      | inr e ↦ rw e tt
      | inl e ↦ rw e (
        ground (arith, e, length-map lower_char (trim raw)),
        all_lowered (trim raw) (ground (arith, e)),
      )
    ]

hash_of-IsDigest : (raw : Option Text) → IfLoaded IsDigest (hash_of raw)
hash_of-IsDigest none = tt
hash_of-IsDigest (some raw) =
    digested (normalize_token_hash raw) (normalize_token_hash-IsDigest raw)
  where
    digested :
        (m : Loaded Text)
        → IfLoaded (λ h. IsDigest (some h)) m
        → IfLoaded IsDigest (m >>= λ hash. loaded (some hash))
    digested (refused e) d = tt
    digested (loaded h) d = d

abbrev IsOffset : ℤ → Type 0
IsOffset mins = (abs_ℕ mins ≤ 840) ⊎ (mins ≡ negsuc 2147483647)

least :
    (mins : ℤ)
    → fits_i32 mins ≡ true
    → leb_ℤ mins (negsuc 2147483647) ≡ true
    → mins ≡ negsuc 2147483647
least (pos n) h k = ground (arith, k)
least (negsuc n) h k = ground (arith, h, k)

checked : (mins : ℤ) → fits_i32 mins ≡ true → is_offset mins ≡ true → IsOffset mins
checked mins h k = elim (Bool-cases (leb_ℤ mins (negsuc 2147483647))) [
  | inl e ↦ inr (least mins h e)
  | inr e ↦ inl (ground (arith, k, e))
]

within-holds :
    (fits : ℤ → Bool) (n : Option ℤ) (m : ℤ)
    → within fits n ≡ some m
    → (fits m ≡ true) × (n ≡ some m)
within-holds fits none m e = cc
within-holds fits (some n) m e = ground (arith, e)

offset_of-IsOffset : (raw : Option Text) → IfLoaded IsOffset (offset_of raw)
offset_of-IsOffset none = inl (omega arith)
offset_of-IsOffset (some raw) =
    elim (Option-cases (within is_offset (within fits_i32 (parse_int (trim raw))))) [
      | inl e ↦ rw e tt
      | inr (m, e) ↦ rw e (
          let (k, f) = within-holds is_offset (within fits_i32 (parse_int (trim raw))) m e in
          checked m (within-holds fits_i32 (parse_int (trim raw)) m f).0 k)
    ]

token_of-blank :
    (value hash : Option Text)
    → IsFilled value
    → IfLoaded (λ token. hash ≡ none → is_blank token ≡ false) (token_of value hash)
token_of-blank (some token) hash h = λ e. h
token_of-blank none (some hash) h = λ e. cc
token_of-blank none none h = tt

abbrev Filled : Text → Type 0
Filled value = is_blank value ≡ false

required-Filled : (get : Text → Option Text) (key : Text) → IfLoaded Filled (required get key)
required-Filled get key = ok_or-IsFilled _ _ (unless_blank-IsFilled (get key))

-- Settings that load are guarded, whatever the environment holds: the token is filled in unless a
-- digest stands in for it, a digest has 64 lower-case hex digits, a signing secret is filled in if it
-- is set, the secret of the cron job and the allowed number are filled in, and the offset is at most 14 hours or the least 32-bit number.
pub from_getter-IsGuarded :
    (get : Text → Option Text) (env : Env) → from_getter get ≡ loaded env → IsGuarded env
unfolding from_getter
from_getter-IsGuarded get env e =
    (let filled = required-Filled get in
      let (offset, o, e1) =
        >>=-eq-loaded (offset_of (optional get (codes "APP_TIMEZONE_OFFSET_MINUTES"))) _ e in
      let (hash, h, e2) =
        >>=-eq-loaded (hash_of (optional get (codes "WEBHOOK_URL_TOKEN_SHA256"))) _ e1 in
      let (token, t, e3) =
        >>=-eq-loaded (token_of (optional get (codes "WEBHOOK_URL_TOKEN")) hash) _ e2 in
      let (url, _, e4) = >>=-eq-loaded (required get (codes "DATABASE_URL")) _ e3 in
      let (key, _, e5) = >>=-eq-loaded (required get (codes "SENDBLUE_API_KEY")) _ e4 in
      let (secret, _, e6) = >>=-eq-loaded (required get (codes "SENDBLUE_API_SECRET")) _ e5 in
      let (from, _, e7) = >>=-eq-loaded (required get (codes "SENDBLUE_FROM_NUMBER")) _ e6 in
      let (cron, c, e8) = >>=-eq-loaded (required get (codes "CRON_SECRET")) _ e7 in
      let (phone, p, e9) = >>=-eq-loaded (required get (codes "ALLOWED_PHONE")) _ e8 in
      subst IsGuarded (loaded-injective e9) (record {
        token =
            of_loaded (λ token. hash ≡ none → Filled token) _ token
              (token_of-blank _ hash (unless_blank-IsFilled (get (codes "WEBHOOK_URL_TOKEN")))) t;
        digest =
            of_loaded IsDigest _ hash
              (hash_of-IsDigest (optional get (codes "WEBHOOK_URL_TOKEN_SHA256"))) h;
        signing = unless_blank-IsFilled (get (codes "SENDBLUE_SIGNING_SECRET"));
        cron = of_loaded Filled _ cron (filled (codes "CRON_SECRET")) c;
        phone = of_loaded Filled _ phone (filled (codes "ALLOWED_PHONE")) p;
        offset =
            of_loaded IsOffset _ offset
              (offset_of-IsOffset (optional get (codes "APP_TIMEZONE_OFFSET_MINUTES"))) o;
      }))
