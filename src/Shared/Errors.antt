-- ===== src/Shared/Errors.antt =====
-- crates/shared/src/errors.rs: what the user is told when the agent fails.
use andy.Base.{Bool, List, [], ◌∷◌, any, Text, codes, to_ascii_lowercase, contains, if◌then◌else◌}

abbrev pub has_any : List Text → Text → Bool
has_any words msg = any (λ word. contains word msg) words

abbrev pub credit_words : List Text
credit_words =
    codes "402"
    ∷ codes "payment required"
    ∷ codes "insufficient"
    ∷ codes "upgrade to"
    ∷ codes "out of credit"
    ∷ codes "balance"
    ∷ []

abbrev pub rate_words : List Text
rate_words =
    codes "rate limit"
    ∷ codes "ratelimit"
    ∷ codes "429"
    ∷ codes "too many requests"
    ∷ codes "quota"
    ∷ []

unfoldable pub failure_reply : Text → Text
failure_reply message =
    let msg = to_ascii_lowercase message in
    if has_any (codes "not configured" ∷ codes "scripted backup" ∷ []) msg
    then codes "i can't answer from memory yet because the model is not configured."
    else if has_any credit_words msg
    then codes
        "i'm out of credits for now 😬 nothing's broken — ping the owner to top up and i'll be back."
    else if has_any rate_words msg
    then codes "too many at once 😅 give me a few seconds and resend that last one."
    else codes "sorry, something went wrong — try again in a sec."
