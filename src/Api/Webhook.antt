-- ===== src/Api/Webhook.antt =====
-- api/webhook_auth.py. The HMAC digest and the decoding of a body from UTF-8 are the library's, and
-- are parameters. Times are in microseconds.
pub mod Verified
use open_devops_agent.Prelude.{
  ◌^◌, leb, ℕ, ◌+◌, ◌-◌, ◌*◌, Bool, true, false, ◌&&◌, ◌||◌, not, Option, none, some, List, [], ◌∷◌,
  ◌++◌, if◌then◌else◌, all, ltb,
}
use open_devops_agent.Text.{Text, codes, text_eq, lower, strip, is_empty, partition_on}
use open_devops_agent.Environ.{Environ, getenv, python_int}

-- hmac.compare_digest refuses texts that are not ASCII, which counts as a mismatch.
unfoldable pub is_ascii : Text → Bool
unfolding all
is_ascii s = all (λ c. ltb c 128) s

unfoldable pub signatures_equal : Text → Text → Bool
unfolding is_ascii text_eq
signatures_equal expected provided =
    is_ascii expected && is_ascii provided && text_eq expected provided

unfoldable pub get_webhook_secret : Environ → Text
unfolding getenv
get_webhook_secret env = getenv (codes "WEBHOOK_SECRET") [] env

-- A header that is there and not empty.
abbrev pub given : Option Text → Option Text
given none = none
given (some []) = none
given (some (c ∷ s)) = some (c ∷ s)

-- `verify_static_webhook_token`, where the secret is given
unfoldable pub verify_static_token : Option Text → Text → Bool
unfolding signatures_equal
verify_static_token token expected =
    if is_empty expected
    then true
    else elim (given token) [ none ↦ false | some t ↦ signatures_equal expected t ]

abbrev secret_or : Option Text → Environ → Text
secret_or none env = get_webhook_secret env
secret_or (some secret) env = secret

unfoldable pub verify_static_webhook_token : Environ → Option Text → Option Text → Bool
unfolding verify_static_token get_webhook_secret
verify_static_webhook_token env token secret = verify_static_token token (secret_or secret env)

abbrev non_empty : Text → Option Text
non_empty [] = none
non_empty (c ∷ s) = some (c ∷ s)

abbrev token_after : Text × Bool × Text → Option Text
token_after (scheme, there, token) =
    if not (text_eq (lower scheme) (codes "bearer")) then none else non_empty (strip token)

abbrev bearer_of : Option Text → Option Text
bearer_of none = none
bearer_of (some authorization) = token_after (partition_on b' ' (strip authorization))

unfoldable pub bearer_token : Option Text → Option Text
unfolding strip partition_on lower text_eq
bearer_token authorization = bearer_of (given authorization)

-- The magnitude of a difference of times.
abbrev pub distance : ℕ → ℕ → ℕ
distance a b = (a - b) + (b - a)

-- `abs(time.time() - int(timestamp)) > max_age_seconds`, for the sign and the magnitude of the
-- timestamp
abbrev pub is_stale : ℕ → ℕ → Bool × ℕ → Bool
is_stale now max_age_seconds (true, seconds) =
    ltb (max_age_seconds * 1000000) (now + seconds * 1000000)
is_stale now max_age_seconds (false, seconds) =
    ltb (max_age_seconds * 1000000) (distance now (seconds * 1000000))

-- From this integer on, `float` raises OverflowError: half a step above the largest float.
abbrev pub largest_float : ℕ
largest_float = 2 ^ 1024 - 2 ^ 970

module _ {Bytes : Type 0} (hmac_sha256 : Text → Bytes → Text) (encode : Text → Bytes)
    (decode : Bytes → Option Text) where
  unfoldable pub verify_hmac_sha256_signature : Bytes → Text → Text → Bool
  unfolding signatures_equal
  verify_hmac_sha256_signature payload signature secret =
      if is_empty secret || is_empty signature
      then false
      else signatures_equal (codes "sha256=" ++ hmac_sha256 secret payload) signature

  unfoldable pub verify_webhook_request : Environ → Bytes → Option Text → Bool
  unfolding get_webhook_secret verify_hmac_sha256_signature
  verify_webhook_request env payload signature =
      let secret = get_webhook_secret env in
      if is_empty secret then true else elim (given signature) [
        | none ↦ false
        | some s ↦ verify_hmac_sha256_signature payload s secret
      ]

  abbrev pub hmac_holds : Bytes → Option Text → Text → Bool
  hmac_holds payload none secret = false
  hmac_holds payload (some s) secret = verify_hmac_sha256_signature payload s secret

  abbrev pub token_holds : Option Text → Text → Bool
  token_holds none secret = false
  token_holds (some t) secret = verify_static_token (some t) secret

  unfoldable pub verify_webhook_auth : Environ → Bytes → Option Text → Option Text → Bool
  unfolding get_webhook_secret verify_hmac_sha256_signature verify_static_token
  verify_webhook_auth env payload signature static_token =
      let secret = get_webhook_secret env in
      if is_empty secret
      then true
      else if hmac_holds payload (given signature) secret
      then true
      else token_holds (given static_token) secret

  -- The signature of Slack on a body that is text.
  abbrev pub slack_matches : Text → Text → Text → Option Text → Bool
  slack_matches secret timestamp signature none = false
  slack_matches secret timestamp signature (some body) =
      signatures_equal
        (codes "v0=" ++ hmac_sha256 secret (encode (codes "v0:" ++ (timestamp ++ (b':' ∷ body)))))
        signature

  -- The timestamp is read first; one that is no number is refused, and one that no float can hold
  -- makes the subtraction raise OverflowError, here `none`.
  abbrev pub slack_timely : ℕ → ℕ → Option (Bool × ℕ) → Option Bool
  slack_timely now max_age_seconds none = some false
  slack_timely now max_age_seconds (some (minus, seconds)) =
      if leb largest_float seconds
      then none
      else some (not (is_stale now max_age_seconds (minus, seconds)))

  abbrev pub and_matches : Option Bool → Bool → Option Bool
  and_matches none matches = none
  and_matches (some timely) matches = some (timely && matches)

  abbrev pub slack_checked : Text → ℕ → ℕ → Bytes → Option Text → Option Text → Option Bool
  slack_checked secret now max_age_seconds body none signature = some false
  slack_checked secret now max_age_seconds body (some timestamp) none = some false
  slack_checked secret now max_age_seconds body (some timestamp) (some signature) =
      and_matches (slack_timely now max_age_seconds (python_int timestamp))
        (slack_matches secret timestamp signature (decode body))

  -- `signing_secret or get_slack_signing_secret()`
  abbrev pub slack_secret : Environ → Option Text → Text
  slack_secret env none = getenv (codes "SLACK_SIGNING_SECRET") [] env
  slack_secret env (some secret) = secret

  -- `none` is the OverflowError.
  unfoldable pub verify_slack_signature :
      Environ → ℕ → ℕ → Bytes → Option Text → Option Text → Option Text → Option Bool
  verify_slack_signature env now max_age_seconds body timestamp signature signing_secret =
      let secret = slack_secret env (given signing_secret) in
      if is_empty secret
      then some true
      else slack_checked secret now max_age_seconds body (given timestamp) (given signature)
