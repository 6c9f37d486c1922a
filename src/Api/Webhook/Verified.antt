-- ===== src/Api/Webhook/Verified.antt =====
-- What a webhook that passes has shown.
use open_devops_agent.Prelude.{
  ◌≤◌, ◌*◌, ◌+◌, not, if◌then◌else◌, leb, ℕ, ◌≡◌, refl, ◌⊎◌, inl, inr, Bool, true, false, ◌&&◌,
  Option, none, some, [], ◌∷◌, ◌++◌, arith, and-true, Bool-cases,
}
use open_devops_agent.Text.{Text, codes, text_eq, is_empty}
use open_devops_agent.Text.Laws.{text_eq_iff}
use open_devops_agent.Environ.{Environ, python_int}
use open_devops_agent.Api.Webhook.{
  is_ascii, signatures_equal, get_webhook_secret, given, verify_static_token,
  verify_hmac_sha256_signature, hmac_holds, token_holds, verify_webhook_auth,
  verify_slack_signature, slack_secret, slack_checked, slack_timely, slack_matches, is_stale,
  and_matches, largest_float,
}

-- Equal signatures are the same text.
pub eq_of_signatures_equal :
    (expected provided : Text) → signatures_equal expected provided ≡ true → expected ≡ provided
unfolding signatures_equal
eq_of_signatures_equal expected provided h =
    (text_eq_iff expected provided).0
      (and-true (is_ascii expected && is_ascii provided) (text_eq expected provided) h).1

given-some : (o : Option Text) (t : Text) → given o ≡ some t → o ≡ some t
given-some none t h = h
given-some (some []) t h = cc
given-some (some (c ∷ s)) t h = h

verify_static_token-secret :
    (token : Option Text) (secret : Text)
    → is_empty secret ≡ false
    → verify_static_token token secret ≡ true
    → token ≡ some secret
unfolding verify_static_token
verify_static_token-secret none secret e h = ground arith
verify_static_token-secret (some []) secret e h = ground arith
verify_static_token-secret (some (c ∷ s)) secret e h =
    ground (arith, eq_of_signatures_equal secret (c ∷ s))

module _ {Bytes : Type 0} (hmac_sha256 : Text → Bytes → Text) (encode : Text → Bytes)
    (decode : Bytes → Option Text) where
  hmac_holds-secret :
      (payload : Bytes) (signature : Option Text) (secret : Text)
      → is_empty secret ≡ false
      → hmac_holds hmac_sha256 encode decode payload (given signature) secret ≡ true
      → signature ≡ some (codes "sha256=" ++ hmac_sha256 secret payload)
  unfolding verify_hmac_sha256_signature
  hmac_holds-secret payload none secret e h = cc
  hmac_holds-secret payload (some []) secret e h = cc
  hmac_holds-secret payload (some (c ∷ s)) secret e h =
      let same : signatures_equal (codes "sha256=" ++ hmac_sha256 secret payload) (c ∷ s) ≡ true =
        rw e at h in
      cc (eq_of_signatures_equal (codes "sha256=" ++ hmac_sha256 secret payload) (c ∷ s) same)

  token_holds-secret :
      (static_token : Option Text) (secret : Text)
      → is_empty secret ≡ false
      → token_holds hmac_sha256 encode decode (given static_token) secret ≡ true
      → static_token ≡ some secret
  token_holds-secret none secret e h = cc
  token_holds-secret (some []) secret e h = cc
  token_holds-secret (some (c ∷ s)) secret e h =
      verify_static_token-secret (some (c ∷ s)) secret e h

  -- While a secret is configured, a webhook is accepted only with the payload's own HMAC under
  -- that secret as its signature, or with the secret itself as its token.
  pub verify_webhook_auth-secret :
      (env : Environ) (payload : Bytes) (signature static_token : Option Text)
      → is_empty (get_webhook_secret env) ≡ false
      → verify_webhook_auth hmac_sha256 encode decode env payload signature static_token ≡ true
      → (signature ≡ some (codes "sha256=" ++ hmac_sha256 (get_webhook_secret env) payload))
        ⊎ (static_token ≡ some (get_webhook_secret env))
  unfolding verify_webhook_auth
  verify_webhook_auth-secret env payload signature static_token set h =
      elim (Bool-cases
        (hmac_holds hmac_sha256 encode decode payload (given signature) (get_webhook_secret env))) [
          | inl signed ↦
              inl (hmac_holds-secret payload signature (get_webhook_secret env) set signed)
          | inr other ↦
              inr (
                token_holds-secret static_token (get_webhook_secret env) set (rw (set, other) at h))
        ]

  -- A time in seconds is no further than the allowed age from now, before or after.
  abbrev pub IsTimely : ℕ → ℕ → Bool × ℕ → Type 0
  IsTimely now max_age_seconds (true, seconds) = now + seconds * 1000000 ≤ max_age_seconds * 1000000
  IsTimely now max_age_seconds (false, seconds) =
      (now ≤ seconds * 1000000 + max_age_seconds * 1000000)
      × (seconds * 1000000 ≤ now + max_age_seconds * 1000000)

  is_stale-IsTimely :
      (now max_age_seconds : ℕ) (time : Bool × ℕ)
      → is_stale now max_age_seconds time ≡ false
      → IsTimely now max_age_seconds time
  is_stale-IsTimely now max_age_seconds (true, seconds) h = ground arith
  is_stale-IsTimely now max_age_seconds (false, seconds) h = (ground arith, ground arith)

  not_raised : (b stale : Bool) → (if b then none else some (not stale)) ≡ some true → stale ≡ false
  not_raised true stale h = absurd (cc)
  not_raised false true h = absurd (cc)
  not_raised false false h = refl

  slack_timely-read :
      (now max_age_seconds : ℕ) (read : Option (Bool × ℕ))
      → slack_timely hmac_sha256 encode decode now max_age_seconds read ≡ some true
      → (time : Bool × ℕ) × (read ≡ some time) × IsTimely now max_age_seconds time
  slack_timely-read now max_age_seconds none h = absurd (cc)
  slack_timely-read now max_age_seconds (some (minus, seconds)) h = (
    (minus, seconds),
    refl,
    is_stale-IsTimely now max_age_seconds (minus, seconds)
        (not_raised (leb largest_float seconds) _ h),
  )

  and_matches-both :
      (timely : Option Bool) (matches : Bool)
      → and_matches hmac_sha256 encode decode timely matches ≡ some true
      → (timely ≡ some true) × (matches ≡ true)
  and_matches-both none matches h = absurd (cc)
  and_matches-both (some true) true h = (refl, refl)
  and_matches-both (some true) false h = absurd (cc)
  and_matches-both (some false) matches h = absurd (cc)

  -- The signature is the digest of the body that was sent, if that is text.
  abbrev pub SignsBody : Text → Text → Text → Option Text → Type 0
  SignsBody secret t s none = ⊥
  SignsBody secret t s (some b) =
      codes "v0=" ++ hmac_sha256 secret (encode (codes "v0:" ++ (t ++ (b':' ∷ b)))) ≡ s

  slack_matches-body :
      (secret t s : Text) (body : Option Text)
      → slack_matches hmac_sha256 encode decode secret t s body ≡ true
      → SignsBody secret t s body
  slack_matches-body secret t s none h = absurd (cc)
  slack_matches-body secret t s (some b) h =
      eq_of_signatures_equal
        (codes "v0=" ++ hmac_sha256 secret (encode (codes "v0:" ++ (t ++ (b':' ∷ b))))) s h

  -- What a Slack request that passes has shown: its timestamp is a number of seconds no further
  -- than the allowed age from now, in either direction, and its signature is that of its body.
  pub record IsFreshSlack (secret : Text) (now max_age_seconds : ℕ) (body : Bytes)
      (timestamp signature : Option Text) : Type 0 where
    pub t : Text
    pub s : Text
    pub time : Bool × ℕ
    pub stamped : timestamp ≡ some t
    pub signed : signature ≡ some s
    pub is_number : python_int t ≡ some time
    pub timely : IsTimely now max_age_seconds time
    pub signs : SignsBody secret t s (decode body)

  slack_checked-fresh :
      (secret : Text) (now max_age_seconds : ℕ) (body : Bytes) (timestamp signature : Option Text)
      → slack_checked hmac_sha256 encode decode secret now max_age_seconds body timestamp signature
        ≡ some true
      → IsFreshSlack secret now max_age_seconds body timestamp signature
  slack_checked-fresh secret now max_age_seconds body none signature h = absurd (cc)
  slack_checked-fresh secret now max_age_seconds body (some t) none h = absurd (cc)
  slack_checked-fresh secret now max_age_seconds body (some t) (some s) h =
      let (timely, matches) =
        and_matches-both (slack_timely hmac_sha256 encode decode now max_age_seconds (python_int t))
          (slack_matches hmac_sha256 encode decode secret t s (decode body)) h in
      let (time, e, fresh) = slack_timely-read now max_age_seconds (python_int t) timely in
      record {
        t = t;
        s = s;
        time = time;
        stamped = refl;
        signed = refl;
        is_number = e;
        timely = fresh;
        signs = slack_matches-body secret t s (decode body) matches;
      }

  -- While a signing secret is known, a Slack request passes only if its timestamp is a number of
  -- seconds no further than the allowed age from now, before or after, and its signature is the digest under that
  -- secret of this timestamp and of its body, which is UTF-8.
  pub verify_slack_signature-fresh :
      (env : Environ) (now max_age_seconds : ℕ) (body : Bytes)
      (timestamp signature signing_secret : Option Text)
      → is_empty (slack_secret hmac_sha256 encode decode env (given signing_secret)) ≡ false
      → verify_slack_signature hmac_sha256 encode decode env now max_age_seconds body timestamp
          signature signing_secret
        ≡ some true
      → IsFreshSlack
          (slack_secret hmac_sha256 encode decode env (given signing_secret))
          now
          max_age_seconds
          body
          timestamp
          signature
  unfolding verify_slack_signature
  verify_slack_signature-fresh env now max_age_seconds body timestamp signature signing_secret set
        h =
      let secret = slack_secret hmac_sha256 encode decode env (given signing_secret) in
      let fresh =
        slack_checked-fresh secret now max_age_seconds body (given timestamp) (given signature)
          (rw set at h) in
      record {
        t = fresh.t;
        s = fresh.s;
        time = fresh.time;
        stamped = given-some timestamp fresh.t fresh.stamped;
        signed = given-some signature fresh.s fresh.signed;
        is_number = fresh.is_number;
        timely = fresh.timely;
        signs = fresh.signs;
      }
