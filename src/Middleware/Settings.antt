-- ===== src/Middleware/Settings.antt =====
-- The settings of middleware/app.py, and who may use it. The HMAC digest and the compilation of a
-- pattern from a setting are the library's, and are parameters.
use open_devops_agent.Prelude.{
  ℕ, Bool, true, false, ◌&&◌, not, Option, none, some, List, [], ◌∷◌, ◌++◌, if◌then◌else◌,
}
use open_devops_agent.Text.{
  Text, codes, words, text_eq, text_mem, starts_with, lower, strip, is_empty, rstrip_code,
}
use open_devops_agent.Environ.{Environ, getenv, python_int, comma_list}
use open_devops_agent.Api.Webhook.{is_ascii, given}

unfoldable pub cfg : Text → Text → Environ → Text
unfolding getenv
cfg name default env = getenv name default env

unfoldable pub agent_base : Environ → Text
unfolding cfg rstrip_code
agent_base env = rstrip_code b'/' (cfg (codes "AGENT_BASE_URL") [] env)

-- `text or other`
abbrev pub or_text : Text → Text → Text
or_text [] other = other
or_text (c ∷ s) other = c ∷ s

unfoldable pub agent_secret : Environ → Text
unfolding cfg
agent_secret env =
    or_text (cfg (codes "AGENT_WEBHOOK_SECRET") [] env) (cfg (codes "WEBHOOK_SECRET") [] env)

unfoldable pub middleware_token : Environ → Text
unfolding cfg strip
middleware_token env = strip (cfg (codes "MIDDLEWARE_AUTH_TOKEN") [] env)

abbrev pub affirmative : List Text
affirmative = words ("true" ∷ "1" ∷ "yes" ∷ [])

abbrev pub negative : List Text
negative = words ("false" ∷ "0" ∷ "no" ∷ "" ∷ [])

unfoldable pub allow_unauthenticated : Environ → Bool
unfolding cfg strip lower text_mem
allow_unauthenticated env =
    text_mem (lower (strip (cfg (codes "MIDDLEWARE_ALLOW_UNAUTHENTICATED") (codes "false") env)))
      affirmative

unfoldable pub trust_setting : Environ → Text
unfolding cfg strip
trust_setting env = strip (cfg (codes "MIDDLEWARE_TRUST_CALLER_ORG_ID") (codes "false") env)

abbrev pub caller_allowed : Environ → Option Text → Bool
caller_allowed env none = false
caller_allowed env (some caller_org) =
    let val = trust_setting env in
    if text_mem (lower val) affirmative
    then true
    else if text_mem (lower val) negative
    then false
    else text_mem caller_org (comma_list val)

unfoldable pub is_caller_org_id_allowed : Environ → Option Text → Bool
is_caller_org_id_allowed env caller_org = caller_allowed env (given caller_org)

unfoldable pub org_id : Environ → Text
unfolding cfg
org_id env = cfg (codes "ORG_ID") (codes "default") env

unfoldable pub default_host : Environ → Text
unfolding cfg
default_host env = cfg (codes "MIDDLEWARE_DEFAULT_HOST") [] env

unfoldable pub forward_path : Environ → Text
unfolding cfg
forward_path env = cfg (codes "AGENT_FORWARD_PATH") (codes "/webhook/manual") env

unfoldable pub exec_enabled : Environ → Bool
unfolding cfg lower text_mem
exec_enabled env =
    text_mem (lower (cfg (codes "MIDDLEWARE_EXEC_ENABLED") (codes "false") env)) affirmative

abbrev timeout_or : Option (Bool × ℕ) → Bool × ℕ
timeout_or none = (false, 60)
timeout_or (some seconds) = seconds

-- Seconds, with the sign.
unfoldable pub exec_timeout : Environ → Bool × ℕ
unfolding cfg python_int
exec_timeout env = timeout_or (python_int (cfg (codes "MIDDLEWARE_EXEC_TIMEOUT") (codes "60") env))

-- What stops a request: a response with its status and detail, or an exception of the library.
pub data Auth : Type 0 where
  passed : Auth
  http : ℕ → Text → Auth
  type_error : Auth

-- The token that the request carries.
unfoldable pub request_token : Option Text → Option Text → Option Text
request_token none none = none
request_token none (some token) = some (strip token)
request_token (some authorization) x_middleware_token =
    if starts_with (lower authorization) (codes "bearer ")
    then some (strip (drop_seven authorization))
    else request_token_of x_middleware_token
  where
    drop_seven : Text → Text
    drop_seven (_ ∷ _ ∷ _ ∷ _ ∷ _ ∷ _ ∷ _ ∷ s) = s
    drop_seven _ = []

    request_token_of : Option Text → Option Text
    request_token_of none = none
    request_token_of (some token) = some (strip token)

-- `hmac.compare_digest` raises for texts that are not ASCII.
unfoldable pub token_checked : Text → Option Text → Auth
unfolding is_ascii text_eq
token_checked expected none = http 401 (codes "Invalid middleware token")
token_checked expected (some token) =
    if not (is_ascii token && is_ascii expected)
    then type_error
    else if text_eq token expected
    then passed
    else http 401 (codes "Invalid middleware token")

unfoldable pub require_middleware_auth : Environ → Option Text → Option Text → Auth
require_middleware_auth env authorization x_middleware_token =
    let expected = middleware_token env in
    if is_empty expected
    then if allow_unauthenticated env
      then passed
      else http 401 (codes "Middleware auth token required")
    else token_checked expected
        (given (request_token (given authorization) (given x_middleware_token)))

module _ (compile : Text → Option (Text → Bool)) where
  abbrev one_more : Option (Text → Bool) → Option (List (Text → Bool)) → Option (List (Text → Bool))
  one_more none compiled = none
  one_more (some matches) none = none
  one_more (some matches) (some compiled) = some (matches ∷ compiled)

  -- The patterns, or `none` if one of them is not a pattern.
  unfoldable pub compile_all : List Text → Option (List (Text → Bool))
  compile_all [] = some []
  compile_all (p ∷ ps) = one_more (compile p) (compile_all ps)

  abbrev or_no_patterns : Option (List (Text → Bool)) → List (Text → Bool)
  or_no_patterns none = []
  or_no_patterns (some ps) = ps

  -- `none` where the setting is empty.
  unfoldable pub allowlist : Environ → Option (List (Text → Bool))
  unfolding cfg strip comma_list
  allowlist env =
      let raw = cfg (codes "MIDDLEWARE_EXEC_ALLOWLIST") [] env in
      if is_empty (strip raw) then none else some (or_no_patterns (compile_all (comma_list raw)))

module _ {Bytes : Type 0} (hmac_sha256 : Text → Bytes → Text) where
  unfoldable pub sign : Environ → Bytes → Text
  sign env body =
      let secret = agent_secret env in
      if is_empty secret then [] else codes "sha256=" ++ hmac_sha256 secret body
