-- ===== src/Api/Access.antt =====
-- api/api_auth.py: who may use the management API.
pub mod Granted
use open_devops_agent.Prelude.{
  ℕ, Bool, true, false, ◌&&◌, ◌||◌, not, Option, none, some, List, [], ◌∷◌, if◌then◌else◌,
}
use open_devops_agent.Text.{Text, codes, text_mem, strip, is_empty, split_on, partition_on}
use open_devops_agent.Storage.Memory
use open_devops_agent.Storage.Memory.{Objects}
use open_devops_agent.Environ.{Environ, getenv, env_flag}
use open_devops_agent.Api.Webhook.{signatures_equal, bearer_token}

unfoldable pub api_auth_disabled : Environ → Bool
unfolding env_flag
api_auth_disabled env = env_flag (codes "API_AUTH_DISABLED") env

unfoldable pub admin_token : Environ → Text
unfolding getenv strip
admin_token env = strip (getenv (codes "API_ADMIN_TOKEN") [] env)

-- One `org=token` pair; a later pair for an organisation replaces an earlier one.
abbrev add_pair : Objects Text → Text × Bool × Text → Objects Text
add_pair tokens (org, sep, token) =
    if sep && not (is_empty (strip org)) && not (is_empty (strip token))
    then Memory.put (strip org) (strip token) tokens
    else tokens

unfoldable pub add_pairs : Objects Text → List Text → Objects Text
unfolding strip partition_on Memory.put
add_pairs tokens [] = tokens
add_pairs tokens (pair ∷ pairs) = add_pairs (add_pair tokens (partition_on b'=' pair)) pairs

unfoldable pub org_tokens : Environ → Objects Text
unfolding getenv split_on add_pairs
org_tokens env = add_pairs [] (split_on b',' (getenv (codes "API_ORG_TOKENS") [] env))

-- The exceptions carry the status and the detail of the response.
pub data Access : Type 0 where
  granted : Access
  refused : ℕ → Text → Access

-- [org for org, expected in org_tokens.items() if _signatures_equal(expected, token)]
unfoldable pub matched_orgs : Text → Objects Text → List Text
matched_orgs token [] = []
matched_orgs token ((org, expected) ∷ tokens) =
    let rest = matched_orgs token tokens in
    elim (signatures_equal expected token) [ true ↦ org ∷ rest | false ↦ rest ]

abbrev pub no_tokens : {A : Type 0} → List A → Bool
no_tokens [] = true
no_tokens (x ∷ xs) = false

-- The answer for a token, given the administrator's and the organisations'.
unfoldable pub access_with : Text → Text → Objects Text → Text → Access
access_with org_id admin tokens token =
    let matched = matched_orgs token tokens in
    if not (is_empty admin) && signatures_equal admin token
    then granted
    else if text_mem org_id matched
    then granted
    else if not (no_tokens matched)
    then refused 403 (codes "Token is not valid for this organization")
    else refused 401 (codes "Invalid token")

abbrev pub access_by : Text → Text → Objects Text → Option Text → Access
access_by org_id admin tokens none = refused 401 (codes "Bearer token required")
access_by org_id admin tokens (some token) = access_with org_id admin tokens token

unfoldable pub require_org_access : Environ → Text → Option Text → Access
require_org_access env org_id authorization =
    if api_auth_disabled env
    then granted
    else if is_empty (admin_token env) && no_tokens (org_tokens env)
    then refused 503 (
        codes
          "API authentication is not configured. Set API_ADMIN_TOKEN or API_ORG_TOKENS (or API_AUTH_DISABLED=true for local development).")
    else access_by org_id (admin_token env) (org_tokens env) (bearer_token authorization)
