-- ===== src/Mcp/Auth.antt =====
-- devops_mcp/auth.py: authentication and org binding of the MCP server. Whether an address is a
-- loopback address is what `ipaddress` says of it, a parameter: `none` where it raises.
pub mod Binding
use open_devops_agent.Prelude.{
  ℕ, Bool, true, false, ◌&&◌, ◌||◌, not, Option, none, some, List, [], ◌∷◌, ◌++◌, if◌then◌else◌,
}
use open_devops_agent.Text.{Text, codes, words, text_eq, text_mem, strip, is_empty}
use open_devops_agent.Storage.Memory
use open_devops_agent.Storage.Memory.{Objects}
use open_devops_agent.Environ.{Environ, getenv, env_flag, or_else}
use open_devops_agent.Api.Webhook.{signatures_equal, bearer_token}

abbrev pub network_transports : List Text
network_transports = words ("sse" ∷ "streamable-http" ∷ [])

unfoldable pub mcp_auth_token : Environ → Text
unfolding getenv strip
mcp_auth_token env = strip (getenv (codes "MCP_AUTH_TOKEN") [] env)

unfoldable pub mcp_auth_disabled : Environ → Bool
unfolding env_flag
mcp_auth_disabled env = env_flag (codes "MCP_AUTH_DISABLED") env

unfoldable pub credential_writes_allowed : Environ → Text → Bool
unfolding env_flag text_mem
credential_writes_allowed env transport =
    not (text_mem transport network_transports) || env_flag (codes "MCP_ALLOW_CREDENTIAL_WRITE") env

-- The token to enforce, none at all, or a refusal to start.
pub data NetworkAuth : Type 0 where
  enforce : Text → NetworkAuth
  open_access : NetworkAuth
  only_loopback : Text → NetworkAuth
  token_required : NetworkAuth

module _ (loopback_address : Text → Option Bool) where
  unfoldable pub is_loopback : Text → Bool
  unfolding text_eq
  is_loopback host =
      if text_eq host (codes "localhost") then true else or_else (loopback_address host) false

  unfoldable pub check_network_auth : Environ → Text → NetworkAuth
  check_network_auth env host =
      if not (is_empty (mcp_auth_token env))
      then enforce (mcp_auth_token env)
      else if mcp_auth_disabled env && is_loopback host
      then open_access
      else if mcp_auth_disabled env
      then only_loopback host
      else token_required

pub data OrgChoice : Type 0 where
  acts_on : Text → OrgChoice
  not_allowed : Text → Text → OrgChoice

-- `requested or os.getenv("ORG_ID", "default")`
abbrev requested_or : Environ → Text → Text
requested_or env [] = getenv (codes "ORG_ID") (codes "default") env
requested_or env (c ∷ s) = c ∷ s

unfoldable pub resolve_org : Environ → Option Text → OrgChoice
resolve_org env org_id =
    let requested = strip (or_else org_id []) in
    let pinned = strip (getenv (codes "MCP_ORG_ID") [] env) in
    if not (is_empty pinned)
    then if not (is_empty requested) && not (text_eq requested pinned)
      then not_allowed pinned requested
      else acts_on pinned
    else acts_on (requested_or env requested)

-- What the middleware does with a request: hand it to the application, or answer 401. The headers
-- are decoded, their names in lower case.
pub data Handling : Type 0 where
  forward : Handling
  unauthorized : Handling

abbrev token_matches : Text → Option Text → Bool
token_matches token none = false
token_matches token (some provided) = signatures_equal token provided

unfoldable pub bearer_auth_middleware : Text → Text → Objects Text → Handling
unfolding text_eq bearer_token signatures_equal Memory.get
bearer_auth_middleware token scope_type headers =
    if not (text_eq scope_type (codes "http"))
    then forward
    else if token_matches token (bearer_token (Memory.get (codes "authorization") headers))
    then forward
    else unauthorized
