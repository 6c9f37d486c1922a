-- ===== src/Examples/Access.antt =====
-- Runs of the checks on requests: the management API, the webhooks, the MCP server.
use open_devops_agent.Prelude.{
  ◌≡◌, ◌≢◌, refl, ◌↔◌, ◌⊎◌, Bool, true, false, Option, none, some, [], ◌∷◌, ◌++◌,
}
use open_devops_agent.Text.{Text, codes, text_mem, strip, is_empty}
use open_devops_agent.Environ.{Environ, getenv, python_int}
use open_devops_agent.Api.Access.{
  api_auth_disabled, admin_token, org_tokens, granted, refused, matched_orgs, access_with,
  require_org_access,
}
use open_devops_agent.Api.Access.Granted.{BearerAuthorised, require_org_access-granted}
use open_devops_agent.Api.Webhook.{
  bearer_token, get_webhook_secret, verify_webhook_auth, verify_slack_signature, signatures_equal,
}
use open_devops_agent.Api.Webhook.Verified.{
  verify_webhook_auth-secret, verify_slack_signature-fresh, IsFreshSlack,
}
use open_devops_agent.Mcp.Auth.{
  mcp_auth_token, mcp_auth_disabled, enforce, open_access, is_loopback, check_network_auth,
  resolve_org,
}
use open_devops_agent.Mcp.Auth.Binding.{pinned_org, resolve_org-pinned, check_network_auth-open}

abbrev tenants : Environ
tenants = (codes "API_ORG_TOKENS", codes "acme=alpha,globex=beta") ∷ []

abbrev as_globex : Option Text
as_globex = some (codes "Bearer beta")

api_on : api_auth_disabled tenants ≡ false
unfolding api_auth_disabled
api_on = refl

require_org_access-granted_example :
    (require_org_access tenants (codes "acme") as_globex ≡ granted)
    ↔ BearerAuthorised
        (codes "acme")
        (admin_token tenants)
        (org_tokens tenants)
        (bearer_token as_globex)
require_org_access-granted_example =
    require_org_access-granted tenants (codes "acme") as_globex api_on

-- A token of one organisation opens its own data, and not another's.
require_org_access-run :
    (require_org_access tenants (codes "acme") as_globex
      ≡ refused 403 (codes "Token is not valid for this organization"))
    × (require_org_access tenants (codes "globex") as_globex ≡ granted)
unfolding require_org_access api_auth_disabled admin_token org_tokens bearer_token matched_orgs
    signatures_equal access_with text_mem
require_org_access-run = (refl, refl)

-- A stand-in for the digest and the codec.
abbrev digest : Text → Text → Text
digest secret payload = secret ++ payload

abbrev encoded : Text → Text
encoded s = s

abbrev decoded : Text → Option Text
decoded s = some s

abbrev hooks : Environ
hooks = (codes "WEBHOOK_SECRET", codes "s3") ∷ (codes "SLACK_SIGNING_SECRET", codes "sl") ∷ []

hook_secret : is_empty (get_webhook_secret hooks) ≡ false
unfolding get_webhook_secret
hook_secret = refl

hook_passes :
    verify_webhook_auth digest encoded decoded hooks (codes "{}") (some (codes "sha256=s3{}")) none
    ≡ true
unfolding verify_webhook_auth
hook_passes = refl

verify_webhook_auth-secret_example :
    (some (codes "sha256=s3{}")
      ≡ some (codes "sha256=" ++ digest (get_webhook_secret hooks) (codes "{}")))
    ⊎ (none ≡ some (get_webhook_secret hooks))
verify_webhook_auth-secret_example =
    verify_webhook_auth-secret digest encoded decoded hooks (codes "{}")
      (some (codes "sha256=s3{}")) none hook_secret hook_passes

slack_passes :
    verify_slack_signature digest encoded decoded hooks 1000000000 300
      (codes "ok")
      (some (codes "900"))
      (some (codes "v0=slv0:900:ok"))
      none
    ≡ some true
unfolding verify_slack_signature getenv python_int signatures_equal
slack_passes = refl

verify_slack_signature-fresh_example :
    IsFreshSlack digest encoded decoded
      (codes "sl")
      1000000000
      300
      (codes "ok")
      (some (codes "900"))
      (some (codes "v0=slv0:900:ok"))
unfolding getenv
verify_slack_signature-fresh_example =
    verify_slack_signature-fresh digest encoded decoded hooks 1000000000 300 (codes "ok")
      (some (codes "900")) (some (codes "v0=slv0:900:ok")) none refl slack_passes

abbrev bound : Environ
bound = (codes "MCP_ORG_ID", codes "acme") ∷ []

resolve_org-pinned_example :
    (codes "acme" ≡ pinned_org bound)
    × ((strip (codes " acme ") ≡ []) ⊎ (strip (codes " acme ") ≡ pinned_org bound))
unfolding getenv strip resolve_org
resolve_org-pinned_example =
    resolve_org-pinned bound (some (codes " acme ")) (codes "acme") refl refl

abbrev no_address : Text → Option Bool
no_address host = none

abbrev local_server : Environ
local_server = (codes "MCP_AUTH_DISABLED", codes "yes") ∷ []

check_network_auth-open_example :
    ((check_network_auth no_address local_server (codes "localhost") ≡ open_access) ↔ (
      (mcp_auth_token local_server ≡ [])
      × (mcp_auth_disabled local_server ≡ true)
      × (is_loopback no_address (codes "localhost") ≡ true)))
    × ((token : Text)
        → (check_network_auth no_address local_server (codes "localhost") ≡ enforce token)
          ↔ ((token ≡ mcp_auth_token local_server) × (token ≢ [])))
check_network_auth-open_example =
    check_network_auth-open no_address local_server (codes "localhost")
