-- ===== src/Mcp/Auth/Binding.antt =====
-- The organisation of a bound server, and the start of a network transport (devops_mcp/auth.py).
use open_devops_agent.Prelude.{
  ◌≡◌, ◌≢◌, refl, ◌↔◌, ◌⊎◌, Bool, true, false, ◌&&◌, not, Option, [], ◌∷◌, arith, if◌then◌else◌,
}
use open_devops_agent.Text.{Text, codes, text_eq, strip, is_empty}
use open_devops_agent.Text.Laws.{text_eq_iff}
use open_devops_agent.Environ.{Environ, getenv, or_else}
use open_devops_agent.Mcp.Auth.{
  mcp_auth_token, mcp_auth_disabled, NetworkAuth, enforce, open_access, only_loopback,
  token_required, is_loopback, check_network_auth, acts_on, not_allowed, resolve_org,
}

-- The server is bound to the organisation.
abbrev pub pinned_org : Environ → Text
pinned_org env = strip (getenv (codes "MCP_ORG_ID") [] env)

resolve_by :
    (requested pinned other : Text)
    → is_empty pinned ≡ false
    → (org : Text)
    → (if not (is_empty pinned)
        then if not (is_empty requested) && not (text_eq requested pinned)
          then not_allowed pinned requested
          else acts_on pinned
        else acts_on other)
      ≡ acts_on org
    → (org ≡ pinned) × ((requested ≡ []) ⊎ (requested ≡ pinned))
resolve_by [] pinned other set org h = ground arith
resolve_by (c ∷ s) pinned other set org h = ground (arith, text_eq_iff (c ∷ s) pinned)

-- A server bound to an organisation acts on that one alone, and only for a call that names it or
-- names none.
pub resolve_org-pinned :
    (env : Environ) (org_id : Option Text) (org : Text)
    → is_empty (pinned_org env) ≡ false
    → resolve_org env org_id ≡ acts_on org
    → (org ≡ pinned_org env)
      × ((strip (or_else org_id []) ≡ []) ⊎ (strip (or_else org_id []) ≡ pinned_org env))
unfolding resolve_org
resolve_org-pinned env org_id org set h =
    resolve_by (strip (or_else org_id [])) (pinned_org env) _ set org h

abbrev auth_by : Text → Bool → Bool → Text → NetworkAuth
auth_by token disabled loopback host =
    if not (is_empty token)
    then enforce token
    else if disabled && loopback
    then open_access
    else if disabled
    then only_loopback host
    else token_required

auth_by-open :
    (configured : Text) (disabled loopback : Bool) (host : Text)
    → ((auth_by configured disabled loopback host ≡ open_access)
        ↔ ((configured ≡ []) × (disabled ≡ true) × (loopback ≡ true)))
      × ((token : Text)
          → (auth_by configured disabled loopback host ≡ enforce token)
            ↔ ((token ≡ configured) × (token ≢ [])))
auth_by-open [] true true host =
    ((λ h. (refl, refl, refl), λ h. refl), λ token. (λ h. absurd (cc), λ h. absurd (h.1 h.0)))
auth_by-open [] true false host =
    ((λ h. absurd (cc), λ h. absurd (cc)), λ token. (λ h. absurd (cc), λ h. absurd (h.1 h.0)))
auth_by-open [] false loopback host =
    ((λ h. absurd (cc), λ h. absurd (cc)), λ token. (λ h. absurd (cc), λ h. absurd (h.1 h.0)))
auth_by-open (c ∷ s) disabled loopback host =
    ((λ h. absurd (cc), λ h. absurd (cc)), λ token. (λ h. (cc, λ e. cc), λ h. cc))

-- A network transport starts with no token to enforce only where authentication was disabled and
-- the host is a loopback address; a token that it enforces is the configured one, and not empty.
pub check_network_auth-open :
    (loopback_address : Text → Option Bool) (env : Environ) (host : Text)
    → ((check_network_auth loopback_address env host ≡ open_access) ↔ (
        (mcp_auth_token env ≡ [])
        × (mcp_auth_disabled env ≡ true)
        × (is_loopback loopback_address host ≡ true)))
      × ((token : Text)
          → (check_network_auth loopback_address env host ≡ enforce token)
            ↔ ((token ≡ mcp_auth_token env) × (token ≢ [])))
unfolding check_network_auth
check_network_auth-open loopback_address env host =
    auth_by-open (mcp_auth_token env) (mcp_auth_disabled env) (is_loopback loopback_address host)
      host
