-- ===== src/Api/Access/Granted.antt =====
-- What a request that is let in has shown.
use open_devops_agent.Prelude.{
  ◌≡◌, ◌↔◌, ◌⊎◌, inl, inr, true, false, ◌&&◌, not, Option, none, some, [], ◌∷◌, arith, Bool-cases,
}
use open_devops_agent.Text.{Text, text_mem, is_empty}
use open_devops_agent.Text.Laws.{text_eq_iff}
use open_devops_agent.Storage.Memory.{Objects}
use open_devops_agent.Environ.{Environ}
use open_devops_agent.Api.Webhook.{signatures_equal, bearer_token}
use open_devops_agent.Api.Access.{
  api_auth_disabled, admin_token, org_tokens, granted, matched_orgs, no_tokens, access_with,
  access_by, require_org_access,
}

-- The organisation is configured with a token that the given one equals.
abbrev pub Owns : Text → Text → Objects Text → Type 0
Owns org_id token [] = ⊥
Owns org_id token ((org, expected) ∷ tokens) =
    ((org_id ≡ org) × (signatures_equal expected token ≡ true)) ⊎ Owns org_id token tokens

mem-matched_orgs :
    (org_id token : Text) (tokens : Objects Text)
    → text_mem org_id (matched_orgs token tokens) ≡ true
    → Owns org_id token tokens
unfolding text_mem matched_orgs
mem-matched_orgs org_id token [] h = absurd (cc)
mem-matched_orgs org_id token ((org, expected) ∷ tokens) h =
    ground (arith, mem-matched_orgs org_id token tokens, text_eq_iff org_id org)

matched_orgs-mem :
    (org_id token : Text) (tokens : Objects Text)
    → Owns org_id token tokens
    → text_mem org_id (matched_orgs token tokens) ≡ true
unfolding text_mem matched_orgs
matched_orgs-mem org_id token [] h = absurd h
matched_orgs-mem org_id token ((org, expected) ∷ tokens) (inl (e, same)) =
    ground (arith, text_eq_iff org_id org)
matched_orgs-mem org_id token ((org, expected) ∷ tokens) (inr r) =
    ground (arith, matched_orgs-mem org_id token tokens r)

-- The token is the administrator's, or the organisation's.
abbrev pub Authorised : Text → Text → Objects Text → Text → Type 0
Authorised org_id admin tokens token =
    ((is_empty admin ≡ false) × (signatures_equal admin token ≡ true)) ⊎ Owns org_id token tokens

access_with-granted :
    (org_id admin : Text) (tokens : Objects Text) (token : Text)
    → (access_with org_id admin tokens token ≡ granted) ↔ Authorised org_id admin tokens token
unfolding access_with
access_with-granted org_id admin tokens token = (
  λ h. by_admin (Bool-cases (not (is_empty admin) && signatures_equal admin token)) h,
  elim [
    | inl (set, same) ↦ rw (set, same)
    | inr owns ↦ rw (matched_orgs-mem org_id token tokens owns) (ground arith)
  ],
)
  where
    by_admin :
        ((not (is_empty admin) && signatures_equal admin token) ≡ true)
          ⊎ ((not (is_empty admin) && signatures_equal admin token) ≡ false)
        → access_with org_id admin tokens token ≡ granted
        → Authorised org_id admin tokens token
    by_admin (inl yes_admin) h = inl (ground arith, ground arith)
    by_admin (inr other) h = elim (Bool-cases (text_mem org_id (matched_orgs token tokens))) [
      | inl mem ↦ inr (mem-matched_orgs org_id token tokens mem)
      | inr apart ↦ absurd (ground arith)
    ]

abbrev pub BearerAuthorised : Text → Text → Objects Text → Option Text → Type 0
BearerAuthorised org_id admin tokens none = ⊥
BearerAuthorised org_id admin tokens (some token) = Authorised org_id admin tokens token

access_by-granted :
    (org_id admin : Text) (tokens : Objects Text) (token : Option Text)
    → (access_by org_id admin tokens token ≡ granted) ↔ BearerAuthorised org_id admin tokens token
access_by-granted org_id admin tokens none = (λ h. cc, λ h. absurd h)
access_by-granted org_id admin tokens (some token) = access_with-granted org_id admin tokens token

none-authorised :
    (org_id admin : Text) (tokens : Objects Text) (token : Option Text)
    → (is_empty admin && no_tokens tokens) ≡ true
    → ¬ BearerAuthorised org_id admin tokens token
none-authorised org_id admin tokens none h b = b
none-authorised org_id admin [] (some token) h (inl (set, same)) = ground arith
none-authorised org_id admin [] (some token) h (inr owns) = owns
none-authorised org_id admin (t ∷ tokens) (some token) h b = ground arith

-- While authentication is on, the API lets a request in exactly if its bearer token is the
-- administrator's, or one that is configured for the very organisation that the request is about.
pub require_org_access-granted :
    (env : Environ) (org_id : Text) (authorization : Option Text)
    → api_auth_disabled env ≡ false
    → (require_org_access env org_id authorization ≡ granted)
      ↔ BearerAuthorised org_id (admin_token env) (org_tokens env) (bearer_token authorization)
unfolding require_org_access
require_org_access-granted env org_id authorization on =
    elim (Bool-cases (is_empty (admin_token env) && no_tokens (org_tokens env))) [
      | inl bare ↦
          rw (on, bare)
            (
              λ h. absurd (cc),
              λ b. absurd (
                  none-authorised org_id (admin_token env) (org_tokens env)
                    (bearer_token authorization) bare b),
            )
      | inr set ↦
          rw (on, set)
            (access_by-granted org_id (admin_token env) (org_tokens env)
              (bearer_token authorization))
    ]
