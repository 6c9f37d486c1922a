-- ===== src/Middleware/Exec/Refused.antt =====
-- Which refusal of `/exec` of middleware/app.py answers what.
use open_devops_agent.Prelude.{
  ◌⊎◌, ◌≡◌, refl, ◌∙◌, sym, Bool, true, false, not, Option, none, some, List, inl, inr, if_no,
  if◌then◌else◌, ℕ,
}
use open_devops_agent.Text.{Text, strip, is_empty}
use open_devops_agent.Text.Laws.{text_eq_refl}
use open_devops_agent.Text.Shell.{shell_split}
use open_devops_agent.Environ.{Environ}
use open_devops_agent.Api.Webhook.{given}
use open_devops_agent.Middleware.Settings.{
  Auth, passed, http, type_error, exec_enabled, middleware_token, request_token,
  require_middleware_auth, token_checked,
}
use open_devops_agent.Middleware.Exec.{
  start, refuse, Decision, or_empty, filtered, authorised, command_allowed, exec_decision,
}
use open_devops_agent.Middleware.Exec.Gate.{require_middleware_auth-passed}

http-injective : {a b : ℕ} {s t : Text} → http a s ≡ http b t → a ≡ b
http-injective h = cc

refuse-injective : {a b : ℕ} {s t : Text} → refuse a s ≡ refuse b t → a ≡ b
refuse-injective h = cc

by_tests :
    (ascii same : Bool) (d : Text) (status : ℕ) (detail : Text)
    → (if not ascii then type_error else if same then passed else http 401 d) ≡ http status detail
    → (status ≡ 401) × (same ≡ false)
by_tests true false d status detail h = (sym (http-injective h), refl)
by_tests true true d status detail h = absurd (cc)
by_tests false same d status detail h = absurd (cc)

by_filter :
    (allowed : Bool) (d : Text) (words : List Text) (status : ℕ) (detail : Text)
    → (if not allowed then refuse 403 d else start words) ≡ refuse status detail
    → (status ≡ 403) × (allowed ≡ false)
by_filter false d words status detail h = (sym (refuse-injective h), refl)
by_filter true d words status detail h = absurd (cc)

-- Where a refusal comes from: the first guard, the second, or what follows them.
by_guards :
    (on unset : Bool) (d d' : Text) (decision : Decision) (status : ℕ) (detail : Text)
    → (if not on then refuse 403 d else if unset then refuse 503 d' else decision)
      ≡ refuse status detail
    → ((on ≡ false) × (status ≡ 403))
      ⊎ (((on ≡ true) × ((unset ≡ true) × (status ≡ 503)))
          ⊎ ((on ≡ true) × ((unset ≡ false) × (decision ≡ refuse status detail))))
by_guards false unset d d' decision status detail h = inl (refl, sym (refuse-injective h))
by_guards true true d d' decision status detail h =
    inr (inl (refl, (refl, sym (refuse-injective h))))
by_guards true false d d' decision status detail h = inr (inr (refl, (refl, h)))

token_checked-http :
    (expected : Text) (token : Option Text) (status : ℕ) (detail : Text)
    → token_checked expected token ≡ http status detail
    → (status ≡ 401) × ¬ (token ≡ some expected)
unfolding token_checked
token_checked-http expected none status detail h = (sym (http-injective h), λ e. absurd (cc))
token_checked-http expected (some token) status detail h =
    let (e, other) = by_tests _ _ _ status detail h in
    (e, λ e'. absurd (cc (text_eq_refl expected)))

module _ (compile : Text → Option (Text → Bool)) where
  -- The reasons to refuse, with the status of each.
  pub data IsRefused (env : Environ) (body : Text) (token : Option Text) (status : ℕ) : Type 0 where
    disabled : status ≡ 403 → exec_enabled env ≡ false → IsRefused env body token status
    unset :
        status ≡ 503
        → exec_enabled env ≡ true
        → is_empty (middleware_token env) ≡ true
        → IsRefused env body token status
    unauthenticated :
        status ≡ 401
        → exec_enabled env ≡ true
        → is_empty (middleware_token env) ≡ false
        → ¬ (token ≡ some (middleware_token env))
        → IsRefused env body token status
    barred :
        status ≡ 403
        → exec_enabled env ≡ true
        → is_empty (middleware_token env) ≡ false
        → token ≡ some (middleware_token env)
        → command_allowed compile env (strip body) (or_empty (shell_split (strip body))) ≡ false
        → IsRefused env body token status

  filtered-refuse :
      (env : Environ) (command : Text) (words : List Text) (status : ℕ) (detail : Text)
      → filtered compile env command words ≡ refuse status detail
      → (status ≡ 403) × (command_allowed compile env command words ≡ false)
  filtered-refuse env command words status detail h =
      by_filter (command_allowed compile env command words) _ words status detail h

  require_middleware_auth-http :
      (env : Environ) (authorization x_middleware_token : Option Text) (status : ℕ) (detail : Text)
      → is_empty (middleware_token env) ≡ false
      → require_middleware_auth env authorization x_middleware_token ≡ http status detail
      → (status ≡ 401)
        × ¬ (
            given (request_token (given authorization) (given x_middleware_token))
            ≡ some (middleware_token env))
  unfolding require_middleware_auth
  require_middleware_auth-http env authorization x_middleware_token status detail set h =
      token_checked-http _ _ status detail
        (sym (if_no (is_empty (middleware_token env)) _ _ set) ∙ h)

  authorised-refuse :
      (env : Environ) (body : Text) (authorization x_middleware_token : Option Text) (status : ℕ)
      (detail : Text) (auth : Auth)
      → require_middleware_auth env authorization x_middleware_token ≡ auth
      → exec_enabled env ≡ true
      → is_empty (middleware_token env) ≡ false
      → authorised compile env (strip body) auth ≡ refuse status detail
      → IsRefused env body
          (given (request_token (given authorization) (given x_middleware_token)))
          status
  authorised-refuse env body authorization x_middleware_token status detail passed a on set h =
      let (e, denied) = filtered-refuse env (strip body) _ status detail h in
      barred e on set (require_middleware_auth-passed env authorization x_middleware_token set a)
        denied
  authorised-refuse env body authorization x_middleware_token status detail (http s d) a on set h =
      let (e, wrong) =
        require_middleware_auth-http env authorization x_middleware_token s d set a in
      unauthenticated (sym (refuse-injective h) ∙ e) on set wrong
  authorised-refuse env body authorization x_middleware_token status detail type_error a on set h =
      absurd (cc)

  -- A refusal of `/exec` tells why by its status: 403 where local execution is disabled, 503 where
  -- it is enabled and no token is configured, 401 where one is and the request does not carry it,
  -- and 403 where it does and the filter does not let the command through.
  pub exec_decision-IsRefused :
      (env : Environ) (body : Text) (authorization x_middleware_token : Option Text) (status : ℕ)
      (detail : Text)
      → exec_decision compile env body authorization x_middleware_token ≡ refuse status detail
      → IsRefused env body
          (given (request_token (given authorization) (given x_middleware_token)))
          status
  unfolding exec_decision
  exec_decision-IsRefused env body authorization x_middleware_token status detail h =
      elim (by_guards (exec_enabled env) (is_empty (middleware_token env)) _ _ _ status detail h) [
        | inl (off, e) ↦ disabled e off
        | inr (inl (on, (none_set, e))) ↦ unset e on none_set
        | inr (inr (on, (set, rest))) ↦
            authorised-refuse env body authorization x_middleware_token status detail _ refl on set
              rest
      ]
