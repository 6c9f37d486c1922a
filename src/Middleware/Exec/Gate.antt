-- ===== src/Middleware/Exec/Gate.antt =====
-- What has been shown of a command before the edge server starts a process for it.
use open_devops_agent.Prelude.{
  ◌≡◌, refl, ap, ◌∙◌, sym, ◌⊎◌, inl, inr, Bool, true, false, not, Option, none, some, List, [], ◌∷◌,
  arith, Bool-cases, or-false, if_no, if_cases, if◌then◌else◌, any, ℕ,
}
use mathlib.Core.Path.{subst}
use open_devops_agent.Text.{Text, strip, is_empty}
use open_devops_agent.Text.Laws.{eq_of_text_eq}
use open_devops_agent.Text.Shell.{shell_split}
use open_devops_agent.Environ.{Environ}
use open_devops_agent.Api.Webhook.{given}
use open_devops_agent.Middleware.Settings.{
  Auth, passed, http, type_error, exec_enabled, middleware_token, request_token,
  require_middleware_auth, token_checked, allowlist,
}
use open_devops_agent.Middleware.Commands.ReadOnly.{ReadsOnly, default_command_allowed-ReadsOnly}
use open_devops_agent.Middleware.Exec.{
  has_disallowed_exec_flags, has_control_character, is_blocked, start, refuse, Decision,
  no_arguments, is_unfit, or_empty, filtered, authorised, listed, command_allowed, exec_decision,
}

token_checked-passed :
    (expected : Text) (token : Option Text)
    → token_checked expected token ≡ passed
    → token ≡ some expected
unfolding token_checked
token_checked-passed expected none h = absurd (cc)
token_checked-passed expected (some token) h = ground (arith, eq_of_text_eq token expected)

-- While a token is set, only a request that carries it passes.
pub require_middleware_auth-passed :
    (env : Environ) (authorization x_middleware_token : Option Text)
    → is_empty (middleware_token env) ≡ false
    → require_middleware_auth env authorization x_middleware_token ≡ passed
    → given (request_token (given authorization) (given x_middleware_token))
      ≡ some (middleware_token env)
unfolding require_middleware_auth
require_middleware_auth-passed env authorization x_middleware_token set h =
    token_checked-passed _ _ (sym (if_no (is_empty (middleware_token env)) _ _ set) ∙ h)

-- The command has passed every part of the filter; where no list is configured, it only reads.
pub record IsAllowed (compile : Text → Option (Text → Bool)) (env : Environ) (cmd : Text)
    (arguments : List Text) : Type 0 where
  pub some_argument : (c : Text) × (rest : List Text) × (arguments ≡ c ∷ rest)
  pub unblocked : is_blocked cmd ≡ false
  pub no_flag : has_disallowed_exec_flags arguments ≡ false
  pub printable : has_control_character cmd ≡ false
  pub in_list :
      ((allowlist compile env ≡ none) × ReadsOnly arguments)
      ⊎ ((patterns : List (Text → Bool)) × (allowlist compile env ≡ some patterns)
          × (any (λ matches. matches cmd) patterns ≡ true))

start-injective : {a b : List Text} → start a ≡ start b → a ≡ b
start-injective h = cc

past_guards :
    (on unset : Bool) (first second : ℕ) (detail detail' : Text) (decision : Decision)
    {arguments : List Text}
    → (if not on then refuse first detail else if unset then refuse second detail' else decision)
      ≡ start arguments
    → (on ≡ true) × (unset ≡ false) × (decision ≡ start arguments)
past_guards true true first second detail detail' decision h = absurd (cc)
past_guards true false first second detail detail' decision h = (refl, refl, h)
past_guards false unset first second detail detail' decision h = absurd (cc)

module _ (compile : Text → Option (Text → Bool)) where
  listed-cases :
      (env : Environ) (cmd : Text) (patterns : Option (List (Text → Bool))) (command : Text)
      (arguments : List Text)
      → allowlist compile env ≡ patterns
      → listed compile patterns cmd (command ∷ arguments) ≡ true
      → ((allowlist compile env ≡ none) × ReadsOnly (command ∷ arguments))
        ⊎ ((ps : List (Text → Bool)) × (allowlist compile env ≡ some ps)
            × (any (λ matches. matches cmd) ps ≡ true))
  listed-cases env cmd none command arguments e h =
      inl (e, default_command_allowed-ReadsOnly command arguments h)
  listed-cases env cmd (some ps) command arguments e h = inr (ps, e, h)

  command_allowed-IsAllowed :
      (env : Environ) (command : Text) (arguments : List Text)
      → command_allowed compile env command arguments ≡ true
      → IsAllowed compile env (strip command) arguments
  unfolding command_allowed
  command_allowed-IsAllowed env command arguments h =
      elim (if_cases (is_unfit (strip command) arguments) false _ h) [
        | inl (_, e) ↦ absurd (cc)
        | inr (clear, l) ↦
            let (clear4, printable) = or-false _ (has_control_character (strip command)) clear in
            let (clear3, no_flag) = or-false _ (has_disallowed_exec_flags arguments) clear4 in
            let (clear2, unblocked) = or-false _ (is_blocked (strip command)) clear3 in
            let (_, some_argument) = or-false _ (no_arguments arguments) clear2 in
            let (c, rest, e) = arguments_of arguments some_argument in
            record {
              some_argument = (c, rest, e);
              unblocked = unblocked;
              no_flag = no_flag;
              printable = printable;
              in_list =
                  subst
                    (λ arguments'.
                      ((allowlist compile env ≡ none) × ReadsOnly arguments')
                      ⊎ ((patterns : List (Text → Bool)) × (allowlist compile env ≡ some patterns)
                          × (any (λ matches. matches (strip command)) patterns ≡ true)))
                    (sym e)
                    (listed-cases env (strip command) (allowlist compile env) c rest refl (
                      subst
                        (λ arguments'.
                          listed compile (allowlist compile env) (strip command) arguments' ≡ true)
                        e l));
            }
      ]
    where
      arguments_of :
          (arguments : List Text)
          → no_arguments arguments ≡ false
          → (c : Text) × (rest : List Text) × (arguments ≡ c ∷ rest)
      arguments_of [] e = absurd (cc)
      arguments_of (c ∷ rest) e = (c, rest, refl)

  -- What holds when a process is started.
  pub record IsGranted (env : Environ) (body : Text) (token : Option Text) (arguments : List Text)
      : Type 0 where
    pub enabled : exec_enabled env ≡ true
    pub configured : is_empty (middleware_token env) ≡ false
    pub carried : token ≡ some (middleware_token env)
    pub split : shell_split (strip body) ≡ some arguments
    pub allowed : IsAllowed compile env (strip (strip body)) arguments

  filtered-start :
      (env : Environ) (command : Text) (words arguments : List Text)
      → filtered compile env command words ≡ start arguments
      → (words ≡ arguments) × (command_allowed compile env command words ≡ true)
  filtered-start env command words arguments h =
      elim (Bool-cases (command_allowed compile env command words)) [
        | inl allowed ↦ (start-injective (sym (pick allowed) ∙ h), allowed)
        | inr barred ↦ absurd (cc)
      ]
    where
      pick :
          command_allowed compile env command words ≡ true
          → filtered compile env command words ≡ start words
      pick allowed = rw allowed refl

  split-allowed :
      (env : Environ) (command : Text) (parts : Option (List Text)) (arguments : List Text)
      → or_empty parts ≡ arguments
      → IsAllowed compile env (strip command) arguments
      → parts ≡ some arguments
  split-allowed env command none arguments e allowed =
      let (c, rest, e') = allowed.some_argument in absurd (cc)
  split-allowed env command (some parts) arguments e allowed = ap some e

  authorised-start :
      (env : Environ) (command : Text) (auth : Auth) (arguments : List Text)
      → authorised compile env command auth ≡ start arguments
      → (auth ≡ passed)
        × (shell_split command ≡ some arguments)
        × IsAllowed compile env (strip command) arguments
  authorised-start env command passed arguments h =
      let (e, ok) = filtered-start env command (or_empty (shell_split command)) arguments h in
      let allowed : IsAllowed compile env (strip command) arguments =
        command_allowed-IsAllowed env command arguments
          (subst (λ ws. command_allowed compile env command ws ≡ true) e ok) in
      (refl, split-allowed env command (shell_split command) arguments e allowed, allowed)
  authorised-start env command (http status detail) arguments h = absurd (cc)
  authorised-start env command type_error arguments h = absurd (cc)

  -- The edge server starts a process only while local execution is enabled, a token is configured
  -- and the request carries it, and then with exactly the words of the command, which passed the
  -- filter: no blocked pattern, no flag that redirects a client or its credentials, no control
  -- character, and a match in the configured list or, without one, a command that
  -- `ReadsOnly` describes, with its written-out options.
  pub exec_decision-IsGranted :
      (env : Environ) (body : Text) (authorization x_middleware_token : Option Text)
      (arguments : List Text)
      → exec_decision compile env body authorization x_middleware_token ≡ start arguments
      → IsGranted env body
          (given (request_token (given authorization) (given x_middleware_token)))
          arguments
  unfolding exec_decision
  exec_decision-IsGranted env body authorization x_middleware_token arguments h =
      let (on, set, e) =
        past_guards (exec_enabled env) (is_empty (middleware_token env)) _ _ _ _ _ h in
      let (auth, split, allowed) = authorised-start env (strip body) _ arguments e in
      record {
        enabled = on;
        configured = set;
        carried = require_middleware_auth-passed env authorization x_middleware_token set auth;
        split = split;
        allowed = allowed;
      }
