-- ===== src/Middleware/Exec.antt =====
-- `/exec` of middleware/app.py: a command that the central agent asks for runs only if it passes
-- the filter. Starting the process and waiting for it is a parameter.
pub mod Gate
pub mod Refused
use open_devops_agent.Prelude.{
  ℕ, zero, suc, ◌-◌, Bool, true, false, ◌&&◌, ◌||◌, not, Option, none, some, List, [], ◌∷◌, ◌++◌,
  ltb, ◌==◌, if◌then◌else◌, any, reverse, String,
}
use open_devops_agent.Text.{
  Text, codes, words, text_mem, starts_with, strip, is_empty, partition_on,
}
use open_devops_agent.Text.Regex.{
  Regex, boundary, star, no_newline, literal_ci, plus, optional, space, either, in_order,
  search_text,
}
use open_devops_agent.Text.Shell.{shell_split}
use open_devops_agent.Environ.{Environ}
use open_devops_agent.Middleware.Settings.{
  Auth, passed, http, type_error, exec_enabled, exec_timeout, middleware_token,
  require_middleware_auth, allowlist,
}
use open_devops_agent.Middleware.Commands.{default_command_allowed}

abbrev word_ci : String → Regex
word_ci s = in_order (boundary ∷ literal_ci (codes s) ∷ boundary ∷ [])

-- `_BLOCKED`, in small letters under `(?i)`.
abbrev blocked : Regex
blocked = either (
    in_order
      (boundary ∷ literal_ci (codes "rm") ∷ plus space ∷ literal_ci (codes "-rf") ∷ boundary ∷ [])
    ∷ word_ci "mkfs"
    ∷ in_order (boundary ∷ literal_ci (codes "dd") ∷ plus space ∷ literal_ci (codes "if=") ∷ [])
    ∷ word_ci "shutdown"
    ∷ word_ci "reboot"
    ∷ in_order (
        boundary
        ∷ literal_ci (codes "curl")
        ∷ plus space
        ∷ star no_newline
        ∷ literal_ci (codes "|")
        ∷ star space
        ∷ optional (literal_ci (codes "ba"))
        ∷ literal_ci (codes "sh")
        ∷ boundary
        ∷ [])
    ∷ in_order (literal_ci (codes ">") ∷ star space ∷ literal_ci (codes "/dev/sd") ∷ [])
    ∷ in_order (
        literal_ci (codes "chmod")
        ∷ plus space
        ∷ literal_ci (codes "-r")
        ∷ plus space
        ∷ literal_ci (codes "777")
        ∷ [])
    ∷ [])

abbrev pub disallowed_exec_flags : List Text
disallowed_exec_flags = words (
    "--kubeconfig" ∷ "--server" ∷ "--token" ∷ "--host" ∷ "--context" ∷ "--user" ∷ "--cluster"
    ∷ "--as" ∷ "--as-group" ∷ "--as-uid" ∷ "--username" ∷ "--password" ∷ "--certificate-authority"
    ∷ "--client-certificate" ∷ "--client-key" ∷ "--insecure-skip-tls-verify" ∷ "--config" ∷ "--tls"
    ∷ "--tlsverify" ∷ "--tlscacert" ∷ "--tlscert" ∷ "--tlskey" ∷ [])

abbrev pub is_disallowed : Text → Bool
is_disallowed argument =
    text_mem (partition_on b'=' argument).0 disallowed_exec_flags
    || (starts_with argument (codes "-H") || starts_with argument (codes "-s"))

unfoldable pub has_disallowed_exec_flags : List Text → Bool
unfolding any partition_on text_mem starts_with
has_disallowed_exec_flags arguments = any is_disallowed arguments

unfoldable pub has_control_character : Text → Bool
unfolding any
has_control_character cmd = any (λ c. ltb c 32 && not (c == 9) || c == 127) cmd

abbrev pub no_arguments : List Text → Bool
no_arguments [] = true
no_arguments (_ ∷ _) = false

unfoldable pub is_blocked : Text → Bool
unfolding search_text
is_blocked cmd = search_text blocked cmd

-- The last characters, at most so many: `text[-n:]`.
unfoldable pub last_of : ℕ → Text → Text
last_of n s = reverse (first n (reverse s))
  where
    first : ℕ → Text → Text
    first zero s = []
    first (suc n) [] = []
    first (suc n) (c ∷ s) = c ∷ first n s

-- How a process ends: with its exit code (and its sign), standard output and standard error; by
-- the timeout; or with an exception.
pub data Process : Type 0 where
  finished : Bool × ℕ → Text → Text → Process
  timed_out : Process
  failed : Text → Process

-- What `/exec` answers.
pub data Reply : Type 0 where
  ran : Bool → Bool × ℕ → Text → Text → Text → Reply
  error : ℕ → Text → Reply
  raised : Reply

-- What it decides before it starts a process.
pub data Decision : Type 0 where
  start : List Text → Decision
  refuse : ℕ → Text → Decision
  raise : Decision

abbrev pub or_empty : Option (List Text) → List Text
or_empty none = []
or_empty (some words) = words

abbrev is_zero : Bool × ℕ → Bool
is_zero (_, n) = n == 0

abbrev pub after_process : Text → Process → Reply
after_process command (finished code out err) =
    ran (is_zero code) code (last_of 20000 out) (last_of 8000 err) command
after_process command timed_out = error 504 (codes "Command timed out")
after_process command (failed message) = error 500 message

-- The tests that refuse a command whatever list is configured.
abbrev pub is_unfit : Text → List Text → Bool
is_unfit cmd arguments =
    is_empty cmd
    || no_arguments arguments
    || is_blocked cmd
    || has_disallowed_exec_flags arguments
    || has_control_character cmd

module _ (compile : Text → Option (Text → Bool)) where
  -- Whether an entry of the configured list, or the default, lets the command through.
  abbrev pub listed : Option (List (Text → Bool)) → Text → List Text → Bool
  listed none cmd arguments = default_command_allowed arguments
  listed (some patterns) cmd arguments = any (λ matches. matches cmd) patterns

  unfoldable pub command_allowed : Environ → Text → List Text → Bool
  command_allowed env command arguments =
      let cmd = strip command in
      if is_unfit cmd arguments then false else listed (allowlist compile env) cmd arguments

  abbrev pub filtered : Environ → Text → List Text → Decision
  filtered env command arguments =
      if not (command_allowed env command arguments)
      then refuse 403 (codes "Command blocked by middleware allowlist / safety filter")
      else start arguments

  abbrev pub authorised : Environ → Text → Auth → Decision
  authorised env command passed = filtered env command (or_empty (shell_split command))
  authorised env command (http status detail) = refuse status detail
  authorised env command type_error = raise

  -- The guards of the handler.
  unfoldable pub exec_decision : Environ → Text → Option Text → Option Text → Decision
  exec_decision env body authorization x_middleware_token =
      if not (exec_enabled env)
      then refuse 403 (codes "Local exec disabled. Set MIDDLEWARE_EXEC_ENABLED=true to allow.")
      else if is_empty (middleware_token env)
      then refuse 503 (codes "MIDDLEWARE_AUTH_TOKEN required for exec")
      else authorised env (strip body)
          (require_middleware_auth env authorization x_middleware_token)

  module _ (run : List Text → Bool × ℕ → Process) where
    abbrev reply_to : Environ → Text → Decision → Reply
    reply_to env command (start arguments) =
        after_process command (run arguments (exec_timeout env))
    reply_to env command (refuse status detail) = error status detail
    reply_to env command raise = raised

    unfoldable pub exec_local : Environ → Text → Option Text → Option Text → Reply
    exec_local env body authorization x_middleware_token =
        reply_to env (strip body) (exec_decision env body authorization x_middleware_token)
