-- ===== src/Tools/Executor.antt =====
-- tools/executor.py: which commands run, which wait for a human, and which are refused. A process
-- that is started is a value, `execute`; what it prints and returns is the operating system's.
pub mod Gates
pub mod Approved
pub mod Once
use open_devops_agent.Prelude.{
  Bool, true, false, ◌&&◌, ◌||◌, not, Option, none, some, List, [], ◌∷◌, ◌++◌, if◌then◌else◌, any,
  String,
}
use open_devops_agent.Text.{
  Text, codes, words, text_mem, contains, contains_any, starts_with, lower, strip, is_empty,
}
use open_devops_agent.Environ.{Environ, env_true}
use open_devops_agent.Tools.Safety.{
  requires_configured_approval, is_emergency_stop_active, Block, emergency_stop_block,
  default_stop_message,
}
use open_devops_agent.Tools.Ssh.{build_ssh_argv}

abbrev pub always_safe : List Text
always_safe = words (
    "kubectl get" ∷ "kubectl describe" ∷ "kubectl logs" ∷ "kubectl rollout status"
    ∷ "kubectl rollout history" ∷ "kubectl top" ∷ "kubectl version" ∷ "df " ∷ "df -" ∷ "free "
    ∷ "uptime" ∷ "ps aux" ∷ "ss -" ∷ "journalctl" ∷ "systemctl status" ∷ "systemctl is-active"
    ∷ "nginx -t" ∷ "docker ps" ∷ "docker images" ∷ "docker logs" ∷ "docker inspect" ∷ "docker stats"
    ∷ [])

abbrev pub allowed_with_auto_apply : List Text
allowed_with_auto_apply = words (
    "kubectl rollout restart" ∷ "kubectl scale" ∷ "kubectl apply" ∷ "kubectl rollout undo"
    ∷ "systemctl restart" ∷ "systemctl reload" ∷ "nginx -s reload" ∷ "nginx -s reopen"
    ∷ "docker restart" ∷ "docker start" ∷ "docker stop" ∷ [])

abbrev pub always_require_approval : List Text
always_require_approval = words (
    "kubectl delete" ∷ "kubectl exec" ∷ "rm " ∷ "rm -" ∷ "dd " ∷ "mkfs" ∷ "fdisk" ∷ "kill -9"
    ∷ "shutdown" ∷ "reboot" ∷ [])

pub data Classification : Type 0 where
  safe allowed requires_approval : Classification

-- `cmd.startswith(safe.lower()) or safe.lower() in cmd`, for one of the safe commands
unfoldable pub is_always_safe : Text → Bool
unfolding any starts_with contains lower
is_always_safe cmd = any (λ s. starts_with cmd (lower s) || contains cmd (lower s)) always_safe

unfoldable pub is_auto_applied : Text → Bool
unfolding any starts_with lower
is_auto_applied cmd = any (λ s. starts_with cmd (lower s)) allowed_with_auto_apply

unfoldable pub classify : Environ → Text → Classification
unfolding requires_configured_approval contains_any is_always_safe is_auto_applied lower strip
classify env command =
    let cmd = lower (strip command) in
    if requires_configured_approval env command
    then requires_approval
    else if contains_any always_require_approval cmd
    then requires_approval
    else if is_always_safe cmd
    then safe
    else if is_auto_applied cmd
    then allowed
    else requires_approval

abbrev pub is_safe : Classification → Bool
is_safe safe = true
is_safe _ = false

-- What a call of the executor comes to. `pending` carries the command, from which the payload of
-- the approval is made, and the message.
pub data Outcome : Type 0 where
  stopped : Block → Outcome
  pending : Text → Text → Outcome
  unavailable : Text → Outcome
  execute : Text → Option Text → Outcome

unfoldable pub approval_message : Text → Text
approval_message command = codes "Command requires human approval: `" ++ (command ++ codes "`")

unfoldable pub auto_apply_message : Text → Text
auto_apply_message command =
    codes "AUTO_APPLY=false. Approval needed for: `" ++ (command ++ codes "`")

-- The rest of `run_safe`, once the command is classified.
abbrev pub gated : Bool → Classification → Bool → Text → Option Text → Outcome
gated stop safe auto_apply command host = execute command host
gated true _ auto_apply command host = stopped (emergency_stop_block default_stop_message)
gated false allowed true command host = execute command host
gated false requires_approval true command host = execute command host
gated false allowed false command host = pending command (auto_apply_message command)
gated false requires_approval false command host = pending command (approval_message command)

-- `auto_apply` is the attribute that `SafeExecutor()` reads from AUTO_APPLY.
unfoldable pub auto_apply_of : Environ → Bool
unfolding env_true
auto_apply_of env = env_true (codes "AUTO_APPLY") (codes "false") env

unfoldable pub run_safe : Environ → Bool → Text → Option Text → Outcome
unfolding classify is_emergency_stop_active
run_safe env auto_apply command host =
    gated (is_emergency_stop_active env) (classify env command) auto_apply command host

-- How `_exec` starts a process: in a local shell, or as the argument vector of ssh.
pub data Process : Type 0 where
  shell : Text → Process
  ssh : List Text → Process

abbrev pub process_at : Environ → Text → Text → Process
process_at env command host =
    if not (is_empty host) && not (text_mem host (codes "localhost" ∷ codes "127.0.0.1" ∷ [] ∷ []))
    then ssh (build_ssh_argv env host command)
    else shell command

unfoldable pub process_of : Environ → Text → Option Text → Process
unfolding text_mem build_ssh_argv
process_of env command none = shell command
process_of env command (some host) = process_at env command host
