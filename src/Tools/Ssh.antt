-- ===== src/Tools/Ssh.antt =====
-- tools/ssh_utils.py. `shlex.quote` is for display only, and is not modelled.
use open_devops_agent.Prelude.{Bool, ◌&&◌, not, List, [], ◌∷◌, ◌++◌, if◌then◌else◌}
use open_devops_agent.Text.{Text, codes, text_eq, contains, lower, strip, is_empty}
use open_devops_agent.Environ.{Environ, getenv}

unfoldable pub strict_host_key_checking : Environ → Bool
unfolding getenv lower text_eq
strict_host_key_checking env = not (
    text_eq (lower (getenv (codes "SSH_STRICT_HOST_KEY_CHECKING") (codes "true") env))
      (codes "false"))

unfoldable pub format_ssh_target : Environ → Text → Text
unfolding getenv strip contains
format_ssh_target env host =
    let target = strip host in
    let remote_user = strip (getenv (codes "SSH_REMOTE_USER") [] env) in
    if not (is_empty remote_user) && not (contains target (codes "@"))
    then remote_user ++ b'@' ∷ target
    else target

-- The options on the host's key.
abbrev pub host_key_options : Environ → List Text
host_key_options env =
    let known_hosts = strip (getenv (codes "SSH_KNOWN_HOSTS") [] env) in
    if strict_host_key_checking env
    then (if is_empty known_hosts
        then []
        else codes "-o" ∷ (codes "UserKnownHostsFile=" ++ known_hosts) ∷ [])
      ++ (codes "-o" ∷ codes "StrictHostKeyChecking=yes" ∷ [])
    else codes "-o" ∷ codes "StrictHostKeyChecking=no" ∷ []

unfoldable pub build_ssh_argv : Environ → Text → Text → List Text
unfolding strict_host_key_checking format_ssh_target
build_ssh_argv env host remote_command =
    codes "ssh"
    ∷ codes "-o"
    ∷ (codes "ConnectTimeout=" ++ getenv (codes "SSH_CONNECT_TIMEOUT") (codes "10") env)
    ∷ (host_key_options env ++ (format_ssh_target env host ∷ remote_command ∷ []))
