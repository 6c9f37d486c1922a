-- ===== src/Middleware/Commands.antt =====
-- The commands that middleware/app.py runs by default, by the program's name.
pub mod Known
pub mod Cluster
pub mod ReadOnly
use open_devops_agent.Prelude.{
  Bool, true, false, ◌&&◌, ◌||◌, not, Option, none, some, List, [], ◌∷◌, ◌++◌, if◌then◌else◌, any,
  all, leb, length,
}
use open_devops_agent.Text.{
  Text, codes, words, text_eq, text_mem, starts_with, partition_on, contains,
}
use open_devops_agent.Storage.Memory.{Objects}
use open_devops_agent.Middleware.Values.{
  is_identifier, is_unit, is_bounded_integer, is_safe_time_filter, is_duration, is_selector,
  kubectl_get_resources, kubectl_describe_resources, kubectl_resource_allowed,
}
use open_devops_agent.Middleware.Options.{Check, parse_options}

-- `maximum` where the caller gives none
abbrev pub bounded : Check
bounded = is_bounded_integer 10000

abbrev pub get_switches : List Text
get_switches = words ("-A" ∷ "--all-namespaces" ∷ "--show-labels" ∷ "--no-headers" ∷ [])

abbrev pub describe_switches : List Text
describe_switches = words ("-A" ∷ "--all-namespaces" ∷ [])

abbrev is_output : Check
is_output value = text_mem value (codes "wide" ∷ codes "name" ∷ [])

abbrev pub describe_options : Objects Check
describe_options =
    (codes "-n", is_identifier)
    ∷ (codes "--namespace", is_identifier)
    ∷ (codes "-l", is_selector)
    ∷ (codes "--selector", is_selector)
    ∷ []

abbrev pub get_options : Objects Check
get_options = describe_options ++ (codes "-o", is_output) ∷ (codes "--output", is_output) ∷ []

-- The test of `get` and `describe` on the arguments that are no options.
abbrev pub inspects : Text → List Text → Option (List Text) → Bool
inspects subcommand resources none = false
inspects subcommand resources (some (verb ∷ target ∷ names)) =
    text_eq verb subcommand
    && (kubectl_resource_allowed target resources && all is_identifier names)
inspects subcommand resources (some _) = false

abbrev pub logs_options : Objects Check
logs_options =
    (codes "-n", is_identifier)
    ∷ (codes "--namespace", is_identifier)
    ∷ (codes "-c", is_identifier)
    ∷ (codes "--container", is_identifier)
    ∷ (codes "--tail", bounded)
    ∷ (codes "--since", is_duration)
    ∷ (codes "--since-time", is_safe_time_filter)
    ∷ []

abbrev pub reads_logs : Option (List Text) → Bool
reads_logs (some (verb ∷ target ∷ [])) =
    text_eq verb (codes "logs")
    && (if not (contains target (codes "/"))
        then is_identifier target
        else kubectl_resource_allowed target (codes "pods" ∷ codes "deployments" ∷ []))
reads_logs _ = false

abbrev pub rollout_options : Objects Check
rollout_options =
    (codes "-n", is_identifier)
    ∷ (codes "--namespace", is_identifier)
    ∷ (codes "--timeout", is_duration)
    ∷ (codes "--watch", λ value. text_eq value (codes "false"))
    ∷ []

abbrev pub watches_rollout : Option (List Text) → Bool
watches_rollout (some (verb ∷ action ∷ target ∷ [])) =
    text_eq verb (codes "rollout")
    && (text_eq action (codes "status")
        && kubectl_resource_allowed target
            (codes "deployments" ∷ codes "daemonsets" ∷ codes "statefulsets" ∷ []))
watches_rollout _ = false

-- The arguments from the subcommand on.
abbrev kubectl_subcommand : Text → List Text → Bool
kubectl_subcommand subcommand arguments =
    if text_eq subcommand (codes "get")
    then inspects (codes "get") kubectl_get_resources
        (parse_options arguments get_switches get_options)
    else if text_eq subcommand (codes "describe")
    then inspects (codes "describe") kubectl_describe_resources
        (parse_options arguments describe_switches describe_options)
    else if text_eq subcommand (codes "logs")
    then reads_logs
        (parse_options arguments (codes "--timestamps" ∷ codes "--previous" ∷ []) logs_options)
    else if text_eq subcommand (codes "rollout")
    then watches_rollout (parse_options arguments [] rollout_options)
    else false

unfoldable pub kubectl_command_allowed : List Text → Bool
unfolding text_eq
kubectl_command_allowed (command ∷ subcommand ∷ arguments) =
    kubectl_subcommand subcommand (subcommand ∷ arguments)
kubectl_command_allowed _ = false

abbrev pub journalctl_options : Objects Check
journalctl_options =
    (codes "-u", is_unit)
    ∷ (codes "--unit", is_unit)
    ∷ (codes "-n", bounded)
    ∷ (codes "--lines", bounded)
    ∷ (codes "--since", is_safe_time_filter)
    ∷ (codes "--until", is_safe_time_filter)
    ∷ []

abbrev filtering_options : List Text
filtering_options = words ("-u" ∷ "--unit" ∷ "-n" ∷ "--lines" ∷ "--since" ∷ [])

abbrev pub is_filter : Text → Bool
is_filter option =
    text_mem option filtering_options
    || any (λ name. starts_with option (name ++ codes "=")) filtering_options

abbrev pub only_options : Option (List Text) → Bool
only_options (some []) = true
only_options _ = false

unfoldable pub journalctl_command_allowed : List Text → Bool
unfolding any text_mem starts_with
journalctl_command_allowed arguments =
    only_options
      (parse_options arguments (words ("--no-pager" ∷ "-b" ∷ "--boot" ∷ [])) journalctl_options)
    && any is_filter arguments

abbrev pub one_identifier : Option (List Text) → Bool
one_identifier (some (name ∷ [])) = is_identifier name
one_identifier _ = false

abbrev docker_logs_options : Objects Check
docker_logs_options =
    (codes "--tail", bounded)
    ∷ (codes "--since", is_safe_time_filter)
    ∷ (codes "--until", is_safe_time_filter)
    ∷ []

abbrev pub docker_command_allowed : Text → List Text → Bool
docker_command_allowed verb arguments =
    if text_eq verb (codes "ps")
    then only_options (
        parse_options arguments
          (words ("-a" ∷ "--all" ∷ "--no-trunc" ∷ "--size" ∷ "-q" ∷ "--quiet" ∷ [])) [])
    else if text_eq verb (codes "logs")
    then one_identifier (parse_options arguments (codes "--timestamps" ∷ []) docker_logs_options)
    else false

abbrev is_service : Text → Bool
is_service service = text_mem service (codes "nginx" ∷ codes "docker" ∷ [])

abbrev pub asks_status : Option (List Text) → Bool
asks_status (some (verb ∷ service ∷ services)) =
    text_eq verb (codes "status") && all is_service (service ∷ services)
asks_status _ = false

-- arguments == [command, option]
abbrev pub is_exactly : Text → List Text → Bool
is_exactly option (argument ∷ []) = text_eq argument option
is_exactly option _ = false

abbrev pub docker_allowed : List Text → Bool
docker_allowed (verb ∷ arguments) = docker_command_allowed verb arguments
docker_allowed [] = false

-- The command and the arguments after it. The source reads `arguments[0]` after a test that
-- there is one.
abbrev pub default_allowed : Text → List Text → Bool
default_allowed command arguments =
    if text_eq command (codes "docker")
    then docker_allowed arguments
    else if text_eq command (codes "systemctl")
    then asks_status (
        parse_options arguments (codes "--no-pager" ∷ [])
          ((codes "-n", bounded) ∷ (codes "--lines", bounded) ∷ []))
    else if text_eq command (codes "nginx")
    then is_exactly (codes "-t") arguments
    else if text_eq command (codes "df")
    then is_exactly (codes "-h") arguments
    else if text_eq command (codes "journalctl")
    then journalctl_command_allowed arguments
    else if text_eq command (codes "kubectl")
    then kubectl_command_allowed (command ∷ arguments)
    else false

unfoldable pub default_command_allowed : List Text → Bool
unfolding text_eq
default_command_allowed [] = false
default_command_allowed (command ∷ arguments) = default_allowed command arguments
