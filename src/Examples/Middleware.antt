-- ===== src/Examples/Middleware.antt =====
-- Runs of the edge server on small inputs.
use open_devops_agent.Environ.{comma_list, Environ}
use open_devops_agent.Middleware.Settings.{
  trust_setting, is_caller_org_id_allowed, default_host, agent_base, allowlist, token_checked,
  middleware_token, exec_enabled, request_token, require_middleware_auth, passed,
}
use open_devops_agent.Json.{
  truthy, merge_without, set_field, set_default, get_field, str_of, Json, object, field, string,
  end, Fields,
}
use open_devops_agent.Middleware.Forward.{
  caller_org, chosen_org, with_type, with_host, with_labels, prepared_payload, prepare, Prepared,
  Outgoing, post,
}
use open_devops_agent.Text.{
  lower, contains, partition_on, text_mem, starts_with, is_space, Text, codes, words,
}
use open_devops_agent.Middleware.Exec.{
  has_control_character, has_disallowed_exec_flags, command_allowed, is_blocked, exec_decision,
  start, refuse,
}
use open_devops_agent.Middleware.Values.{
  is_unit, canonical_of, resource_allowed, kubectl_resource_allowed, is_identifier, is_duration,
  is_bounded_integer,
}
use open_devops_agent.Middleware.Commands.{
  journalctl_command_allowed, kubectl_command_allowed, default_command_allowed,
}
use open_devops_agent.Storage.Memory
use open_devops_agent.Middleware.Options.{read_token, parse_from, Check, parse_options}
use open_devops_agent.Text.Regex.{fold_code}
use open_devops_agent.Storage.Memory.{Objects}
use open_devops_agent.Api.Webhook.{given}
use open_devops_agent.Middleware.Options.Items.{
  IsValid, written, plains, Item, plain, switch, inline, spaced,
}
use open_devops_agent.Middleware.Options.Inverse.{parse_options-Parsed, parse_options-written}
use open_devops_agent.Middleware.Exec.Refused.{IsRefused, exec_decision-IsRefused}
use open_devops_agent.Middleware.Exec.Gate.{IsGranted, exec_decision-IsGranted}
use open_devops_agent.Middleware.Forward.Vouched.{IsVouchedFor, prepare-IsVouchedFor}
use open_devops_agent.Prelude.{
  ◌≡◌, refl, arith, Bool, true, false, Option, none, some, List, [], ◌∷◌, ◌++◌,
}
use open_devops_agent.Text.Shell.{shell_split}

splits :
    shell_split (codes "docker  logs 'a b'\\ c \"d\\\"e\" ''")
    ≡ some (words ("docker" ∷ "logs" ∷ "a b c" ∷ "d\"e" ∷ "" ∷ []))
unfolding shell_split
splits = refl

split_open : shell_split (codes "echo 'a") ≡ none
unfolding shell_split
split_open = refl

blocks :
    (is_blocked (codes "sudo RM  -rf /") ≡ true)
    × (is_blocked (codes "curl http://h/x | bash") ≡ true)
    × (is_blocked (codes "echo rebooted") ≡ false)
    × (is_blocked (codes "df -h") ≡ false)
unfolding is_blocked fold_code is_space
blocks = (refl, refl, refl, refl)

durations :
    (is_duration (codes "90s") ≡ true)
    × (is_duration (codes "25h") ≡ false)
    × (is_duration (codes "05m") ≡ false)
    × (is_duration (codes "3600000ms") ≡ false)
unfolding is_duration
durations = (refl, refl, refl, refl)

allows :
    (default_command_allowed (words ("kubectl" ∷ "get" ∷ "po/web-1" ∷ "-n" ∷ "prod" ∷ [])) ≡ true)
    × (default_command_allowed (words ("kubectl" ∷ "get" ∷ "secrets" ∷ [])) ≡ false)
    × (default_command_allowed (words ("kubectl" ∷ "get" ∷ "SEC/db" ∷ [])) ≡ false)
    × (default_command_allowed (words ("kubectl" ∷ "logs" ∷ "web" ∷ "--tail=50" ∷ [])) ≡ true)
    × (default_command_allowed (words ("docker" ∷ "ps" ∷ "-a" ∷ "-a" ∷ [])) ≡ false)
    × (default_command_allowed (words ("journalctl" ∷ "-u" ∷ "nginx" ∷ "-n" ∷ "100" ∷ [])) ≡ true)
    × (default_command_allowed (words ("journalctl" ∷ "--no-pager" ∷ [])) ≡ false)
unfolding default_command_allowed kubectl_command_allowed parse_options parse_from read_token
    starts_with text_mem partition_on Memory.get is_identifier kubectl_resource_allowed
    resource_allowed canonical_of is_bounded_integer contains journalctl_command_allowed is_unit
allows = (refl, refl, refl, refl, refl, refl, refl)

abbrev tail_of : List Text
tail_of = words ("--tail=50" ∷ "web" ∷ "-n" ∷ "prod" ∷ "--previous" ∷ [])

abbrev log_switches : List Text
log_switches = words ("--timestamps" ∷ "--previous" ∷ [])

abbrev log_options : Objects Check
log_options =
    (codes "-n", is_identifier) ∷ (codes "--tail", λ value. is_bounded_integer 10000 value) ∷ []

parsed_tail : parse_options tail_of log_switches log_options ≡ some (codes "web" ∷ [])
unfolding parse_options parse_from read_token starts_with text_mem partition_on Memory.get
    is_bounded_integer is_identifier
parsed_tail = refl

parse_options-Parsed_example :
    (items : List Item) × IsValid log_switches log_options [] items
    × (written items ≡ tail_of)
    × (plains items ≡ codes "web" ∷ [])
parse_options-Parsed_example =
    parse_options-Parsed tail_of log_switches log_options (codes "web" ∷ []) parsed_tail

abbrev tail_items : List Item
tail_items =
    inline (codes "--tail") (codes "50")
    ∷ plain (codes "web")
    ∷ spaced (codes "-n") (codes "prod")
    ∷ switch (codes "--previous")
    ∷ []

tail_items-IsValid : IsValid log_switches log_options [] tail_items
unfolding starts_with text_mem Memory.get is_identifier is_bounded_integer
tail_items-IsValid = (
  (refl, ground arith, refl),
  (_, refl, refl),
  (
    refl,
    ((refl, ground arith, refl), refl, (_, refl, refl), ((refl, ground arith, refl), refl, tt)),
  ),
)

parse_options-written_example :
    parse_options (written tail_items) log_switches log_options ≡ some (plains tail_items)
parse_options-written_example =
    parse_options-written log_switches log_options tail_items tail_items-IsValid

abbrev get_pods : List Text
get_pods = words ("get" ∷ "po/web-1" ∷ "-n" ∷ "prod" ∷ [])

abbrev edge : Environ
edge =
    (codes "MIDDLEWARE_EXEC_ENABLED", codes "true")
    ∷ (codes "MIDDLEWARE_AUTH_TOKEN", codes "s3cret")
    ∷ (codes "AGENT_BASE_URL", codes "https://agent/")
    ∷ (codes "MIDDLEWARE_TRUST_CALLER_ORG_ID", codes "acme, globex")
    ∷ []

-- No pattern is configured here.
abbrev no_pattern : Text → Option (Text → Bool)
no_pattern _ = none

abbrev bearer : Option Text
bearer = some (codes "Bearer s3cret ")

starts_df :
    exec_decision no_pattern edge (codes " df -h") bearer none ≡ start (words ("df" ∷ "-h" ∷ []))
unfolding exec_decision exec_enabled middleware_token require_middleware_auth token_checked
    request_token starts_with command_allowed shell_split is_blocked fold_code
    has_disallowed_exec_flags has_control_character allowlist default_command_allowed
starts_df = refl

exec_decision-IsGranted_example :
    IsGranted no_pattern edge
      (codes " df -h")
      (given (request_token (given bearer) (given none)))
      (words ("df" ∷ "-h" ∷ []))
exec_decision-IsGranted_example =
    exec_decision-IsGranted no_pattern edge (codes " df -h") bearer none (words ("df" ∷ "-h" ∷ []))
      starts_df

wrong_token :
    exec_decision no_pattern edge (codes "df -h") (some (codes "Bearer x")) none
    ≡ refuse 401 (codes "Invalid middleware token")
unfolding exec_decision exec_enabled middleware_token require_middleware_auth token_checked
    request_token starts_with
wrong_token = refl

exec_decision-IsRefused_example :
    IsRefused no_pattern edge
      (codes "df -h")
      (given (request_token (given (some (codes "Bearer x"))) (given none)))
      401
exec_decision-IsRefused_example =
    exec_decision-IsRefused no_pattern edge (codes "df -h") (some (codes "Bearer x")) none 401
      (codes "Invalid middleware token") wrong_token

-- Refusals, each with its status.
refuses :
    (exec_decision no_pattern [] (codes "df -h") bearer none
      ≡ refuse 403 (codes "Local exec disabled. Set MIDDLEWARE_EXEC_ENABLED=true to allow."))
    × (exec_decision no_pattern edge (codes "df -h") (some (codes "Bearer x")) none
        ≡ refuse 401 (codes "Invalid middleware token"))
    × (exec_decision no_pattern edge (codes "kubectl get nodes --token=x") bearer none
        ≡ refuse 403 (codes "Command blocked by middleware allowlist / safety filter"))
unfolding exec_decision exec_enabled middleware_token require_middleware_auth token_checked
    request_token starts_with command_allowed shell_split is_blocked fold_code
    has_disallowed_exec_flags
refuses = (refl, refl, refl)

-- Stand-ins for JSON text, for `repr` and for the digest.
abbrev loads : Text → Option Json
loads raw = some (
    object
      (field (codes "message") (string raw) (field (codes "org_id") (string (codes "acme")) end)))

abbrev dumps : Json → Text
dumps _ = codes "{}"

abbrev shown : Json → Text
shown _ = []

abbrev keyed : Text → Text → Text
keyed key body = key ++ body

abbrev prepared : Prepared Text
prepared = prepare loads dumps shown keyed edge none none bearer none (codes "disk full")

abbrev sent_request : Prepared Text → Outgoing Text
sent_request (post request _) = request
sent_request _ = record { url = []; body = []; x_org_id = []; signature = none }

abbrev sent_payload : Prepared Text → Fields
sent_payload (post _ payload) = payload
sent_payload _ = end

posts : prepared ≡ post (sent_request prepared) (sent_payload prepared)
unfolding prepare require_middleware_auth middleware_token token_checked request_token starts_with
    lower agent_base
posts = refl

posts_for_acme : (sent_request prepared).x_org_id ≡ codes "acme"
unfolding prepare require_middleware_auth middleware_token token_checked request_token starts_with
    lower agent_base str_of get_field prepared_payload with_labels set_default with_host
    default_host set_field with_type merge_without chosen_org caller_org truthy
    is_caller_org_id_allowed text_mem trust_setting comma_list
posts_for_acme = refl

prepare-IsVouchedFor_example :
    (require_middleware_auth edge bearer none ≡ passed)
    × IsVouchedFor loads dumps shown keyed edge (sent_request prepared) (sent_payload prepared)
prepare-IsVouchedFor_example =
    prepare-IsVouchedFor loads dumps shown keyed edge none none bearer none (codes "disk full")
      (sent_request prepared) (sent_payload prepared) posts
