-- ===== src/Middleware/Values.antt =====
-- The checks of an option's value or of a name in middleware/app.py. The patterns are matched in
-- full: a first character of one class, then characters of another, so many at most.
use open_devops_agent.Prelude.{
  ℕ, Bool, true, false, ◌&&◌, ◌||◌, not, Option, none, some, List, [], ◌∷◌, leb, ◌==◌,
  if◌then◌else◌, length, all, any,
}
use open_devops_agent.Text.{Text, codes, words, text_eq, text_mem, lower, partition_on}
use open_devops_agent.Text.Decimal.{parse_int}
use open_devops_agent.Storage.Memory
use open_devops_agent.Storage.Memory.{Objects}

abbrev pub is_digit : ℕ → Bool
is_digit c = leb b'0' c && leb c b'9'

abbrev pub is_alnum : ℕ → Bool
is_alnum c = is_digit c || leb b'A' c && leb c b'Z' || leb b'a' c && leb c b'z'

-- The character is one of these.
unfoldable pub one_of : Text → ℕ → Bool
unfolding any
one_of cs c = any (λ d. c == d) cs

abbrev name_code : ℕ → Bool
name_code c = is_alnum c || one_of (codes "_.-") c

unfoldable pub is_identifier : Text → Bool
unfolding all one_of
is_identifier [] = false
is_identifier (c ∷ s) = is_alnum c && (all name_code s && leb (length s) 127)

unfoldable pub is_unit : Text → Bool
unfolding all one_of
is_unit s =
    all (λ c. is_alnum c || one_of (codes "_.@:-") c) s && (leb 1 (length s) && leb (length s) 128)

abbrev within_limit : ℕ → Option ℕ → Bool
within_limit maximum none = false
within_limit maximum (some n) = leb 1 n && leb n maximum

unfoldable pub is_bounded_integer : ℕ → Text → Bool
unfolding all parse_int
is_bounded_integer maximum s =
    if not (all is_digit s && (leb 1 (length s) && leb (length s) 5))
    then false
    else within_limit maximum (parse_int s)

unfoldable pub is_safe_time_filter : Text → Bool
unfolding all one_of
is_safe_time_filter [] = false
is_safe_time_filter (c ∷ s) =
    leb (length (c ∷ s)) 80 && (is_alnum c && all (λ d. is_alnum d || one_of (codes " .:+/_-") d) s)

-- The digits at the front, and what follows them.
unfoldable pub leading_digits : Text → Text × Text
leading_digits [] = ([], [])
leading_digits (c ∷ s) =
    let rest = leading_digits s in
    elim (is_digit c) [ true ↦ (c ∷ rest.0, rest.1) | false ↦ ([], c ∷ s) ]

-- The most of a unit of time that is accepted; `none` for what is no unit.
unfoldable pub duration_maximum : Text → Option ℕ
unfolding text_eq
duration_maximum unit =
    if text_eq unit (codes "ms")
    then some 3600000
    else if text_eq unit (codes "s")
    then some 86400
    else if text_eq unit (codes "m")
    then some 1440
    else if text_eq unit (codes "h")
    then some 24
    else none

abbrev at_most : Option ℕ → Option ℕ → Bool
at_most none maximum = false
at_most (some n) none = false
at_most (some n) (some maximum) = leb n maximum

-- The digits begin with one that is not 0, and are five at most.
abbrev starts_nonzero : Text → Bool
starts_nonzero [] = false
starts_nonzero (c ∷ s) = not (c == b'0') && leb (length s) 4

unfoldable pub is_duration : Text → Bool
unfolding leading_digits duration_maximum parse_int
is_duration s =
    let (digits, unit) = leading_digits s in
    if starts_nonzero digits then at_most (parse_int digits) (duration_maximum unit) else false

unfoldable pub is_selector : Text → Bool
unfolding all one_of
is_selector s =
    leb (length s) 256
    && (leb 1 (length s) && all (λ c. is_alnum c || one_of (codes "_.!:=,()/+-") c) s)

-- Names of resources, the alias first.
abbrev pub kubectl_resource_aliases : Objects Text
kubectl_resource_aliases =
    (codes "all", codes "all")
    ∷ (codes "pod", codes "pods")
    ∷ (codes "pods", codes "pods")
    ∷ (codes "po", codes "pods")
    ∷ (codes "deployment", codes "deployments")
    ∷ (codes "deployments", codes "deployments")
    ∷ (codes "deploy", codes "deployments")
    ∷ (codes "replicaset", codes "replicasets")
    ∷ (codes "replicasets", codes "replicasets")
    ∷ (codes "rs", codes "replicasets")
    ∷ (codes "statefulset", codes "statefulsets")
    ∷ (codes "statefulsets", codes "statefulsets")
    ∷ (codes "sts", codes "statefulsets")
    ∷ (codes "daemonset", codes "daemonsets")
    ∷ (codes "daemonsets", codes "daemonsets")
    ∷ (codes "ds", codes "daemonsets")
    ∷ (codes "service", codes "services")
    ∷ (codes "services", codes "services")
    ∷ (codes "svc", codes "services")
    ∷ (codes "node", codes "nodes")
    ∷ (codes "nodes", codes "nodes")
    ∷ (codes "no", codes "nodes")
    ∷ (codes "event", codes "events")
    ∷ (codes "events", codes "events")
    ∷ (codes "ev", codes "events")
    ∷ (codes "job", codes "jobs")
    ∷ (codes "jobs", codes "jobs")
    ∷ (codes "cronjob", codes "cronjobs")
    ∷ (codes "cronjobs", codes "cronjobs")
    ∷ (codes "cj", codes "cronjobs")
    ∷ (codes "namespace", codes "namespaces")
    ∷ (codes "namespaces", codes "namespaces")
    ∷ (codes "ns", codes "namespaces")
    ∷ (codes "secret", codes "secrets")
    ∷ (codes "secrets", codes "secrets")
    ∷ (codes "sec", codes "secrets")
    ∷ (codes "configmap", codes "configmaps")
    ∷ (codes "configmaps", codes "configmaps")
    ∷ (codes "cm", codes "configmaps")
    ∷ []

abbrev pub kubectl_get_resources : List Text
kubectl_get_resources = words (
    "all" ∷ "pods" ∷ "deployments" ∷ "replicasets" ∷ "statefulsets" ∷ "daemonsets" ∷ "services"
    ∷ "nodes" ∷ "events" ∷ "jobs" ∷ "cronjobs" ∷ "namespaces" ∷ [])

abbrev pub kubectl_describe_resources : List Text
kubectl_describe_resources = words ("nodes" ∷ "services" ∷ "events" ∷ "namespaces" ∷ [])

-- A name after the slash: what `separator` and `name` ask of it.
abbrev named_resource : Text → Bool → Text → Bool
named_resource canonical true name = not (text_eq canonical (codes "all")) && is_identifier name
named_resource canonical false name = true

unfoldable pub resource_allowed : List Text → Option Text → Bool × Text → Bool
unfolding text_eq text_mem
resource_allowed resources none rest = false
resource_allowed resources (some canonical) (separator, name) =
    if text_mem canonical resources then named_resource canonical separator name else false

-- The resource that a target names: its alias looked up in small letters.
unfoldable pub canonical_of : Text → Option Text
unfolding lower partition_on Memory.get
canonical_of target = Memory.get (lower (partition_on b'/' target).0) kubectl_resource_aliases

unfoldable pub kubectl_resource_allowed : Text → List Text → Bool
unfolding partition_on
kubectl_resource_allowed target resources =
    let parts = partition_on b'/' target in
    resource_allowed resources (canonical_of target) (parts.1, parts.2)
