-- ===== src/Middleware/Commands/Cluster.antt =====
-- What the kubectl commands of middleware/app.py are about.
use open_devops_agent.Prelude.{
  ap, ◌≡◌, refl, ◌⊎◌, inl, inr, Bool, true, not, Option, none, some, List, [], ◌∷◌, if_cases,
  and-true, if◌then◌else◌, all,
}
use open_devops_agent.Text.{Text, codes, text_eq, text_mem, contains, lower, partition_on}
use open_devops_agent.Text.Laws.{eq_of_text_eq}
use open_devops_agent.Storage.Memory
use open_devops_agent.Storage.Memory.{Objects}
use open_devops_agent.Middleware.Commands.Known.{
  Known, get_known, describe_known, logs_known, rollout_known, listable, describable,
  resource_of_name,
}
use open_devops_agent.Middleware.Values.{
  is_identifier, kubectl_get_resources, kubectl_describe_resources, kubectl_resource_allowed,
  canonical_of, resource_allowed,
}
use open_devops_agent.Middleware.Options.{parse_options}
use open_devops_agent.Middleware.Commands.{
  inspects, reads_logs, watches_rollout, kubectl_command_allowed,
}

-- The target's resource is one of these, whatever alias it is given by.
abbrev pub Names : List Text → Text → Type 0
Names resources target =
    (r : Text) × (Memory.get (lower (partition_on b'/' target).0) resource_of_name ≡ some r)
    × (text_mem r resources ≡ true)

resource_allowed-Names :
    (resources : List Text) (found : Option Text) (rest : Bool × Text)
    → resource_allowed resources found rest ≡ true
    → (r : Text) × (found ≡ some r) × (text_mem r resources ≡ true)
unfolding resource_allowed
resource_allowed-Names resources none rest h = absurd (cc)
resource_allowed-Names resources (some r) (separator, name) h =
    elim (if_cases (text_mem r resources) _ _ h) [
      | inl (known, _) ↦ (r, refl, known)
      | inr (_, e) ↦ absurd (cc)
    ]

kubectl_resource_allowed-Names :
    (target : Text) (resources : List Text)
    → kubectl_resource_allowed target resources ≡ true
    → Names resources target
unfolding kubectl_resource_allowed canonical_of
kubectl_resource_allowed-Names target resources h =
    resource_allowed-Names resources (canonical_of target) _ h

-- The ways of reading the cluster.
pub data Reading : Type 0 where
  getting describing logging watching : Reading

-- The options that go with each.
abbrev pub known_for : Reading → Known
known_for getting = get_known
known_for describing = describe_known
known_for logging = logs_known
known_for watching = rollout_known

-- The arguments of kubectl that are no options: `get` or `describe` of listed resources, `logs`
-- of a pod or a deployment, or `rollout status`.
pub data ReadsCluster : Reading → List Text → Type 0 where
  gets :
      (target : Text) (names : List Text)
      → Names listable target
      → all is_identifier names ≡ true
      → ReadsCluster getting (codes "get" ∷ target ∷ names)
  describes :
      (target : Text) (names : List Text)
      → Names describable target
      → all is_identifier names ≡ true
      → ReadsCluster describing (codes "describe" ∷ target ∷ names)
  logs_of :
      (target : Text)
      → (is_identifier target ≡ true) ⊎ Names (codes "pods" ∷ codes "deployments" ∷ []) target
      → ReadsCluster logging (codes "logs" ∷ target ∷ [])
  status_of :
      (target : Text)
      → Names (codes "deployments" ∷ codes "daemonsets" ∷ codes "statefulsets" ∷ []) target
      → ReadsCluster watching (codes "rollout" ∷ codes "status" ∷ target ∷ [])

-- The options were accepted, and the other arguments are such.
abbrev pub Leaves : Option (List Text) → (List Text → Type 0) → Type 0
Leaves parsed P = (positionals : List Text) × (parsed ≡ some positionals) × P positionals

abbrev pub KubectlReads : List Text → Type 0
KubectlReads arguments =
    (way : Reading) × Leaves
      (parse_options arguments (known_for way).alone (known_for way).with_value) (ReadsCluster way)

-- A verb, and a resource with names.
abbrev IsAbout : Text → List Text → List Text → Type 0
IsAbout verb resources positionals =
    (target : Text) × (names : List Text) × (positionals ≡ verb ∷ target ∷ names)
    × Names resources target
    × (all is_identifier names ≡ true)

inspects-IsAbout :
    (verb : Text) (resources : List Text) (positionals : Option (List Text))
    → inspects verb resources positionals ≡ true
    → Leaves positionals (IsAbout verb resources)
inspects-IsAbout verb resources none h = absurd (cc)
inspects-IsAbout verb resources (some []) h = absurd (cc)
inspects-IsAbout verb resources (some (v ∷ [])) h = absurd (cc)
inspects-IsAbout verb resources (some (v ∷ target ∷ names)) h =
    let (same, rest) = and-true (text_eq v verb) _ h in
    let (allowed, named) = and-true (kubectl_resource_allowed target resources) _ rest in
    (
      v ∷ target ∷ names,
      refl,
      (
        target,
        names,
        ap (λ u. u ∷ target ∷ names) (eq_of_text_eq v verb same),
        kubectl_resource_allowed-Names target resources allowed,
        named,
      ),
    )

gets-ReadsCluster :
    (positionals : Option (List Text))
    → inspects (codes "get") kubectl_get_resources positionals ≡ true
    → Leaves positionals (ReadsCluster getting)
gets-ReadsCluster positionals h =
    let (ps, e, (target, names, e', known, named)) = inspects-IsAbout _ _ positionals h in
    (ps, e, rw e' (gets target names known named))

describes-ReadsCluster :
    (positionals : Option (List Text))
    → inspects (codes "describe") kubectl_describe_resources positionals ≡ true
    → Leaves positionals (ReadsCluster describing)
describes-ReadsCluster positionals h =
    let (ps, e, (target, names, e', known, named)) = inspects-IsAbout _ _ positionals h in
    (ps, e, rw e' (describes target names known named))

reads_logs-ReadsCluster :
    (positionals : Option (List Text))
    → reads_logs positionals ≡ true
    → Leaves positionals (ReadsCluster logging)
reads_logs-ReadsCluster none h = absurd (cc)
reads_logs-ReadsCluster (some []) h = absurd (cc)
reads_logs-ReadsCluster (some (v ∷ [])) h = absurd (cc)
reads_logs-ReadsCluster (some (v ∷ target ∷ t ∷ ts)) h = absurd (cc)
reads_logs-ReadsCluster (some (v ∷ target ∷ [])) h =
    let (same, rest) = and-true (text_eq v (codes "logs")) _ h in
    (
      v ∷ target ∷ [],
      refl,
      rw (eq_of_text_eq v (codes "logs") same) (logs_of target (pod_or_resource rest)),
    )
  where
    pod_or_resource :
        (if not (contains target (codes "/"))
            then is_identifier target
            else kubectl_resource_allowed target (codes "pods" ∷ codes "deployments" ∷ []))
          ≡ true
        → (is_identifier target ≡ true) ⊎ Names (codes "pods" ∷ codes "deployments" ∷ []) target
    pod_or_resource e = elim (if_cases (not (contains target (codes "/"))) _ _ e) [
      | inl (_, pod) ↦ inl pod
      | inr (_, named) ↦ inr (kubectl_resource_allowed-Names target _ named)
    ]

watches_rollout-ReadsCluster :
    (positionals : Option (List Text))
    → watches_rollout positionals ≡ true
    → Leaves positionals (ReadsCluster watching)
watches_rollout-ReadsCluster none h = absurd (cc)
watches_rollout-ReadsCluster (some []) h = absurd (cc)
watches_rollout-ReadsCluster (some (v ∷ [])) h = absurd (cc)
watches_rollout-ReadsCluster (some (v ∷ a ∷ [])) h = absurd (cc)
watches_rollout-ReadsCluster (some (v ∷ a ∷ target ∷ t ∷ ts)) h = absurd (cc)
watches_rollout-ReadsCluster (some (v ∷ a ∷ target ∷ [])) h =
    let (verb, rest) = and-true (text_eq v (codes "rollout")) _ h in
    let (action, named) = and-true (text_eq a (codes "status")) _ rest in
    (
      v ∷ a ∷ target ∷ [],
      refl,
      rw (eq_of_text_eq v (codes "rollout") verb, eq_of_text_eq a (codes "status") action)
          (status_of target (kubectl_resource_allowed-Names target _ named)),
    )

pub kubectl_command_allowed-KubectlReads :
    (command : Text) (arguments : List Text)
    → kubectl_command_allowed (command ∷ arguments) ≡ true
    → KubectlReads arguments
unfolding kubectl_command_allowed
kubectl_command_allowed-KubectlReads command [] h = absurd (cc)
kubectl_command_allowed-KubectlReads command (subcommand ∷ arguments) h =
    elim (if_cases (text_eq subcommand (codes "get")) _ _ h) [
      | inl (_, seen) ↦ (getting, gets-ReadsCluster _ seen)
      | inr (_, h1) ↦ elim (if_cases (text_eq subcommand (codes "describe")) _ _ h1) [
        | inl (_, seen) ↦ (describing, describes-ReadsCluster _ seen)
        | inr (_, h2) ↦ elim (if_cases (text_eq subcommand (codes "logs")) _ _ h2) [
          | inl (_, logs) ↦ (logging, reads_logs-ReadsCluster _ logs)
          | inr (_, h3) ↦ elim (if_cases (text_eq subcommand (codes "rollout")) _ _ h3) [
            | inl (_, watches) ↦ (watching, watches_rollout-ReadsCluster _ watches)
            | inr (_, e) ↦ absurd (cc)
          ]
        ]
      ]
    ]
