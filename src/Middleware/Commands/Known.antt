-- ===== src/Middleware/Commands/Known.antt =====
-- The options and the resources with which the default commands only read, written out once more:
-- what the tables of middleware/app.py are compared with.
use open_devops_agent.Prelude.{List, [], ◌∷◌}
use open_devops_agent.Text.{Text, codes, words, text_eq, text_mem}
use open_devops_agent.Storage.Memory.{Objects}
use open_devops_agent.Middleware.Values.{
  is_identifier, is_unit, is_bounded_integer, is_safe_time_filter, is_duration, is_selector,
}
use open_devops_agent.Middleware.Options.{Check}

pub record Known : Type 0 where
  pub alone : List Text
  pub with_value : Objects Check

abbrev pub docker_ps_known : Known
docker_ps_known = record {
  alone = words ("-a" ∷ "--all" ∷ "--no-trunc" ∷ "--size" ∷ "-q" ∷ "--quiet" ∷ []);
  with_value = [];
}

abbrev pub docker_logs_known : Known
docker_logs_known = record {
  alone = words ("--timestamps" ∷ []);
  with_value =
      (codes "--tail", is_bounded_integer 10000)
      ∷ (codes "--since", is_safe_time_filter)
      ∷ (codes "--until", is_safe_time_filter)
      ∷ [];
}

abbrev pub systemctl_known : Known
systemctl_known = record {
  alone = words ("--no-pager" ∷ []);
  with_value =
      (codes "-n", is_bounded_integer 10000) ∷ (codes "--lines", is_bounded_integer 10000) ∷ [];
}

abbrev pub journalctl_known : Known
journalctl_known = record {
  alone = words ("--no-pager" ∷ "-b" ∷ "--boot" ∷ []);
  with_value =
      (codes "-u", is_unit)
      ∷ (codes "--unit", is_unit)
      ∷ (codes "-n", is_bounded_integer 10000)
      ∷ (codes "--lines", is_bounded_integer 10000)
      ∷ (codes "--since", is_safe_time_filter)
      ∷ (codes "--until", is_safe_time_filter)
      ∷ [];
}

abbrev pub get_known : Known
get_known = record {
  alone = words ("-A" ∷ "--all-namespaces" ∷ "--show-labels" ∷ "--no-headers" ∷ []);
  with_value =
      (codes "-n", is_identifier)
      ∷ (codes "--namespace", is_identifier)
      ∷ (codes "-l", is_selector)
      ∷ (codes "--selector", is_selector)
      ∷ (codes "-o", λ value. text_mem value (words ("wide" ∷ "name" ∷ [])))
      ∷ (codes "--output", λ value. text_mem value (words ("wide" ∷ "name" ∷ [])))
      ∷ [];
}

abbrev pub describe_known : Known
describe_known = record {
  alone = words ("-A" ∷ "--all-namespaces" ∷ []);
  with_value =
      (codes "-n", is_identifier)
      ∷ (codes "--namespace", is_identifier)
      ∷ (codes "-l", is_selector)
      ∷ (codes "--selector", is_selector)
      ∷ [];
}

abbrev pub logs_known : Known
logs_known = record {
  alone = words ("--timestamps" ∷ "--previous" ∷ []);
  with_value =
      (codes "-n", is_identifier)
      ∷ (codes "--namespace", is_identifier)
      ∷ (codes "-c", is_identifier)
      ∷ (codes "--container", is_identifier)
      ∷ (codes "--tail", is_bounded_integer 10000)
      ∷ (codes "--since", is_duration)
      ∷ (codes "--since-time", is_safe_time_filter)
      ∷ [];
}

abbrev pub rollout_known : Known
rollout_known = record {
  alone = [];
  with_value =
      (codes "-n", is_identifier)
      ∷ (codes "--namespace", is_identifier)
      ∷ (codes "--timeout", is_duration)
      ∷ (codes "--watch", λ value. text_eq value (codes "false"))
      ∷ [];
}

-- What `get` may list and `describe` may show: no secrets and no configmaps.
abbrev pub listable : List Text
listable = words (
    "all" ∷ "pods" ∷ "deployments" ∷ "replicasets" ∷ "statefulsets" ∷ "daemonsets" ∷ "services"
    ∷ "nodes" ∷ "events" ∷ "jobs" ∷ "cronjobs" ∷ "namespaces" ∷ [])

abbrev pub describable : List Text
describable = words ("nodes" ∷ "services" ∷ "events" ∷ "namespaces" ∷ [])

-- The names under which kubectl knows these resources.
abbrev pub resource_of_name : Objects Text
resource_of_name =
    (codes "all", codes "all")
    ∷ (codes "pod", codes "pods")
    ∷ (codes "pods", codes "pods")
    ∷ (codes "po", codes "pods")
    ∷ (codes "deployment", codes "deployments")
    ∷ (codes "deployments", codes "deployments")
    ∷ (codes "deploy", codes "deployments")
    ∷ (codes "replicaset", codes "replicasets")
    ∷ (codes "replicasets", codes "replicasets")
    ∷ (codes "rs", codes "replicasets")
    ∷ (codes "statefulset", codes "statefulsets")
    ∷ (codes "statefulsets", codes "statefulsets")
    ∷ (codes "sts", codes "statefulsets")
    ∷ (codes "daemonset", codes "daemonsets")
    ∷ (codes "daemonsets", codes "daemonsets")
    ∷ (codes "ds", codes "daemonsets")
    ∷ (codes "service", codes "services")
    ∷ (codes "services", codes "services")
    ∷ (codes "svc", codes "services")
    ∷ (codes "node", codes "nodes")
    ∷ (codes "nodes", codes "nodes")
    ∷ (codes "no", codes "nodes")
    ∷ (codes "event", codes "events")
    ∷ (codes "events", codes "events")
    ∷ (codes "ev", codes "events")
    ∷ (codes "job", codes "jobs")
    ∷ (codes "jobs", codes "jobs")
    ∷ (codes "cronjob", codes "cronjobs")
    ∷ (codes "cronjobs", codes "cronjobs")
    ∷ (codes "cj", codes "cronjobs")
    ∷ (codes "namespace", codes "namespaces")
    ∷ (codes "namespaces", codes "namespaces")
    ∷ (codes "ns", codes "namespaces")
    ∷ (codes "secret", codes "secrets")
    ∷ (codes "secrets", codes "secrets")
    ∷ (codes "sec", codes "secrets")
    ∷ (codes "configmap", codes "configmaps")
    ∷ (codes "configmaps", codes "configmaps")
    ∷ (codes "cm", codes "configmaps")
    ∷ []
