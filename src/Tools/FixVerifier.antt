-- ===== src/Tools/FixVerifier.antt =====
-- tools/fix_verifier.py: whether a fix that was applied holds. The clients (HTTP, kubectl,
-- systemctl, the cloud and ArgoCD collectors) are a parameter: what each of them answers at the
-- time of a check. Of a check's result the model keeps whether it passed and its message, which is
-- what the program reads.
pub mod Observe
pub mod Monitor
pub mod Verified
use open_devops_agent.Prelude.{
  ℕ, Bool, true, false, ◌&&◌, ◌||◌, not, Option, none, some, List, [], ◌∷◌, ◌++◌, if◌then◌else◌,
  String, suc, ◌==◌,
}
use open_devops_agent.Text.{
  Text, codes, words, text_eq, text_mem, contains, starts_with, lower, strip, is_empty,
}
use open_devops_agent.Environ.{Environ}
use open_devops_agent.Json.{
  Json, null, boolean, number, string, array, object, Fields, end, field, truthy, get_field, str_of,
  value_of, or_json, is_string,
}
use Observe.{Answer, returned, threw, World, observe_cicd, observe_cloud, error_object}
use Monitor.{Monitoring, monitor_stability}

abbrev cicd_success_statuses : List Text
cicd_success_statuses = words ("success" ∷ "successful" ∷ "succeeded" ∷ "passed" ∷ "ok" ∷ [])

-- A check's result.
pub record Check : Type 0 where
  pub passed : Bool
  pub message : Text

abbrev pub fails : Text → Check
fails message = record { passed = false; message = message }

abbrev pub passes : Text → Check
passes message = record { passed = true; message = message }

abbrev status_of_parts : Json → Json
status_of_parts (object fields) = or_json (value_of (get_field (codes "status") fields)) (
    or_json (value_of (get_field (codes "state") fields))
      (value_of (get_field (codes "name") fields)))
status_of_parts v = v

abbrev health_of : Json → Json
health_of (object fields) =
    or_json (value_of (get_field (codes "status") fields))
      (value_of (get_field (codes "state") fields))
health_of (string s) = string s
health_of _ = null

-- The first of the values that counts.
abbrev first_status : List Json → Option Json
first_status [] = none
first_status (v ∷ vs) = let rest = first_status vs in if truthy v then some v else rest

unfoldable pub cloud_status : (Json → Text) → Fields → Option Text
unfolding get_field truthy str_of
cloud_status repr observation = shown (
    first_status (
      status_of_parts (value_of (get_field (codes "state") observation))
      ∷ status_of_parts (value_of (get_field (codes "status") observation))
      ∷ status_of_parts (value_of (get_field (codes "power_state") observation))
      ∷ health_of (value_of (get_field (codes "health") observation))
      ∷ []))
  where
    shown : Option Json → Option Text
    shown none = none
    shown (some v) = some (str_of repr v)

unfoldable pub status_matches : Text → Text → Bool
unfolding lower text_eq contains
status_matches observed expected =
    let observed_l = lower observed in
    let expected_l = lower expected in
    text_eq observed_l expected_l
    || contains observed_l expected_l
    || contains expected_l observed_l

module _ (repr : Json → Text) (env : Environ) (world : World) where
  abbrev pub pod_check : Json → Answer Text → Check
  pod_check expected (threw message) = fails (codes "K8s verification failed")
  pod_check expected (returned stdout) =
      if is_string (strip stdout) expected
      then passes (codes "Pod is in " ++ (strip stdout ++ codes " state"))
      else fails
          (codes "Pod is " ++ (strip stdout ++ (codes ", expected " ++ str_of repr expected)))

  abbrev or_running : Option Json → Json
  or_running none = string (codes "Running")
  or_running (some v) = v

  abbrev pod_of : Option Json → Option Json → Fields → Check
  pod_of (some pod_name) (some namespace) expected =
      pod_check (or_running (get_field (codes "pod_status") expected))
        (world.pod_phase pod_name namespace)
  pod_of _ _ expected =
      fails (codes "K8s verification requires pod_name and namespace from the target system")

  unfoldable pub verify_k8s_fix : Fields → Check
  verify_k8s_fix expected =
      pod_of (get_field (codes "pod_name") expected) (get_field (codes "namespace") expected)
        expected

  -- The message of an observation's error, if it has one that counts.
  abbrev error_of : Fields → Option Text
  error_of observation =
      let e = value_of (get_field (codes "error") observation) in
      if truthy e then some (str_of repr e) else none

  abbrev pub cicd_matched : Text → Text → Bool
  cicd_matched observed expected =
      text_eq observed expected
      || text_mem expected cicd_success_statuses && text_mem observed cicd_success_statuses

  abbrev pub cicd_status : Text → Text → Check
  cicd_status observed expected =
      if is_empty observed
      then fails (codes "CI/CD target returned no status")
      else if not (cicd_matched observed expected)
      then fails (codes "CI/CD status is " ++ (observed ++ (codes ", expected " ++ expected)))
      else passes (codes "CI/CD status is " ++ observed)

  abbrev text_or_empty : Json → Text
  text_or_empty v = if truthy v then str_of repr v else []

  abbrev pub cicd_check : Fields → Fields → Option Text → Check
  cicd_check expected observation (some message) = fails message
  cicd_check expected observation none =
      cicd_status (lower (text_or_empty (value_of (get_field (codes "status") observation)))) (
        lower (
          str_of repr (
            or_json (value_of (get_field (codes "expected_status") expected)) (
              or_json (value_of (get_field (codes "status") expected))
                (string (codes "success"))))))

  unfoldable pub verify_cicd_fix : Fields → Check
  verify_cicd_fix expected =
      let observation = observe_cicd world repr env expected in
      cicd_check expected observation (error_of observation)

  abbrev pub service_check : Answer Text → Check
  service_check (threw message) = fails (codes "Server verification failed")
  service_check (returned stdout) =
      if world.is_windows && contains stdout (codes "RUNNING")
        || not world.is_windows && text_eq (strip stdout) (codes "active")
      then passes (codes "Service is running")
      else fails (codes "Service is not running")

  abbrev service_of : Option Json → Check
  service_of none = fails (codes "Server verification requires service_name from the target system")
  service_of (some service_name) = service_check (world.service_state service_name)

  unfoldable pub verify_server_fix : Fields → Check
  verify_server_fix expected = service_of (get_field (codes "service_name") expected)

  -- An expected state that is no text has no `lower`: the exception counts as a failed check.
  abbrev pub expected_met : Json → Option Text → Bool
  expected_met (string t) (some (c ∷ s)) = status_matches (c ∷ s) t
  expected_met _ _ = false

  abbrev shown_status : Option Text → Text
  shown_status none = codes "unknown"
  shown_status (some []) = codes "unknown"
  shown_status (some (c ∷ s)) = c ∷ s

  abbrev in_brackets : Option Text → Text
  in_brackets none = []
  in_brackets (some []) = []
  in_brackets (some (c ∷ s)) = codes " (" ++ (c ∷ s ++ codes ")")

  abbrev pub cloud_check : Json → Option Text → Check
  cloud_check expected observed =
      if truthy expected
      then if not (expected_met expected observed)
        then fails (
            codes "Cloud resource is "
            ++ (shown_status observed ++ (codes ", expected " ++ str_of repr expected)))
        else passes (codes "Cloud resource is " ++ shown_status observed)
      else passes (codes "Cloud resource observed" ++ in_brackets observed)

  abbrev cloud_observed : Fields → Fields → Option Text → Check
  cloud_observed expected observation (some message) = fails message
  cloud_observed expected observation none =
      cloud_check
        (or_json (value_of (get_field (codes "state") expected))
          (value_of (get_field (codes "status") expected)))
        (cloud_status repr observation)

  unfoldable pub verify_cloud_fix : Text → Fields → Check
  verify_cloud_fix incident_type expected =
      if not (truthy (value_of (get_field (codes "resource_type") expected)))
        || not (truthy (value_of (get_field (codes "resource_id") expected)))
      then fails
          (codes "Cloud verification requires resource_type and resource_id from the target system")
      else let observation = observe_cloud world incident_type expected in
        cloud_observed expected observation (error_of observation)

  -- x.get("status") if isinstance(x, dict) else x, for x = value or {}
  abbrev status_part : Json → Json
  status_part v = elim (or_json v (object end)) [
    | object fields ↦ value_of (get_field (codes "status") fields)
    | other ↦ other
  ]

  abbrev expected_text : Text → Option Json → Json
  expected_text default none = string default
  expected_text default (some v) = v

  -- Equality of two values, of which one is a text or null.
  abbrev pub same_status : Json → Json → Bool
  same_status null null = true
  same_status (string s) v = is_string s v
  same_status _ _ = false

  abbrev pub argocd_check : Fields → Fields → Option Text → Check
  argocd_check expected observation (some message) = fails message
  argocd_check expected observation none =
      let health = status_part (value_of (get_field (codes "health") observation)) in
      let sync = status_part (value_of (get_field (codes "sync") observation)) in
      let expected_health = expected_text (codes "Healthy") (get_field (codes "health") expected) in
      let expected_sync = expected_text (codes "Synced") (get_field (codes "sync") expected) in
      if not (same_status health expected_health) || not (same_status sync expected_sync)
      then fails (
          codes "ArgoCD health="
          ++ (str_of repr health
              ++ (codes " sync="
                  ++ (str_of repr sync
                      ++ (codes ", expected health="
                          ++ (str_of repr expected_health
                              ++ (codes " sync=" ++ str_of repr expected_sync)))))))
      else passes (
          codes "ArgoCD application "
          ++ (str_of repr (value_of (get_field (codes "app_name") expected))
              ++ (codes " is " ++ (str_of repr health ++ (b'/' ∷ str_of repr sync)))))

  abbrev argocd_observed : Answer Fields → Fields
  argocd_observed (returned observation) = observation
  argocd_observed (threw message) = error_object message

  unfoldable pub verify_argocd_fix : Fields → Check
  verify_argocd_fix expected =
      let app_name = value_of (get_field (codes "app_name") expected) in
      if not (truthy app_name)
      then fails (codes "ArgoCD verification requires app_name")
      else let observation = argocd_observed (world.argocd app_name) in
        argocd_check expected observation (error_of observation)

  unfoldable pub run_immediate_checks : Text → Fields → Check
  unfolding text_eq text_mem
  run_immediate_checks incident_type expected =
      if text_eq incident_type (codes "k8s")
      then verify_k8s_fix expected
      else if text_eq incident_type (codes "cicd")
      then verify_cicd_fix expected
      else if text_mem incident_type (words ("server" ∷ "linux" ∷ "windows" ∷ "rhel" ∷ []))
      then verify_server_fix expected
      else if starts_with incident_type (codes "cloud_")
      then verify_cloud_fix incident_type expected
      else if text_eq incident_type (codes "argocd")
      then verify_argocd_fix expected
      else fails (
          codes "Verification is not implemented for incident type '"
          ++ (incident_type ++ codes "'"))

pub data VerificationStatus : Type 0 where
  unknown failed unstable success : VerificationStatus

pub record Verification : Type 0 where
  pub verified : Bool
  pub status : VerificationStatus
  pub immediate : Check
  pub stability : Option Monitoring

abbrev pub report : Bool → VerificationStatus → Check → Monitoring → Verification
report verified status immediate stability = record {
  verified = verified;
  status = status;
  immediate = immediate;
  stability = some stability;
}

abbrev pub judged : Check → Monitoring → Verification
judged immediate stability =
    if stability.stable
    then report true success immediate stability
    else report false unstable immediate stability

-- The answers of the clients at the immediate check, and at each check of the monitoring; the
-- seconds that have passed at each test of the monitoring's loop.
unfoldable pub verify_fix :
    (Json → Text) → Environ → (ℕ → World) → (ℕ → ℕ) → ℕ → Text → Fields → Verification
verify_fix repr env worlds elapsed monitoring_duration incident_type expected =
    let immediate = run_immediate_checks repr env (worlds 0) incident_type expected in
    if not immediate.passed
    then record { verified = false; status = failed; immediate = immediate; stability = none }
    else judged immediate (
        monitor_stability
          (λ k. (run_immediate_checks repr env (worlds (suc k)) incident_type expected).passed)
          elapsed monitoring_duration)
