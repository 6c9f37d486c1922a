-- ===== src/Examples/Agent.antt =====
-- Runs of the executor, the policies and the checks on a diagnosis.
use open_devops_agent.Prelude.{
  In, ◌≡◌, ◌≢◌, refl, ◌↔◌, ◌⊎◌, inl, true, false, Option, none, some, [], ◌∷◌, any,
}
use open_devops_agent.Text.{Text, codes, text_mem, contains, strip, lower}
use open_devops_agent.Tools.Safety.{is_emergency_stop_active}
use open_devops_agent.Tools.Executor.{classify, safe, requires_approval, execute, run_safe}
use open_devops_agent.Tools.Executor.Gates.{run_safe-executes, run_safe-always_require_approval}
use open_devops_agent.Tools.DiskPolicy
use open_devops_agent.Tools.DiskPolicy.{classify_cleanup_target, is_protected_path}
use open_devops_agent.Tools.DiskPolicy.Paths.{normalize_path}
use open_devops_agent.Tools.DiskPolicy.Verdicts.{IsStaleLog, classify_cleanup_target-safe}
use open_devops_agent.Tools.DiskPolicy.Resolved.{IsResolved}
use open_devops_agent.Agent.Grounding.{
  Action, ActionResult, validate_resolution, has_tool_evidence, has_successful_remediation,
  has_suggestions,
}
use open_devops_agent.Agent.Grounding.Evidence.{validate_resolution-grounded}
use open_devops_agent.Collectors.DatabasePolicy.{check_database_access, BlockedResponse}
use open_devops_agent.Collectors.DatabasePolicy.Blocked.{
  check_database_access-blocked, databases, IsEnabled,
}

abbrev restart : Text
restart = codes "systemctl restart nginx"

abbrev this_host : Option Text
this_host = none

run_safe-executes_example : (run_safe [] true restart this_host ≡ execute restart this_host) ↔ (
    (restart ≡ restart)
    × (this_host ≡ this_host)
    × ((classify [] restart ≡ safe) ⊎ ((true ≡ true) × (is_emergency_stop_active [] ≡ false))))
run_safe-executes_example = run_safe-executes [] true restart this_host restart this_host

abbrev wipe : Text
wipe = codes "uptime && KUBECTL DELETE pod web-1"

abbrev deletes_pods : Text
deletes_pods = codes "kubectl delete"

wipe-found : contains (lower (strip wipe)) deletes_pods ≡ true
unfolding contains strip lower
wipe-found = refl

run_safe-always_require_approval_example :
    (classify [] wipe ≡ requires_approval)
    × ((ran : Text) (at : Option Text) → run_safe [] false wipe none ≢ execute ran at)
run_safe-always_require_approval_example =
    run_safe-always_require_approval [] wipe none deletes_pods (inl refl) wipe-found

abbrev old_log : Text
old_log = codes "/var/log/nginx/../app/access.log.1"

old_log-safe : (classify_cleanup_target [] old_log).status ≡ DiskPolicy.safe
unfolding classify_cleanup_target normalize_path is_protected_path any DiskPolicy.is_under
    DiskPolicy.extra_protected_prefixes DiskPolicy.has_marker DiskPolicy.is_safe_stale_log
    DiskPolicy.ends_with_any
old_log-safe = refl

-- The path of the verdict ends with a space, which the tests strip once more.
spaced_log :
    ((classify_cleanup_target [] (codes "/var/log/x.gz /y/..")).path ≡ codes "/var/log/x.gz ")
    × ((classify_cleanup_target [] (codes "/var/log/x.gz /y/..")).status ≡ DiskPolicy.safe)
unfolding classify_cleanup_target normalize_path is_protected_path any DiskPolicy.is_under
    DiskPolicy.extra_protected_prefixes DiskPolicy.has_marker DiskPolicy.is_safe_stale_log
    DiskPolicy.ends_with_any
spaced_log = (refl, refl)

classify_cleanup_target-safe_example :
    ((classify_cleanup_target [] old_log).path ≡ normalize_path old_log)
    × IsResolved (normalize_path old_log)
    × (is_protected_path [] (normalize_path old_log) ≡ false)
    × IsStaleLog [] (normalize_path old_log)
classify_cleanup_target-safe_example = classify_cleanup_target-safe [] old_log old_log-safe

abbrev answered : ActionResult
answered = record {
  error = false;
  blocked = false;
  recorded = false;
  success = none;
  title = none;
  description = none;
  commands = [];
  config_snippets = [];
  verification_steps = [];
}

abbrev looked : Action
looked = record { tool = some (codes "get_k8s_context"); result = answered }

-- Evidence alone does not do: nothing was suggested or remedied.
validate_resolution-grounded_example :
    (validate_resolution
      (codes "k8s")
      (looked ∷ [])
      (codes "Evidence: CrashLoopBackOff")
      false).grounded
    ≡ false
unfolding text_mem has_tool_evidence has_suggestions has_successful_remediation contains lower
validate_resolution-grounded_example =
    validate_resolution-grounded (codes "k8s") (looked ∷ []) (codes "Evidence: CrashLoopBackOff")
      false

abbrev rds_blocked : BlockedResponse
rds_blocked = record { blocked = true; resource_type = codes "RDS"; cloud = some (codes "aws") }

check_database_access-blocked_example :
    (check_database_access [] (codes "RDS") (some (codes "aws")) ≡ some rds_blocked) ↔ (
      (rds_blocked
        ≡ record { blocked = true; resource_type = codes "RDS"; cloud = some (codes "aws") })
      × In (lower (codes "RDS")) databases
      × ¬ IsEnabled [])
check_database_access-blocked_example =
    check_database_access-blocked [] (codes "RDS") (some (codes "aws")) rds_blocked
