-- ===== src/Tools/Safety.antt =====
-- tools/safety.py: the emergency stop, and the actions that need approval.
use open_devops_agent.Prelude.{
  Bool, true, false, ◌&&◌, Option, none, some, List, [], ◌∷◌, ◌++◌, map, if◌then◌else◌, any,
}
use open_devops_agent.Text.{Text, codes, words, text_mem, contains_any, lower, strip}
use open_devops_agent.Storage.Memory
use open_devops_agent.Storage.Memory.{Objects}
use open_devops_agent.Environ.{Environ, getenv, env_true, comma_list, or_else}

abbrev pub approval_action_patterns : Objects (List Text)
approval_action_patterns =
    (codes "rollback", words ("kubectl rollout undo" ∷ "helm rollback" ∷ "rollback" ∷ []))
    ∷ (codes "scale_down", words ("kubectl scale" ∷ "scale deployment" ∷ []))
    ∷ (
      codes "delete",
      words ("kubectl delete" ∷ "helm uninstall" ∷ "helm delete" ∷ "rm " ∷ "rm-" ∷ []),
    )
    ∷ (codes "exec", words ("kubectl exec" ∷ "docker exec" ∷ []))
    ∷ []

abbrev pub mutating_agent_tools : List Text
mutating_agent_tools = words (
    "apply_k8s_manifest" ∷ "run_kubectl" ∷ "rollback_deployment" ∷ "run_shell_command"
    ∷ "sync_argocd_app" ∷ "rollback_argocd_app" ∷ "helm_rollback" ∷ "helm_upgrade"
    ∷ "restart_ec2_instance" ∷ "scale_ecs_service" ∷ "restart_gce_instance" ∷ "restart_azure_vm"
    ∷ "restart_cloud_resource" ∷ "scale_cloud_service" ∷ "cleanup_stale_logs"
    ∷ "install_log_cleanup_cron" ∷ "apply_nginx_config" ∷ "restart_nginx" ∷ "renew_certificates"
    ∷ "apply_security_updates" ∷ "bamboo_increment_version" ∷ "patch_bamboo_plan"
    ∷ "retry_cicd_pipeline" ∷ "create_github_pr" ∷ "create_cicd_pr" ∷ "update_status_page"
    ∷ "create_snapshot" ∷ "post_code_review" ∷ [])

unfoldable pub is_emergency_stop_active : Environ → Bool
unfolding env_true
is_emergency_stop_active env = env_true (codes "AGENT_EMERGENCY_STOP") (codes "false") env

-- A set in the source; the duplicates that a list may hold are never counted.
unfoldable pub get_require_approval_actions : Environ → List Text
unfolding getenv comma_list lower
get_require_approval_actions env = map lower (
    comma_list
      (getenv (codes "REQUIRE_APPROVAL_FOR") (codes "rollback,scale_down,delete,exec") env))

unfoldable pub command_matches_approval_action : Text → Text → Bool
unfolding contains_any lower strip Memory.get
command_matches_approval_action command action =
    contains_any (or_else (Memory.get (lower action) approval_action_patterns) [])
      (lower (strip command))

unfoldable pub requires_configured_approval : Environ → Text → Bool
unfolding any get_require_approval_actions command_matches_approval_action
requires_configured_approval env command =
    any (command_matches_approval_action command) (get_require_approval_actions env)

-- What a blocked operation answers.
pub record Block : Type 0 where
  pub blocked : Bool
  pub emergency_stop : Bool
  pub requires_approval : Bool
  pub message : Text

abbrev pub default_stop_message : Text
default_stop_message = codes "Agent emergency stop is active. Mutating operations are disabled."

abbrev pub emergency_stop_block : Text → Block
emergency_stop_block message = record {
  blocked = true;
  emergency_stop = true;
  requires_approval = false;
  message = message;
}

unfoldable pub check_emergency_stop_for_tool : Environ → Text → Option Block
unfolding is_emergency_stop_active text_mem
check_emergency_stop_for_tool env tool_name =
    if is_emergency_stop_active env && text_mem tool_name mutating_agent_tools
    then some (
        emergency_stop_block
          (codes "Agent emergency stop is active. Tool `" ++ (tool_name ++ codes "` is disabled.")))
    else none
