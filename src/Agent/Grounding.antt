-- ===== src/Agent/Grounding.antt =====
-- agent/grounding.py: when a diagnosis rests on what the tools showed.
pub mod Evidence
use open_devops_agent.Prelude.{
  Bool, true, false, ◌&&◌, ◌||◌, not, Option, none, some, List, [], ◌∷◌, ◌++◌, if◌then◌else◌, any,
  String,
}
use open_devops_agent.Text.{
  Text, codes, words, text_eq, text_mem, contains, contains_any, lower, is_empty,
}
use open_devops_agent.Environ.{or_else}

abbrev pub requires_tool_evidence : List Text
requires_tool_evidence = words (
    "k8s" ∷ "cicd" ∷ "server" ∷ "argocd" ∷ "helm" ∷ "terraform" ∷ "cloud_aws" ∷ "cloud_gcp"
    ∷ "cloud_azure" ∷ "observability" ∷ "data" ∷ "code_review" ∷ [])

abbrev pub evidence_tools : List Text
evidence_tools = words (
    "get_k8s_context" ∷ "get_github_logs" ∷ "get_cicd_logs" ∷ "get_argocd_status"
    ∷ "get_argocd_history" ∷ "get_cloud_resource" ∷ "run_shell_command" ∷ "run_kubectl"
    ∷ "get_helm_release" ∷ "terraform_plan" ∷ "terraform_validate" ∷ "get_argocd_status"
    ∷ "inspect_disk_usage" ∷ "diagnose_nginx" ∷ "bamboo_check_version" ∷ "query_metrics"
    ∷ "evaluate_slo" ∷ "capacity_check" ∷ "query_traces" ∷ "query_logs" ∷ "run_synthetic"
    ∷ "get_oncall_roster" ∷ "check_database_health" ∷ "list_snapshots" ∷ "dr_readiness_check"
    ∷ "kafka_health" ∷ "elasticsearch_health" ∷ "redis_health" ∷ "fetch_code_change"
    ∷ "list_open_code_changes" ∷ [])

abbrev pub remediation_tools : List Text
remediation_tools = words (
    "apply_k8s_manifest" ∷ "run_kubectl" ∷ "run_shell_command" ∷ "rollback_deployment"
    ∷ "sync_argocd_app" ∷ "rollback_argocd_app" ∷ "restart_cloud_resource" ∷ "scale_cloud_service"
    ∷ "retry_cicd_pipeline" ∷ "create_github_pr" ∷ "create_cicd_pr" ∷ "helm_rollback"
    ∷ "helm_upgrade" ∷ "cleanup_stale_logs" ∷ "install_log_cleanup_cron" ∷ "apply_nginx_config"
    ∷ "restart_nginx" ∷ "renew_certificates" ∷ "apply_security_updates" ∷ "bamboo_increment_version"
    ∷ "patch_bamboo_plan" ∷ "update_status_page" ∷ "assign_incident_commander" ∷ "create_snapshot"
    ∷ "post_code_review" ∷ [])

-- What the checks read of an action's result: `error`, `blocked` and `recorded` as truth values,
-- `success` where it is a Boolean, and the parts of a suggestion.
pub record ActionResult : Type 0 where
  pub error : Bool
  pub blocked : Bool
  pub recorded : Bool
  pub success : Option Bool
  pub title : Option Text
  pub description : Option Text
  pub commands : List Text
  pub config_snippets : List Text
  pub verification_steps : List Text

pub record Action : Type 0 where
  pub tool : Option Text
  pub result : ActionResult

-- action.get("tool") in tools
abbrev pub tool_in : List Text → Action → Bool
tool_in tools action = elim action.tool [ none ↦ false | some tool ↦ text_mem tool tools ]

abbrev pub is_recorded_suggestion : Action → Bool
is_recorded_suggestion action = tool_in (codes "suggest_fix" ∷ []) action && action.result.recorded

unfoldable pub has_suggestions : List Action → Bool
unfolding any
has_suggestions actions = any is_recorded_suggestion actions

pub record Fix : Type 0 where
  pub title : Option Text
  pub description : Option Text
  pub commands : List Text
  pub config_snippets : List Text
  pub verification_steps : List Text

abbrev fix_of : ActionResult → Fix
fix_of result = record {
  title = result.title;
  description = result.description;
  commands = result.commands;
  config_snippets = result.config_snippets;
  verification_steps = result.verification_steps;
}

unfoldable pub extract_suggested_fixes : List Action → List Fix
extract_suggested_fixes [] = []
extract_suggested_fixes (action ∷ actions) =
    let rest = extract_suggested_fixes actions in
    elim (is_recorded_suggestion action) [ true ↦ fix_of action.result ∷ rest | false ↦ rest ]

abbrev pub is_evidence : Action → Bool
is_evidence action =
    tool_in evidence_tools action && not action.result.error && not action.result.blocked

unfoldable pub has_tool_evidence : List Action → Bool
unfolding any
has_tool_evidence actions = any is_evidence actions

-- `result.get("success") is False`
abbrev pub is_false : Option Bool → Bool
is_false none = false
is_false (some b) = not b

abbrev pub is_remediation : Action → Bool
is_remediation action =
    tool_in remediation_tools action
    && not (action.result.error || action.result.blocked)
    && not (is_false action.result.success)

unfoldable pub has_successful_remediation : List Action → Bool
unfolding any
has_successful_remediation actions = any is_remediation actions

pub data Issue : Type 0 where
  no_tool_called unsupported_claim no_evidence_section no_suggestion : Issue

abbrev pub issue_message : Issue → Text
issue_message no_tool_called =
    codes "No data-gathering tool was called — diagnosis may be hallucinated."
issue_message unsupported_claim =
    codes "Claims fix/resolution without successful remediation tool evidence."
issue_message no_evidence_section = codes "Missing required Evidence section in diagnosis."
issue_message no_suggestion =
    codes "Provide non-destructive fix steps via suggest_fix before finishing."

abbrev pub when : Bool → Issue → List Issue
when true issue = issue ∷ []
when false issue = []

abbrev pub claim_words : List Text
claim_words = words ("fixed" ∷ "resolved" ∷ "applied" ∷ "restarted" ∷ [])

pub record Validation : Type 0 where
  pub grounded : Bool
  pub issues : List Issue
  pub has_evidence : Bool
  pub has_fixes : Bool
  pub requires_evidence : Bool

abbrev pub no_issues : List Issue → Bool
no_issues [] = true
no_issues (issue ∷ issues) = false

-- The issues, from the facts that `validate_resolution` has gathered.
abbrev pub issues_of : Bool → Bool → Bool → Bool → Bool → Bool → List Issue
issues_of needs evidence claims remedied section suggested =
    when (needs && not evidence) no_tool_called
    ++ (when (claims && not remedied && not evidence) unsupported_claim
        ++ (when (not section && needs && evidence) no_evidence_section
            ++ when (needs && evidence && not suggested && not remedied) no_suggestion))

unfoldable pub validate_resolution : Text → List Action → Text → Bool → Validation
validate_resolution issue_type actions diagnosis claimed_resolved =
    let needs = text_mem issue_type requires_tool_evidence in
    let evidence = has_tool_evidence actions in
    let issues =
      issues_of needs evidence (claimed_resolved && contains_any claim_words (lower diagnosis))
        (has_successful_remediation actions) (contains (lower diagnosis) (codes "evidence:"))
        (has_suggestions actions) in
    record {
      grounded = no_issues issues;
      issues = issues;
      has_evidence = evidence;
      has_fixes = has_suggestions actions;
      requires_evidence = needs;
    }
