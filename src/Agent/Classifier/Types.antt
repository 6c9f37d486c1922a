-- ===== src/Agent/Classifier/Types.antt =====
-- Laws of the classification.
use open_devops_agent.Prelude.{ℕ, ◌≡◌, refl, Bool, true, List, [], ◌∷◌, arith, ap, ap₂}
use open_devops_agent.Text.{Text, text_mem, lower, lower_code}
use open_devops_agent.Environ.{or_else}
use open_devops_agent.Agent.Grounding.{requires_tool_evidence, Action, validate_resolution}
use open_devops_agent.Agent.Classifier.{
  IssueType, k8s, cicd, server, cloud_aws, cloud_gcp, cloud_azure, argocd, helm, terraform,
  observability, data_store, code_review, issue_text, Labels, classify_issue, issue_of_name,
  issue_of_labels,
}

lower_code-lower_code : (c : ℕ) → lower_code (lower_code c) ≡ lower_code c
lower_code-lower_code c = ground arith

lower-lower : (s : Text) → lower (lower s) ≡ lower s
unfolding lower
lower-lower [] = refl
lower-lower (c ∷ s) = ap₂ ◌∷◌ (lower_code-lower_code c) (lower-lower s)

-- The letters of the alert's name may be of either case: the type is the same.
pub classify_issue-lower :
    (alertname : Text) (labels : Labels)
    → classify_issue (lower alertname) labels ≡ classify_issue alertname labels
unfolding classify_issue
classify_issue-lower alertname labels =
    ap (λ name. or_else (issue_of_name name) (issue_of_labels labels)) (lower-lower alertname)

requires_evidence : (t : IssueType) → text_mem (issue_text t) requires_tool_evidence ≡ true
unfolding text_mem
requires_evidence k8s = refl
requires_evidence cicd = refl
requires_evidence server = refl
requires_evidence cloud_aws = refl
requires_evidence cloud_gcp = refl
requires_evidence cloud_azure = refl
requires_evidence argocd = refl
requires_evidence helm = refl
requires_evidence terraform = refl
requires_evidence observability = refl
requires_evidence data_store = refl
requires_evidence code_review = refl

-- Whatever the alert and its labels, an incident that the agent classified needs tool evidence: a
-- diagnosis of it is validated as one that requires evidence.
pub validate_resolution-classified :
    (alertname : Text) (labels : Labels) (actions : List Action) (diagnosis : Text)
    (claimed_resolved : Bool)
    → (validate_resolution
        (issue_text (classify_issue alertname labels))
        actions
        diagnosis
        claimed_resolved).requires_evidence
      ≡ true
unfolding validate_resolution
validate_resolution-classified alertname labels actions diagnosis claimed_resolved =
    requires_evidence (classify_issue alertname labels)
