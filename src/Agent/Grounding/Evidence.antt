-- ===== src/Agent/Grounding/Evidence.antt =====
-- What a grounded diagnosis rests on.
use open_devops_agent.Prelude.{◌≡◌, Bool, ◌&&◌, ◌||◌, not, List, arith, if◌then◌else◌}
use open_devops_agent.Text.{Text, codes, text_mem, contains, contains_any, lower}
use open_devops_agent.Agent.Grounding.{
  requires_tool_evidence, Action, has_tool_evidence, has_successful_remediation, has_suggestions,
  issues_of, no_issues, claim_words, validate_resolution,
}

no_issues_iff :
    (needs evidence claims remedied section suggested : Bool)
    → no_issues (issues_of needs evidence claims remedied section suggested) ≡ (
        if needs
        then evidence && section && (suggested || remedied)
        else not claims || remedied || evidence)
no_issues_iff needs evidence claims remedied section suggested = ground arith

-- A diagnosis of an issue that needs evidence is grounded exactly when a data-gathering tool
-- answered without error or block, the diagnosis has an Evidence section, and a fix was suggested
-- or a remediation succeeded; of any other issue, when it claims no fix or has some evidence or
-- remediation for it.
pub validate_resolution-grounded :
    (issue_type : Text) (actions : List Action) (diagnosis : Text) (claimed_resolved : Bool)
    → (validate_resolution issue_type actions diagnosis claimed_resolved).grounded ≡ (
        if text_mem issue_type requires_tool_evidence
        then has_tool_evidence actions
          && contains (lower diagnosis) (codes "evidence:")
          && (has_suggestions actions || has_successful_remediation actions)
        else not (claimed_resolved && contains_any claim_words (lower diagnosis))
          || has_successful_remediation actions
          || has_tool_evidence actions)
unfolding validate_resolution
validate_resolution-grounded issue_type actions diagnosis claimed_resolved =
    no_issues_iff (text_mem issue_type requires_tool_evidence) (has_tool_evidence actions)
      (claimed_resolved && contains_any claim_words (lower diagnosis))
      (has_successful_remediation actions) (contains (lower diagnosis) (codes "evidence:"))
      (has_suggestions actions)
