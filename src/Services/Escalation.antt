-- ===== src/Services/Escalation.antt =====
-- services/escalation.py: when an incident goes to people, and on which channels. Durations are in
-- microseconds. The clients of the channels are parameters; what a call of one answers goes into
-- the outcome.
pub mod Decision
use open_devops_agent.Prelude.{
  ℕ, ◌+◌, ◌-◌, ◌*◌, Bool, true, false, ◌&&◌, ◌||◌, not, Option, none, some, List, [], ◌∷◌, ◌++◌,
  map, if◌then◌else◌, leb, filter_by, any,
}
use open_devops_agent.Text.{Text, codes, words, text_eq, text_mem, lower, strip, is_empty, split_on}
use open_devops_agent.Environ.{Environ, getenv, env_true, comma_list, python_int, or_else}
use open_devops_agent.Collectors.DatabasePolicy.{
  DbContext, DbAction, is_database_incident, incident_involves_blocked_database,
}

pub data Reason : Type 0 where
  agent_error database_issue unresolved timeout_unresolved not_grounded max_steps_reached : Reason

abbrev pub reason_text : Reason → Text
reason_text agent_error = codes "agent_error"
reason_text database_issue = codes "database_issue"
reason_text unresolved = codes "unresolved"
reason_text timeout_unresolved = codes "timeout_unresolved"
reason_text not_grounded = codes "not_grounded"
reason_text max_steps_reached = codes "max_steps_reached"

-- REASON_LABELS.get(reason, reason), for the reasons that `evaluate` gives
abbrev pub reason_label : Reason → Text
reason_label agent_error = codes "Agent crashed or API failure"
reason_label database_issue = codes "Database issue — requires DBA / human investigation"
reason_label unresolved = codes "Agent could not resolve the incident"
reason_label timeout_unresolved = codes "Exceeded time limit without resolution"
reason_label not_grounded = codes "Insufficient evidence — possible hallucination risk"
reason_label max_steps_reached = codes "Max agent steps reached without fix"

pub data Priority : Type 0 where
  critical high : Priority

-- The service's settings.
pub record Settings : Type 0 where
  pub enabled : Bool
  pub timeout_minutes : Bool × ℕ
  pub channels : List Text
  pub on_db : Bool
  pub on_unresolved : Bool
  pub on_ai_failure : Bool

abbrev settings_with : Environ → Option (Bool × ℕ) → Option Settings
settings_with env none = none
settings_with env (some minutes) = some (record {
  enabled = env_true (codes "ESCALATION_ENABLED") (codes "true") env;
  timeout_minutes = minutes;
  channels =
      map lower (comma_list (getenv (codes "ESCALATION_CHANNELS") (codes "slack,email") env));
  on_db = env_true (codes "ESCALATION_ON_DB_ISSUES") (codes "true") env;
  on_unresolved = env_true (codes "ESCALATION_ON_UNRESOLVED") (codes "true") env;
  on_ai_failure = env_true (codes "ESCALATION_ON_AI_FAILURE") (codes "true") env;
})

-- The settings as they are read again after a change of the environment; `none` where `int` raises.
unfoldable pub refresh_credentials : Environ → Option Settings
unfolding getenv env_true python_int comma_list lower
refresh_credentials env =
    settings_with env (python_int (getenv (codes "ESCALATION_TIMEOUT_MINUTES") (codes "10") env))

-- What `evaluate` reads of the agent's result; a missing result has the defaults.
pub record RunResult : Type 0 where
  pub actions : List DbAction
  pub resolved : Bool
  pub grounded : Option Bool
  pub diagnosis : Option Text

abbrev pub empty_result : RunResult
empty_result = record { actions = []; resolved = false; grounded = none; diagnosis = none }

abbrev pub when : Bool → Reason → List Reason
when true reason = reason ∷ []
when false reason = []

-- grounding.get("grounded") is False
abbrev pub is_ungrounded : Option Bool → Bool
is_ungrounded none = false
is_ungrounded (some b) = not b

abbrev pub is_max_steps : Option Text → Bool
is_max_steps none = false
is_max_steps (some diagnosis) = text_eq diagnosis (codes "Max steps reached without resolution")

-- duration >= timeout, for a duration that is not negative
abbrev pub is_over : ℕ → Bool × ℕ → Bool
is_over duration (true, minutes) = true
is_over duration (false, minutes) = leb (minutes * 60000000) duration

-- The list `reasons`, from the facts that are looked at, in the order of the checks.
abbrev pub reasons_of : Bool → Bool → Bool → Bool → Bool → Bool → List Reason
reasons_of failed database unsolved over ungrounded max_steps =
    when failed agent_error
    ++ (when database database_issue
        ++ (when unsolved unresolved
            ++ (when (unsolved && over) timeout_unresolved
                ++ (when ungrounded not_grounded ++ when max_steps max_steps_reached))))

abbrev pub has_reason : Text → List Reason → Bool
has_reason name [] = false
has_reason name (r ∷ rs) = text_eq name (reason_text r) || has_reason name rs

unfoldable pub priority_of : List Reason → Priority
unfolding text_eq
priority_of reasons =
    if has_reason (codes "timeout_unresolved") reasons
    then high
    else if has_reason (codes "database_issue") reasons || has_reason (codes "agent_error") reasons
    then critical
    else high

-- `error and ...`
abbrev pub is_error : Option Text → Bool
is_error none = false
is_error (some e) = not (is_empty e)

pub record EscalationDecision : Type 0 where
  pub should_escalate : Bool
  pub reasons : List Reason
  pub priority : Priority
  pub summary : Text
  pub duration : ℕ

-- f"[DevOps Agent] {primary} — {issue_type} ({incident_id})"
unfoldable pub build_summary : Text → Text → List Reason → Text
build_summary incident_id issue_type [] = []
build_summary incident_id issue_type (first ∷ reasons) =
    codes "[DevOps Agent] "
    ++ (reason_label first
        ++ (codes " — " ++ (issue_type ++ (codes " (" ++ (incident_id ++ codes ")")))))

abbrev pub decided : Text → Text → ℕ → List Reason → EscalationDecision
decided incident_id issue_type duration [] = record {
  should_escalate = false;
  reasons = [];
  priority = high;
  summary = [];
  duration = duration;
}
decided incident_id issue_type duration (first ∷ reasons) = record {
  should_escalate = true;
  reasons = first ∷ reasons;
  priority = priority_of (first ∷ reasons);
  summary = build_summary incident_id issue_type (first ∷ reasons);
  duration = duration;
}

abbrev pub kind_of : Option DbContext → Text
kind_of none = codes "unknown"
kind_of (some context) = or_else context.kind (codes "unknown")

-- The reasons that `evaluate` finds.
unfoldable pub reasons_for : Settings → Option DbContext → RunResult → ℕ → Option Text → List Reason
reasons_for s context result duration error =
    reasons_of (is_error error && s.on_ai_failure)
      ((is_database_incident context || incident_involves_blocked_database result.actions)
        && s.on_db)
      (not result.resolved && s.on_unresolved) (is_over duration s.timeout_minutes)
      (is_ungrounded result.grounded && s.on_ai_failure) (is_max_steps result.diagnosis)

-- The description, which is scrubbed text for people, is left out of the decision.
unfoldable pub evaluate :
    Settings → Text → Option DbContext → Option RunResult → ℕ → ℕ → Option Text → EscalationDecision
evaluate s incident_id context result started_at now error =
    if not s.enabled
    then decided incident_id [] 0 []
    else decided incident_id (kind_of context) (now - started_at)
        (reasons_for s context (or_else result empty_result) (now - started_at) error)

-- The channels of `escalate`, in the order in which it tries them.
abbrev pub known_channels : List Text
known_channels = words ("slack" ∷ "email" ∷ "jira" ∷ "zoho" ∷ "pagerduty" ∷ [])

module _ {Answer : Type 0} (send : Text → EscalationDecision → Answer) where
  -- The answers, under the names of the channels that were called.
  unfoldable pub escalate_on : List Text → EscalationDecision → List Text → List (Text × Answer)
  unfolding text_mem
  escalate_on channels decision [] = []
  escalate_on channels decision (channel ∷ more) =
      let rest = escalate_on channels decision more in
      elim (text_mem channel channels) [
        | true ↦ (channel, send channel decision) ∷ rest
        | false ↦ rest
      ]

  -- `none` is {"escalated": False}.
  unfoldable pub escalate : Settings → EscalationDecision → Option (List (Text × Answer))
  unfolding escalate_on
  escalate s decision =
      if not decision.should_escalate
      then none
      else some (escalate_on s.channels decision known_channels)
