-- ===== src/Services/Escalation/Decision.antt =====
-- When `evaluate` escalates, and how urgently.
use open_devops_agent.Prelude.{
  ap, none, some, ◌*◌, leb, ℕ, ◌-◌, ◌≡◌, refl, inl, inr, Bool, true, false, ◌&&◌, ◌||◌, not, Option,
  List, [], ◌∷◌, arith, ◌∙◌, if◌then◌else◌, Bool-cases,
}
use open_devops_agent.Text.{Text, text_eq, codes}
use open_devops_agent.Environ.{or_else}
use open_devops_agent.Collectors.DatabasePolicy.{
  DbContext, is_database_incident, incident_involves_blocked_database,
}
use open_devops_agent.Services.Escalation.{
  Reason, critical, high, Settings, RunResult, empty_result, is_ungrounded, is_max_steps, is_over,
  reasons_of, reasons_for, priority_of, is_error, kind_of, decided, evaluate,
}

-- There is a reason.
abbrev pub has_any : List Reason → Bool
has_any [] = false
has_any (r ∷ rs) = true

has_any-reasons_of :
    (failed database unsolved over ungrounded max_steps : Bool)
    → has_any (reasons_of failed database unsolved over ungrounded max_steps)
      ≡ (failed || database || unsolved || ungrounded || max_steps)
has_any-reasons_of failed database unsolved over ungrounded max_steps = ground arith

priority-reasons_of :
    (failed database unsolved over ungrounded max_steps : Bool)
    → priority_of (reasons_of failed database unsolved over ungrounded max_steps)
      ≡ (if (failed || database) && not (unsolved && over) then critical else high)
unfolding priority_of
priority-reasons_of failed database unsolved over ungrounded max_steps = ground arith

decided-should_escalate :
    (incident_id kind : Text) (duration : ℕ) (reasons : List Reason)
    → (decided incident_id kind duration reasons).should_escalate ≡ has_any reasons
decided-should_escalate incident_id kind duration [] = refl
decided-should_escalate incident_id kind duration (r ∷ rs) = refl

decided-priority :
    (incident_id kind : Text) (duration : ℕ) (reasons : List Reason)
    → (decided incident_id kind duration reasons).priority ≡ priority_of reasons
unfolding priority_of text_eq
decided-priority incident_id kind duration [] = refl
decided-priority incident_id kind duration (r ∷ rs) = refl

-- `grounded is False`
abbrev pub denies : Option Bool → Bool
denies (some false) = true
denies _ = false

abbrev pub says : Text → Option Text → Bool
says text none = false
says text (some diagnosis) = text_eq diagnosis text

-- The duration in microseconds is no less than so many minutes, which may be negative.
abbrev pub lasted : Bool × ℕ → ℕ → Bool
lasted (true, minutes) duration = true
lasted (false, minutes) duration = leb (minutes * 60 * 1000000) duration

denies-is_ungrounded : (grounded : Option Bool) → denies grounded ≡ is_ungrounded grounded
denies-is_ungrounded none = refl
denies-is_ungrounded (some true) = refl
denies-is_ungrounded (some false) = refl

says-is_max_steps :
    (diagnosis : Option Text)
    → says (codes "Max steps reached without resolution") diagnosis ≡ is_max_steps diagnosis
says-is_max_steps none = refl
says-is_max_steps (some diagnosis) = refl

lasted-is_over : (duration : ℕ) (limit : Bool × ℕ) → lasted limit duration ≡ is_over duration limit
lasted-is_over duration (true, minutes) = refl
lasted-is_over duration (false, minutes) = ap (λ m. leb m duration) (omega arith)

-- An incident is escalated exactly when escalation is enabled and one of the checks that are on
-- finds a reason: an error of the agent, a database incident, no resolution, an ungrounded
-- diagnosis; or, whatever the flags say, the diagnosis is that the steps ran out. It is critical
-- exactly when escalation is enabled and the agent failed or a database is involved, each if its
-- check is on, unless the check for unresolved incidents is on and the incident is unresolved and
-- has lasted for the time limit, in minutes, or longer.
pub evaluate-should_escalate :
    (s : Settings) (incident_id : Text) (context : Option DbContext) (result : Option RunResult)
    (started_at now : ℕ) (error : Option Text)
    → let r = or_else result empty_result in
      let failed = is_error error && s.on_ai_failure in
      let database =
        (is_database_incident context || incident_involves_blocked_database r.actions) && s.on_db in
      let unsolved = not r.resolved && s.on_unresolved in
      let decision = evaluate s incident_id context result started_at now error in
      (decision.should_escalate ≡ (
        s.enabled
        && (failed
            || database
            || unsolved
            || (denies r.grounded && s.on_ai_failure)
            || says (codes "Max steps reached without resolution") r.diagnosis)))
      × (decision.priority ≡ (
          if s.enabled
            && (failed || database)
            && not (unsolved && lasted s.timeout_minutes (now - started_at))
          then critical
          else high))
unfolding evaluate reasons_for
evaluate-should_escalate s incident_id context result started_at now error =
    let r = or_else result empty_result in
    let failed = is_error error && s.on_ai_failure in
    let database =
      (is_database_incident context || incident_involves_blocked_database r.actions) && s.on_db in
    let unsolved = not r.resolved && s.on_unresolved in
    let over = is_over (now - started_at) s.timeout_minutes in
    let ungrounded = is_ungrounded r.grounded && s.on_ai_failure in
    let max_steps = is_max_steps r.diagnosis in
    let reasons = reasons_of failed database unsolved over ungrounded max_steps in
    rw
      (
        denies-is_ungrounded r.grounded,
        says-is_max_steps r.diagnosis,
        lasted-is_over (now - started_at) s.timeout_minutes,
      )
      (elim (Bool-cases s.enabled) [
        | inl on ↦ rw on (
          decided-should_escalate incident_id (kind_of context) (now - started_at) reasons
              ∙ has_any-reasons_of failed database unsolved over ungrounded max_steps,
          decided-priority incident_id (kind_of context) (now - started_at) reasons
              ∙ priority-reasons_of failed database unsolved over ungrounded max_steps,
        )
        | inr off ↦ rw off (refl, refl)
      ])
