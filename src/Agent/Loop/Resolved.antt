-- ===== src/Agent/Loop/Resolved.antt =====
-- When the agent reports an incident as resolved, and what it leaves in the store.
use open_devops_agent.Prelude.{ℕ, ◌≡◌, true, false, ◌||◌, not, none, some, List, ◌⊎◌}
use open_devops_agent.Text.{Text}
use open_devops_agent.Json.{Json}
use open_devops_agent.Agent.Grounding.{
  Action, ActionResult, Validation, has_successful_remediation, has_suggestions,
  validate_resolution,
}
use open_devops_agent.Tools.FixVerifier.{Verification}
use open_devops_agent.Agent.Loop.Claude.{Called}
use open_devops_agent.Agent.Loop.{
  Message, Checkpoint, State, Result, Round, continue, return, break, raise, Outcome, returned,
  raised,
}

module _ (max_steps : ℕ) (issue_type : Text) (claude : ℕ → List Message → Called)
    (execute : ℕ → Text → Json → ActionResult) (verify : List Action → Verification)
    (scrubbed : Checkpoint → Checkpoint) where
  -- What a result that says resolved rests on.
  pub record IsResolved (result : Result) : Type 0 where
    pub grounded :
        (validate_resolution issue_type result.actions result.diagnosis true).grounded ≡ true
    pub fixed_or_suggested :
        (has_successful_remediation result.actions || has_suggestions result.actions) ≡ true
    pub fix_verified :
        (not (has_successful_remediation result.actions) || (verify result.actions).verified) ≡ true

  -- What a run leaves. One that ended with an answer of the model, whose grounding it reports, leaves
  -- no checkpoint; one that was stopped reports none, and leaves a checkpoint of what it reports.
  abbrev pub Leaves : Result → State → Type 0
  Leaves result s =
      (s.conversation ≡ some s.messages)
      × (((v : Validation) × (result.grounding ≡ some v) × (s.checkpoint ≡ none))
          ⊎ ((result.grounding ≡ none)
              × (s.checkpoint
                  ≡ some (
                      scrubbed (record {
                        messages = s.messages;
                        actions_taken = result.actions;
                        steps = result.steps;
                        issue_type = issue_type;
                      })))))

  abbrev pub IsSound : Result → State → Type 0
  IsSound result s =
      (((result.resolved ≡ true) × IsResolved result) ⊎ (result.resolved ≡ false)) × Leaves result s

  abbrev Sound : Outcome → Type 0
  Sound (returned result s) = IsSound result s
  Sound (raised message) = Unit

  abbrev SoundRound : Round → Type 0
  SoundRound (continue s) = Unit
  SoundRound (return result s) = IsSound result s
  SoundRound (break s) = Unit
  SoundRound (raise message) = Unit
