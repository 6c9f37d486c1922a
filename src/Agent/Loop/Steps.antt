-- ===== src/Agent/Loop/Steps.antt =====
-- How many steps a run of the agent takes.
use mathlib.Core.Path.{subst}
use open_devops_agent.Prelude.{
  ℕ, zero, suc, ◌+◌, ◌≤◌, ◌≡◌, refl, sym, false, ◌&&◌, not, Option, none, some, List, arith, ltb,
  Bool-cases, inl, inr, max,
}
use open_devops_agent.Text.{Text}
use open_devops_agent.Json.{Json}
use open_devops_agent.Agent.Grounding.{Action, ActionResult, Validation}
use open_devops_agent.Tools.FixVerifier.{Verification}
use open_devops_agent.Agent.Loop.Claude.{
  Called, responded, gave_up, no_attempt, end_turn, tool_use, other_stop,
}
use open_devops_agent.Agent.Loop.{
  Message, Checkpoint, State, Result, Round, continue, return, break, raise, Outcome, returned,
  raised, after_call, after_response, end_turn_round, tool_round, result_of, round, exhausted, next,
  loop, begin, run_agent, resumed_type,
}

module _ (max_steps : ℕ) (issue_type : Text) (claude : ℕ → List Message → Called)
    (execute : ℕ → Text → Json → ActionResult) (verify : List Action → Verification)
    (scrubbed : Checkpoint → Checkpoint) where
  -- A round that began so counts one step.
  abbrev Counts : ℕ → Round → Type 0
  Counts steps (continue s) = s.steps ≡ steps
  Counts steps (return result s) = (result.steps ≡ steps) × (s.steps ≡ steps)
  Counts steps (break s) = s.steps ≡ steps
  Counts steps (raise message) = Unit

  end_turn_round-Counts :
      (diagnosis : Text) (validation : Validation) (s : State)
      → Counts s.steps (
          end_turn_round max_steps issue_type claude execute verify scrubbed diagnosis validation s)
  unfolding end_turn_round result_of
  end_turn_round-Counts diagnosis validation s =
      elim (Bool-cases
        (not validation.grounded && ltb s.grounding_retries 2 && ltb s.steps max_steps)) [
          | inl again ↦ rw again refl
          | inr over ↦ rw over (refl, refl)
        ]

  after_call-Counts :
      (s : State) (called : Called)
      → Counts s.steps (after_call max_steps issue_type claude execute verify scrubbed s called)
  unfolding tool_round
  after_call-Counts s (gave_up message) = tt
  after_call-Counts s no_attempt = tt
  after_call-Counts s (responded response) = by_stop response.stop_reason refl
    where
      by_stop :
          (stop : _)
          → response.stop_reason ≡ stop
          → Counts s.steps
              (after_response max_steps issue_type claude execute verify scrubbed s response)
      by_stop end_turn e = rw e (end_turn_round-Counts _ _ _)
      by_stop tool_use e = rw e refl
      by_stop other_stop e = rw e refl

  round-Counts :
      (s : State)
      → Counts (suc s.steps) (round max_steps issue_type claude execute verify scrubbed s)
  unfolding round
  round-Counts s = after_call-Counts (record s { steps = suc s.steps }) _

  -- A run that returns has taken so many steps at most.
  abbrev AtMost : ℕ → Outcome → Type 0
  AtMost n (returned result s) = (result.steps ≤ n) × (s.steps ≤ n)
  AtMost n (raised message) = Unit

  next-AtMost :
      (n steps : ℕ) (again : State → Outcome) (r : Round)
      → Counts steps r
      → steps ≤ n
      → ((s : State) → s.steps ≡ steps → AtMost n (again s))
      → AtMost n (next max_steps issue_type claude execute verify scrubbed again r)
  unfolding exhausted
  next-AtMost n steps again (continue s) e few h = h s e
  next-AtMost n steps again (return result s) (e, e') few h = (omega arith, omega arith)
  next-AtMost n steps again (break s) e few h = (omega arith, omega arith)
  next-AtMost n steps again (raise message) e few h = tt

  loop-AtMost :
      (n rounds : ℕ) (s : State)
      → max_steps ≤ n
      → s.steps ≤ n
      → AtMost n (loop max_steps issue_type claude execute verify scrubbed rounds s)
  unfolding loop exhausted
  loop-AtMost n zero s enough few = (few, few)
  loop-AtMost n (suc rounds) s enough few = elim (Bool-cases (ltb s.steps max_steps)) [
    | inr over ↦ rw over (few, few)
    | inl going ↦ rw going (
        next-AtMost n (suc s.steps) _ _ (round-Counts s) (ground arith)
          (λ s' e. loop-AtMost n rounds s' enough (ground arith)))
  ]

  next-again :
      (steps : ℕ) (f g : State → Outcome) (r : Round)
      → Counts steps r
      → ((s : State) → s.steps ≡ steps → f s ≡ g s)
      → next max_steps issue_type claude execute verify scrubbed f r
        ≡ next max_steps issue_type claude execute verify scrubbed g r
  next-again steps f g (continue s) e same = same s e
  next-again steps f g (return result s) e same = refl
  next-again steps f g (break s) e same = refl
  next-again steps f g (raise message) e same = refl

  loop_spent :
      (rounds : ℕ) (s : State)
      → ltb s.steps max_steps ≡ false
      → loop max_steps issue_type claude execute verify scrubbed rounds s
        ≡ exhausted max_steps issue_type claude execute verify scrubbed s
  unfolding loop
  loop_spent zero s over = refl
  loop_spent (suc rounds) s over = rw over refl

  -- Rounds enough for the steps that are left, and more, come to the same.
  loop_enough :
      (more rounds : ℕ) (s : State)
      → max_steps ≤ rounds + s.steps
      → max_steps ≤ more + s.steps
      → loop max_steps issue_type claude execute verify scrubbed more s
        ≡ loop max_steps issue_type claude execute verify scrubbed rounds s
  unfolding loop
  loop_enough zero rounds s enough enough' = sym (loop_spent rounds s (ground arith))
  loop_enough (suc more) zero s enough enough' = loop_spent (suc more) s (ground arith)
  loop_enough (suc more) (suc rounds) s enough enough' = elim (Bool-cases (ltb s.steps max_steps)) [
    | inr over ↦ rw over refl
    | inl going ↦ rw going (
        next-again (suc s.steps) _ _ _ (round-Counts s)
          (λ s' e. loop_enough more rounds s' (omega arith) (omega arith)))
  ]

-- The agent's loop is over within `max_steps` rounds, whatever the model and the tools answer: with
-- any larger allowance of rounds the run comes out the same.
pub run_agent-loop :
    (max_steps : ℕ) (issue_type : Text) (claude : Text → ℕ → List Message → Called)
    (execute : ℕ → Text → Json → ActionResult) (verify : Text → List Action → Verification)
    (scrubbed : Checkpoint → Checkpoint) (first : Message) (checkpoint : Option Checkpoint)
    (rounds : ℕ)
    → max_steps ≤ rounds
    → loop max_steps
        (resumed_type issue_type checkpoint)
        (claude (resumed_type issue_type checkpoint))
        execute
        (verify (resumed_type issue_type checkpoint))
        scrubbed
        rounds
        (begin first checkpoint)
      ≡ run_agent max_steps issue_type claude execute verify scrubbed first checkpoint
unfolding run_agent
run_agent-loop max_steps issue_type claude execute verify scrubbed first checkpoint rounds enough =
    loop_enough max_steps (resumed_type issue_type checkpoint)
      (claude (resumed_type issue_type checkpoint)) execute
      (verify (resumed_type issue_type checkpoint)) scrubbed rounds max_steps _ (omega arith)
      (omega arith)

-- The steps of a run's checkpoint.
abbrev pub steps_before : Option Checkpoint → ℕ
steps_before none = 0
steps_before (some c) = c.steps

-- A run that returns has taken at most `max_steps` steps, those before its checkpoint included,
-- or none beyond the checkpoint if that had more already.
pub run_agent-steps :
    (max_steps : ℕ) (issue_type : Text) (claude : Text → ℕ → List Message → Called)
    (execute : ℕ → Text → Json → ActionResult) (verify : Text → List Action → Verification)
    (scrubbed : Checkpoint → Checkpoint) (first : Message) (checkpoint : Option Checkpoint)
    (result : Result) (s : State)
    → run_agent max_steps issue_type claude execute verify scrubbed first checkpoint
      ≡ returned result s
    → result.steps ≤ max max_steps (steps_before checkpoint)
unfolding run_agent
run_agent-steps max_steps issue_type claude execute verify scrubbed first checkpoint result s h =
    (subst
      (AtMost max_steps (resumed_type issue_type checkpoint)
        (claude (resumed_type issue_type checkpoint)) execute
        (verify (resumed_type issue_type checkpoint)) scrubbed
        (max max_steps (steps_before checkpoint)))
      h
      (loop-AtMost max_steps (resumed_type issue_type checkpoint)
        (claude (resumed_type issue_type checkpoint)) execute
        (verify (resumed_type issue_type checkpoint)) scrubbed
        (max max_steps (steps_before checkpoint)) max_steps (begin first checkpoint) (omega arith)
        (begin_few checkpoint))).0
  where
    begin_few :
        (checkpoint : Option Checkpoint)
        → (begin first checkpoint).steps ≤ max max_steps (steps_before checkpoint)
    begin_few none = omega arith
    begin_few (some c) = omega arith
