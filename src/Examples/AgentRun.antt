-- ===== src/Examples/AgentRun.antt =====
-- A run of the agent's loop: one tool call, an answer without evidence, one with it.
use open_devops_agent.Agent.Loop.Claude.{
  call_from, text_block, tool_block, Called, responded, Response, end_turn, tool_use, Attempt,
  answered, transient, call_claude, IsBacked, call_claude-IsBacked,
}
use open_devops_agent.Agent.Grounding.{
  has_successful_remediation, has_suggestions, has_tool_evidence, validate_resolution, Action,
  ActionResult,
}
use open_devops_agent.Agent.Loop.{
  result_of, final_text, run_tools, end_turn_round, tool_round, round, Message, user, State, Result,
  Outcome, returned, raised, loop, begin, run_agent,
}
use open_devops_agent.Text.{lower, contains_any, text_mem, Text, codes}
use open_devops_agent.Prelude.{
  ℕ, ◌≤◌, ◌≡◌, refl, true, false, none, List, [], ◌∷◌, arith, ◌==◌, if◌then◌else◌, max,
}
use open_devops_agent.Json.{Json, null}
use open_devops_agent.Tools.FixVerifier.{Verification, failed}
use open_devops_agent.Agent.Loop.Steps.{run_agent-loop, run_agent-steps}

abbrev suggests : Response
suggests = record {
  stop_reason = tool_use;
  content =
      tool_block (codes "1") (codes "query_logs") null
      ∷ tool_block (codes "2") (codes "suggest_fix") null
      ∷ [];
}

abbrev concludes : Text → Response
concludes t = record { stop_reason = end_turn; content = text_block t ∷ [] }

-- What the model answers at each step.
abbrev model : Text → ℕ → List Message → Called
model kind step messages =
    if step == 1
    then responded suggests
    else if step == 2
    then responded (concludes (codes "Disk full."))
    else responded (concludes (codes "Disk full. Evidence: query_logs"))

abbrev recorded : ℕ → Text → Json → ActionResult
recorded k name input = record {
  error = false;
  blocked = false;
  recorded = true;
  success = none;
  title = none;
  description = none;
  commands = [];
  config_snippets = [];
  verification_steps = [];
}

abbrev unverified : Text → List Action → Verification
unverified kind actions = record {
  verified = false;
  status = failed;
  immediate = record { passed = false; message = [] };
  stability = none;
}

abbrev outcome : Outcome
outcome =
    run_agent 10 (codes "server") model recorded unverified (λ c. c) (user (codes "Fix it")) none

abbrev no_result : Result
no_result = record {
  resolved = false;
  diagnosis = [];
  actions = [];
  steps = 0;
  grounding = none;
  suggested_fixes = [];
  fix_applied = false;
  suggestions_only = false;
  verification = none;
}

abbrev result_in : Outcome → Result
result_in (returned result s) = result
result_in (raised message) = no_result

abbrev no_state : State
no_state = record {
  steps = 0;
  grounding_retries = 0;
  messages = [];
  actions_taken = [];
  checkpoint = none;
  conversation = none;
}

abbrev state_in : Outcome → State
state_in (returned result s) = s
state_in (raised message) = no_state

-- The second answer has no Evidence section, and the model is asked again.
returns : outcome ≡ returned (result_in outcome) (state_in outcome)
unfolding run_agent loop round tool_round end_turn_round validate_resolution text_mem
    has_tool_evidence run_tools contains_any lower final_text has_suggestions
returns = refl

resolves : ((result_in outcome).resolved ≡ true) × ((result_in outcome).steps ≡ 3)
unfolding run_agent loop round tool_round end_turn_round validate_resolution text_mem
    has_tool_evidence run_tools contains_any lower final_text has_suggestions result_of
    has_successful_remediation
resolves = (refl, refl)

run_agent-steps_example : (result_in outcome).steps ≤ max 10 0
run_agent-steps_example =
    run_agent-steps 10 (codes "server") model recorded unverified (λ c. c) (user (codes "Fix it"))
      none (result_in outcome) (state_in outcome) returns

run_agent-loop_example :
    loop 10
      (codes "server")
      (model (codes "server"))
      recorded
      (unverified (codes "server"))
      (λ c. c)
      25
      (begin (user (codes "Fix it")) none)
    ≡ outcome
run_agent-loop_example =
    run_agent-loop 10 (codes "server") model recorded unverified (λ c. c) (user (codes "Fix it"))
      none 25 (omega arith)

-- The first two attempts fail.
abbrev overloaded : ℕ → Attempt
overloaded attempt = if attempt == 3 then answered suggests else transient (codes "overloaded")

call_claude-IsBacked_example : IsBacked 2 5 0 (call_claude 2 overloaded 5)
call_claude-IsBacked_example = call_claude-IsBacked 2 overloaded 5 (omega arith)

waits : (call_claude 2 overloaded 5).delays ≡ 2 ∷ 4 ∷ []
unfolding call_claude call_from
waits = refl
