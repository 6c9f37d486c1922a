-- ===== src/Agent/Loop.antt =====
-- The loop of `DevOpsAgent._run_with_org_context` in agent/core.py. The language model, the tools
-- and the verification of a fix are parameters; so is the first message, whose text is a prompt, and
-- what `scrub_dict` and `_serialize_messages` make of a checkpoint before it is stored.
-- Of a tool's result the model keeps what the checks of agent/grounding.py read.
pub mod Claude
pub mod Steps
pub mod Resolved
use open_devops_agent.Prelude.{
  ℕ, zero, suc, ◌+◌, Bool, true, false, ◌&&◌, ◌||◌, not, Option, none, some, List, [], ◌∷◌, ◌++◌,
  ltb, if◌then◌else◌, length,
}
use open_devops_agent.Text.{Text, codes}
use open_devops_agent.Json.{Json}
use open_devops_agent.Environ.{or_else}
use open_devops_agent.Agent.Grounding.{
  Action, ActionResult, Fix, Validation, extract_suggested_fixes, has_successful_remediation,
  validate_resolution,
}
use open_devops_agent.Tools.FixVerifier.{Verification}
use Claude.{
  ContentBlock, text_block, tool_block, Stop, end_turn, tool_use, Response, Called, responded,
  gave_up, no_attempt,
}

pub data Message : Type 0 where
  user : Text → Message
  assistant : List ContentBlock → Message
  evidence_reminder : Validation → Message
  tool_results : List (Text × ActionResult) → Message

-- What is kept of a run so that it can be resumed.
pub record Checkpoint : Type 0 where
  pub messages : List Message
  pub actions_taken : List Action
  pub steps : ℕ
  pub issue_type : Text

-- The variables of the loop, and what the incident store holds for the incident.
pub record State : Type 0 where
  pub steps : ℕ
  pub grounding_retries : ℕ
  pub messages : List Message
  pub actions_taken : List Action
  pub checkpoint : Option Checkpoint
  pub conversation : Option (List Message)

pub record Result : Type 0 where
  pub resolved : Bool
  pub diagnosis : Text
  pub actions : List Action
  pub steps : ℕ
  pub grounding : Option Validation
  pub suggested_fixes : List Fix
  pub fix_applied : Bool
  pub suggestions_only : Bool
  pub verification : Option Verification

-- How a round ends: the loop goes on, the function returns, the loop is left by `break`, or the
-- model's error is raised.
pub data Round : Type 0 where
  continue : State → Round
  return : Result → State → Round
  break : State → Round
  raise : Text → Round

pub data Outcome : Type 0 where
  returned : Result → State → Outcome
  raised : Text → Outcome

-- next((b.text for b in content if it has one), "")
unfoldable pub final_text : List ContentBlock → Text
final_text [] = []
final_text (text_block t ∷ blocks) = t
final_text (tool_block id name input ∷ blocks) = final_text blocks

abbrev pub is_verified : Option Verification → Bool
is_verified none = true
is_verified (some v) = v.verified

abbrev pub no_fixes : List Fix → Bool
no_fixes [] = true
no_fixes (_ ∷ _) = false

-- messages.append(message)
abbrev pub append_message : Message → State → State
append_message message s = record s { messages = s.messages ++ message ∷ [] }

module _ (max_steps : ℕ) (issue_type : Text) (claude : ℕ → List Message → Called)
    (execute : ℕ → Text → Json → ActionResult) (verify : List Action → Verification)
    (scrubbed : Checkpoint → Checkpoint) where
  -- _save_checkpoint
  abbrev pub save_checkpoint : State → State
  save_checkpoint s = record s {
    checkpoint = some (
        scrubbed (record {
          messages = s.messages;
          actions_taken = s.actions_taken;
          steps = s.steps;
          issue_type = issue_type;
        }));
  }

  -- The calls of tools in a response, in order: each result is added to the actions.
  unfoldable pub run_tools :
      List ContentBlock → List Action → List Action × List (Text × ActionResult)
  run_tools [] actions = (actions, [])
  run_tools (text_block t ∷ blocks) actions = run_tools blocks actions
  run_tools (tool_block id name input ∷ blocks) actions =
      let result = execute (length actions) name input in
      let rest = run_tools blocks (actions ++ record { tool = some name; result = result } ∷ []) in
      (rest.0, (id, result) ∷ rest.1)

  abbrev pub verification_of : Bool → List Action → Option Verification
  verification_of fix_applied actions = if fix_applied then some (verify actions) else none

  -- The result of a run whose last answer is `diagnosis`.
  unfoldable pub result_of : Text → Validation → State → Result
  result_of diagnosis validation s =
      let fix_applied = has_successful_remediation s.actions_taken in
      let fixes = extract_suggested_fixes s.actions_taken in
      let verification = verification_of fix_applied s.actions_taken in
      record {
        resolved =
            validation.grounded
            && (fix_applied || validation.has_fixes)
            && is_verified verification;
        diagnosis = diagnosis;
        actions = s.actions_taken;
        steps = s.steps;
        grounding = some validation;
        suggested_fixes = fixes;
        fix_applied = fix_applied;
        suggestions_only = not (no_fixes fixes) && not fix_applied;
        verification = verification;
      }

  -- save_conversation and delete_checkpoint
  abbrev pub closed : State → State
  closed s = record s { conversation = some s.messages; checkpoint = none }

  unfoldable pub end_turn_round : Text → Validation → State → Round
  end_turn_round diagnosis validation s =
      if not validation.grounded && ltb s.grounding_retries 2 && ltb s.steps max_steps
      then continue (
          save_checkpoint (
            append_message (evidence_reminder validation)
              (record s { grounding_retries = suc s.grounding_retries })))
      else return (result_of diagnosis validation s) (closed s)

  unfoldable pub tool_round : List ContentBlock → State → Round
  tool_round blocks s =
      let done = run_tools blocks s.actions_taken in
      continue (
        save_checkpoint
          (append_message (tool_results done.1) (record s { actions_taken = done.0 })))

  abbrev pub after_response : State → Response → Round
  after_response s response =
      let s' = append_message (assistant response.content) s in
      let diagnosis = final_text response.content in
      elim response.stop_reason [
        | end_turn ↦
            end_turn_round diagnosis (validate_resolution issue_type s.actions_taken diagnosis true)
              s'
        | tool_use ↦ tool_round response.content s'
        | other ↦ break s'
      ]

  abbrev pub after_call : State → Called → Round
  after_call s (responded response) = after_response s response
  after_call s (gave_up message) = raise message
  after_call s no_attempt = raise (codes "exceptions must derive from BaseException")

  -- The body of the loop.
  unfoldable pub round : State → Round
  round s = let s' = record s { steps = suc s.steps } in after_call s' (claude s'.steps s'.messages)

  -- What is returned after the loop.
  unfoldable pub exhausted : State → Outcome
  exhausted s =
      returned
        (record {
          resolved = false;
          diagnosis = codes "Max steps reached without resolution";
          actions = s.actions_taken;
          steps = s.steps;
          grounding = none;
          suggested_fixes = [];
          fix_applied = false;
          suggestions_only = false;
          verification = none;
        })
        (save_checkpoint (record s { conversation = some s.messages }))

  abbrev pub next : (State → Outcome) → Round → Outcome
  next again (continue s) = again s
  next again (return result s) = returned result s
  next again (break s) = exhausted s
  next again (raise message) = raised message

  -- The loop, with so many rounds at most; Steps shows that `max_steps` of them are enough.
  unfoldable pub loop : ℕ → State → Outcome
  loop zero s = exhausted s
  loop (suc rounds) s =
      if not (ltb s.steps max_steps) then exhausted s else next (loop rounds) (round s)

-- Where a run begins: at its checkpoint, or with the first message.
abbrev pub begin : Message → Option Checkpoint → State
begin first none = record {
  steps = 0;
  grounding_retries = 0;
  messages = first ∷ [];
  actions_taken = [];
  checkpoint = none;
  conversation = none;
}
begin first (some c) = record {
  steps = c.steps;
  grounding_retries = 0;
  messages = c.messages;
  actions_taken = c.actions_taken;
  checkpoint = some c;
  conversation = none;
}

-- The type of the issue: the checkpoint's, if there is one.
abbrev pub resumed_type : Text → Option Checkpoint → Text
resumed_type issue_type none = issue_type
resumed_type issue_type (some c) = c.issue_type

-- The prompt of the model's calls and the verification depend on the type of the issue.
unfoldable pub run_agent :
    (max_steps : ℕ) (issue_type : Text) (claude : Text → ℕ → List Message → Called)
    (execute : ℕ → Text → Json → ActionResult) (verify : Text → List Action → Verification)
    (scrubbed : Checkpoint → Checkpoint)
    → Message
    → Option Checkpoint
    → Outcome
run_agent max_steps issue_type claude execute verify scrubbed first checkpoint =
    let kind = resumed_type issue_type checkpoint in
    loop max_steps kind (claude kind) execute (verify kind) scrubbed max_steps
      (begin first checkpoint)
