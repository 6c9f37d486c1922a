-- ===== src/Tools/Executor/Once.antt =====
-- Callers that run one approval reference at once (tools/executor.py, `run`).
use open_devops_agent.Prelude.{ℕ, ◌≡◌, true, Option, none, some, [], ◌∷◌, List}
use open_devops_agent.Text.{Text, starts_with}
use open_devops_agent.Environ.{Environ}
use open_devops_agent.Storage.Memory.{Objects}
use open_devops_agent.Storage.Trace.{Reach}
use open_devops_agent.Storage.Exclusive.{by_deletion, Contender, AtMostOne}
use open_devops_agent.Storage.Exclusive.Winners.{Reach-AtMostOne, copies, All-copies}
use open_devops_agent.Storage.Exclusive.Rules.{Contender-bind, Contender-if}
use open_devops_agent.Storage.Exclusive.Caught.{Contender-or_none}
use open_devops_agent.Services.Approvals.{
  Stored, Approvals, reference_prefix, identifier_in, payload_key,
}
use open_devops_agent.Services.Approvals.Spent.{IsCommand, resolve-Contends}
use open_devops_agent.Tools.Safety.{is_emergency_stop_active}
use open_devops_agent.Tools.Executor.{Outcome, stopped, pending, unavailable, execute}
use open_devops_agent.Tools.Executor.Approved.{retained_for, run_approved}

-- A process is started.
abbrev pub Starts : Outcome → Type 0
Starts (stopped block) = ⊥
Starts (pending command message) = ⊥
Starts (unavailable reference) = ⊥
Starts (execute command host) = Unit

retained_for-Contends :
    (org_id reference : Text) (host : Option Text)
    → Contender by_deletion
        (payload_key org_id (identifier_in reference))
        IsCommand
        (retained_for org_id reference host)
retained_for-Contends org_id reference none =
    Contender-or_none _ IsCommand (λ x. x) by_deletion _ (resolve-Contends org_id reference)
retained_for-Contends org_id reference (some []) =
    Contender-or_none _ IsCommand (λ x. x) by_deletion _ (resolve-Contends org_id reference)
retained_for-Contends org_id reference (some (c ∷ s)) = λ x. x

run_approved-Contends :
    (env : Environ) (org_id reference : Text) (host : Option Text)
    → starts_with reference reference_prefix ≡ true
    → Contender by_deletion
        (payload_key org_id (identifier_in reference))
        Starts
        (run_approved env org_id reference host)
unfolding run_approved
run_approved-Contends env org_id reference host is_reference =
    let k = payload_key org_id (identifier_in reference) in
    Contender-if by_deletion k Starts (is_emergency_stop_active env) _ _ (λ x. x)
      (rw is_reference (
        Contender-bind k IsCommand Starts by_deletion (retained_for org_id reference host) _
          (retained_for-Contends org_id reference host) (λ _. tt)
          (elim [ none ↦ λ _ x. x | some command ↦ λ n _. n tt ])))

-- Any number of callers run one approval reference at once for one organisation, from any store,
-- which nobody else changes meanwhile. However their calls to the provider are interleaved, at most one of them starts a process.
pub run_approved-AtMostOne :
    (env : Environ) (org_id reference : Text) (host : Option Text) (n : ℕ) (m : Objects Stored)
    (ps : List (Approvals Outcome)) (m' : Objects Stored)
    → starts_with reference reference_prefix ≡ true
    → Reach (copies n (run_approved env org_id reference host)) m ps m'
    → AtMostOne Starts ps
run_approved-AtMostOne env org_id reference host n m ps m' is_reference r =
    Reach-AtMostOne by_deletion (payload_key org_id (identifier_in reference)) Starts
      (copies n (run_approved env org_id reference host)) m ps m' r
      (All-copies _ n _ (run_approved-Contends env org_id reference host is_reference))
