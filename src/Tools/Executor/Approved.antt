-- ===== src/Tools/Executor/Approved.antt =====
-- `run` of tools/executor.py: a command that was approved, given as itself or by its reference. The
-- organisation is the current one.
use open_devops_agent.Prelude.{Option, none, some, [], ◌∷◌, not, if◌then◌else◌}
use open_devops_agent.Text.{Text, codes, starts_with}
use open_devops_agent.Environ.{Environ}
use open_devops_agent.Storage.Program.{done, ◌>>=◌, or_none}
use open_devops_agent.Tools.Safety.{is_emergency_stop_active, emergency_stop_block}
use open_devops_agent.Services.Approvals.{Approvals, reference_prefix, resolve}
use open_devops_agent.Tools.Executor.{Outcome, stopped, unavailable, execute}

abbrev pub approved_stop_message : Text
approved_stop_message = codes "Agent emergency stop is active. Approved actions cannot run."

-- `None if host else CommandApprovalStore().resolve(command)`, and None on a RuntimeError
abbrev pub retained_for : Text → Text → Option Text → Approvals (Option Text)
retained_for org_id reference none = or_none (resolve org_id reference)
retained_for org_id reference (some []) = or_none (resolve org_id reference)
retained_for org_id reference (some (c ∷ s)) = done none

abbrev pub answer_for : Text → Option Text → Outcome
answer_for reference none = unavailable reference
answer_for reference (some command) = execute command none

unfoldable pub run_approved : Environ → Text → Text → Option Text → Approvals Outcome
run_approved env org_id command host =
    if is_emergency_stop_active env
    then done (stopped (emergency_stop_block approved_stop_message))
    else if not (starts_with command reference_prefix)
    then done (execute command host)
    else do retained ← retained_for org_id command host; done (answer_for command retained)
