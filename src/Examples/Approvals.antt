-- ===== src/Examples/Approvals.antt =====
-- An approval that is retained, and resolved by two callers.
use open_devops_agent.Prelude.{suc, ℕ, ◌+◌, ◌≡◌, refl, none, some, List, [], ◌∷◌, ◌++◌, true}
use open_devops_agent.Text.{Text, codes, partition_on, starts_with}
use open_devops_agent.Text.Hex.{hex_padded}
use open_devops_agent.Storage.Memory
use open_devops_agent.Storage.Program.{World, Result, ok, run}
use open_devops_agent.Storage.Trace.Schedule.{play, Reach-play}
use open_devops_agent.Storage.Exclusive.{AtMostOne}
use open_devops_agent.Storage.Exclusive.Winners.{copies}
use open_devops_agent.Services.Approvals.{
  Stored, retain, resolve, is_expired, command_of, payload_key, stored_eq, reference_prefix,
}
use open_devops_agent.Services.Approvals.Spent.{IsCommand, resolve-AtMostOne}
use open_devops_agent.Services.Approvals.Authorised.{IsAuthorised, resolve-IsAuthorised}
use open_devops_agent.Tools.Executor.Approved.{run_approved}
use open_devops_agent.Tools.Executor.Once.{Starts, run_approved-AtMostOne}

abbrev tenant : Text
tenant = codes "acme"

abbrev quoted : Text → Text
quoted s = b'"' ∷ (s ++ b'"' ∷ [])

abbrev at_noon : World Stored
at_noon = record { objects = []; clock = λ n. 43200000000 + n; reads = 0 }

abbrev retained : Result Text × World Stored
retained =
    run
      (retain quoted (λ approval. 100) (λ slot. codes "0123456789abcdef0123") tenant
        (codes "kubectl delete pod web-1") none)
      at_noon

abbrev retained_reference : Text
retained_reference = codes "agent-approval:0000b6d000000123456789abcdef0123 (\"localhost\")"

abbrev two_callers : List ℕ
two_callers = 0 ∷ 1 ∷ 0 ∷ 1 ∷ 0 ∷ 1 ∷ 0 ∷ 1 ∷ 0 ∷ 1 ∷ 0 ∷ 1 ∷ 0 ∷ 1 ∷ 0 ∷ 1 ∷ 0 ∷ 1 ∷ 0 ∷ 1 ∷ []

retain-run : retained.0 ≡ ok retained_reference
unfolding run retain Memory.list_keys Memory.put_if_absent hex_padded
retain-run = refl

resolve-run :
    (run (resolve tenant retained_reference) retained.1).0
    ≡ ok (some (codes "kubectl delete pod web-1"))
unfolding run resolve Memory.list_keys retain Memory.put_if_absent hex_padded is_expired
    partition_on command_of payload_key Memory.consume stored_eq
resolve-run = refl

resolve-AtMostOne_example :
    AtMostOne IsCommand
      (play two_callers (copies 2 (resolve tenant retained_reference)) retained.1).0
resolve-AtMostOne_example =
    resolve-AtMostOne tenant retained_reference 2 retained.1.objects
      (play two_callers (copies 2 (resolve tenant retained_reference)) retained.1).0
      (play two_callers (copies 2 (resolve tenant retained_reference)) retained.1).1.objects
      (Reach-play two_callers (copies 2 (resolve tenant retained_reference)) retained.1)

resolve-IsAuthorised_example :
    IsAuthorised
      (suc (suc retained.1.reads))
      tenant
      retained_reference
      (codes "kubectl delete pod web-1")
      retained.1
resolve-IsAuthorised_example =
    resolve-IsAuthorised tenant retained_reference (codes "kubectl delete pod web-1") retained.1
      resolve-run

retained_reference-prefix : starts_with retained_reference reference_prefix ≡ true
unfolding starts_with
retained_reference-prefix = refl

run_approved-AtMostOne_example :
    AtMostOne Starts
      (play two_callers (copies 2 (run_approved [] tenant retained_reference none)) retained.1).0
run_approved-AtMostOne_example =
    run_approved-AtMostOne [] tenant retained_reference none 2 retained.1.objects
      (play two_callers (copies 2 (run_approved [] tenant retained_reference none)) retained.1).0
      (play two_callers (copies 2 (run_approved [] tenant retained_reference none))
        retained.1).1.objects
      retained_reference-prefix
      (Reach-play two_callers (copies 2 (run_approved [] tenant retained_reference none))
        retained.1)
