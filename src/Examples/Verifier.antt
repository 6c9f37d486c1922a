-- ===== src/Examples/Verifier.antt =====
-- Runs of the fix verifier on small inputs.
use open_devops_agent.Text.{strip, Text, codes}
use open_devops_agent.Tools.FixVerifier.Monitor.{
  monitor_from, rated, check_interval, monitor_stability,
}
use open_devops_agent.Json.{get_field, Json, string, Fields, field, end}
use open_devops_agent.Tools.FixVerifier.{
  verify_server_fix, run_immediate_checks, Verification, status_matches, verify_fix,
}
use open_devops_agent.Prelude.{
  ℕ, ◌*◌, ◌<◌, ◌≤◌, ◌≡◌, refl, Bool, true, false, [], arith, not, leb, ◌==◌, if◌then◌else◌,
}
use open_devops_agent.Tools.FixVerifier.Observe.{World, returned, threw}
use open_devops_agent.Tools.FixVerifier.Monitor.Bounds.{
  IsOver, looped, monitor_stability-IsOver, monitor_stability-stable,
}
use open_devops_agent.Tools.FixVerifier.Verified.{IsVerified, verify_fix-IsVerified}

-- A resource that is expected to be healthy is taken to be so when it is unhealthy.
matches_unhealthy : status_matches (codes "unhealthy") (codes "healthy") ≡ true
unfolding status_matches
matches_unhealthy = refl

-- A service that answers in every check but the second.
abbrev flaky : ℕ → World
flaky k = record {
  is_windows = false;
  pod_phase = λ _ _. threw (codes "no kubectl");
  service_state = λ _. returned (service k);
  http_get = λ _. threw (codes "no network");
  azure_headers = [];
  aws = λ _ _ _. threw (codes "no network");
  gcp = λ _ _ _. threw (codes "no network");
  azure = λ _ _ _. threw (codes "no network");
  argocd = λ _. threw (codes "no network");
  no_get = λ _. codes "no get";
}
  where
    service : ℕ → Text
    service k = if k == 2 then codes "failed" else codes "active\n"

abbrev no_repr : Json → Text
no_repr _ = []

abbrev every_thirty : ℕ → ℕ
every_thirty k = k * 30

abbrev nginx : Fields
nginx = field (codes "service_name") (string (codes "nginx")) end

abbrev verification : Verification
verification = verify_fix no_repr [] flaky every_thirty 300 (codes "server") nginx

verified_nginx : verification.verified ≡ true
unfolding verify_fix run_immediate_checks verify_server_fix get_field strip monitor_stability rated
    monitor_from
verified_nginx = refl

verify_fix-IsVerified_example : IsVerified (codes "server") verification
verify_fix-IsVerified_example =
    verify_fix-IsVerified no_repr [] flaky every_thirty 300 (codes "server") nginx (omega arith)
      verified_nginx

-- One check in ten fails.
abbrev second_fails : ℕ → Bool
second_fails k = not (k == 1)

slept_through : (k : ℕ) → k * check_interval 300 ≤ every_thirty k
unfolding check_interval
slept_through k = omega arith

monitor_stability-IsOver_example :
    IsOver every_thirty (looped second_fails every_thirty 300)
    × ((monitor_stability second_fails every_thirty 300).failures ≤ 3)
    × ((monitor_stability second_fails every_thirty 300).checks_performed * check_interval 300
        < 330)
unfolding check_interval
monitor_stability-IsOver_example =
    monitor_stability-IsOver second_fails every_thirty 300 (omega arith) slept_through

stable_service : (monitor_stability second_fails every_thirty 300).stable ≡ true
unfolding monitor_stability rated monitor_from
stable_service = refl

monitor_stability-stable_example :
    (1 ≤ (monitor_stability second_fails every_thirty 300).checks_performed)
    × (10 * (monitor_stability second_fails every_thirty 300).failures
        ≤ (monitor_stability second_fails every_thirty 300).checks_performed)
monitor_stability-stable_example =
    monitor_stability-stable second_fails every_thirty 300 (omega arith) stable_service

-- Three failures in thirty checks stop the monitoring, which still finds the system stable.
abbrev late_failures : ℕ → Bool
late_failures k = not (leb 27 k)

stopped_yet_stable : (monitor_stability late_failures every_thirty 1000).stable ≡ true
unfolding monitor_stability rated monitor_from
stopped_yet_stable = refl
