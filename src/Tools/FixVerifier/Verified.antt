-- ===== src/Tools/FixVerifier/Verified.antt =====
-- What a verified fix has shown.
use mathlib.Core.Path.{subst}
use open_devops_agent.Prelude.{
  ℕ, suc, ◌*◌, ◌≤◌, ◌<◌, ◌≡◌, refl, ap, sym, ◌∙◌, ◌⊎◌, inl, inr, Bool, true, false, ◌||◌, not, some,
  [], ◌∷◌, arith, Bool-cases, if_yes, if_no, if◌then◌else◌,
}
use open_devops_agent.Text.{Text, codes, words, text_eq, text_mem, starts_with}
use open_devops_agent.Environ.{Environ}
use open_devops_agent.Json.{Json, Fields}
use open_devops_agent.Tools.FixVerifier.{
  Check, Verification, unstable, success, report, judged, run_immediate_checks, verify_fix,
}
use open_devops_agent.Tools.FixVerifier.Observe.{World}
use open_devops_agent.Tools.FixVerifier.Monitor.{Monitoring, monitor_stability}
use open_devops_agent.Tools.FixVerifier.Monitor.Bounds.{monitor_stability-stable}

-- The types of incidents that have a verification.
abbrev pub IsVerifiable : Text → Type 0
IsVerifiable incident_type =
    ((text_eq incident_type (codes "k8s")
        || text_eq incident_type (codes "cicd")
        || text_mem incident_type (words ("server" ∷ "linux" ∷ "windows" ∷ "rhel" ∷ []))
        || text_eq incident_type (codes "argocd"))
      ≡ true)
    ⊎ (starts_with incident_type (codes "cloud_") ≡ true)

other_type_fails :
    (k8s cicd host cloud argocd : Bool) (a b c d e f : Check)
    → f.passed ≡ false
    → (if k8s
        then a
        else if cicd
        then b
        else if host
        then c
        else if cloud
        then d
        else if argocd
        then e
        else f).passed
      ≡ true
    → ((k8s || cicd || host || argocd) ≡ true) ⊎ (cloud ≡ true)
other_type_fails k8s cicd host cloud argocd a b c d e f fails h = ground arith

run_immediate_checks-IsVerifiable :
    (repr : Json → Text) (env : Environ) (world : World) (incident_type : Text) (expected : Fields)
    → (run_immediate_checks repr env world incident_type expected).passed ≡ true
    → IsVerifiable incident_type
unfolding run_immediate_checks
run_immediate_checks-IsVerifiable repr env world incident_type expected h =
    other_type_fails (text_eq incident_type (codes "k8s")) (text_eq incident_type (codes "cicd"))
      (text_mem incident_type (words ("server" ∷ "linux" ∷ "windows" ∷ "rhel" ∷ [])))
      (starts_with incident_type (codes "cloud_")) (text_eq incident_type (codes "argocd")) _ _ _ _
      _ _ refl h

-- What a verification that passed rests on.
pub record IsVerified (incident_type : Text) (verification : Verification) : Type 0 where
  pub verifiable : IsVerifiable incident_type
  pub immediate_passed : verification.immediate.passed ≡ true
  pub reported : verification.status ≡ success
  pub monitored :
      (m : Monitoring) × (verification.stability ≡ some m)
      × (1 ≤ m.checks_performed)
      × (10 * m.failures ≤ m.checks_performed)

judged-IsVerified :
    (incident_type : Text) (immediate : Check) (m : Monitoring)
    → IsVerifiable incident_type
    → immediate.passed ≡ true
    → (m.stable ≡ true → (1 ≤ m.checks_performed) × (10 * m.failures ≤ m.checks_performed))
    → (judged immediate m).verified ≡ true
    → IsVerified incident_type (judged immediate m)
judged-IsVerified incident_type immediate m verifiable passed rate h = elim (Bool-cases m.stable) [
  | inr shaky ↦ absurd (ground arith)
  | inl stable ↦
      subst (IsVerified incident_type)
        (sym (
          if_yes m.stable (report true success immediate m) (report false unstable immediate m)
            stable))
        (record {
          verifiable = verifiable;
          immediate_passed = passed;
          reported = refl;
          monitored = (m, refl, (rate stable).0, (rate stable).1);
        })
]

-- A fix is reported as verified only for a type of incident that has a verification, when the
-- immediate check passed and the monitoring that followed made at least one check, of which at
-- most one in ten failed.
pub verify_fix-IsVerified :
    (repr : Json → Text) (env : Environ) (worlds : ℕ → World) (elapsed : ℕ → ℕ)
    (monitoring_duration : ℕ) (incident_type : Text) (expected : Fields)
    → 0 < monitoring_duration
    → (verify_fix repr env worlds elapsed monitoring_duration incident_type expected).verified
      ≡ true
    → IsVerified incident_type
        (verify_fix repr env worlds elapsed monitoring_duration incident_type expected)
unfolding verify_fix
verify_fix-IsVerified repr env worlds elapsed monitoring_duration incident_type expected positive
      h =
    elim (Bool-cases (run_immediate_checks repr env (worlds 0) incident_type expected).passed) [
      | inr broken ↦ absurd (ground arith)
      | inl passed ↦
          let checked = λ (k : ℕ).
            (run_immediate_checks repr env (worlds (suc k)) incident_type expected).passed in
          let e =
            if_no (not (run_immediate_checks repr env (worlds 0) incident_type expected).passed) _
              (judged (run_immediate_checks repr env (worlds 0) incident_type expected)
                (monitor_stability checked elapsed monitoring_duration))
              (ground arith) in
          subst (IsVerified incident_type) (sym e) (
            judged-IsVerified incident_type _ _
              (run_immediate_checks-IsVerifiable repr env (worlds 0) incident_type expected passed)
              passed (monitor_stability-stable checked elapsed monitoring_duration positive)
              (sym (ap (λ v. v.verified) e) ∙ h))
    ]
