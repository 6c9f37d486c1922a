-- ===== src/Tools/Executor/Gates.antt =====
-- What can run without a human.
use open_devops_agent.Prelude.{
  ◌≡◌, ◌≢◌, ◌↔◌, ◌⊎◌, inl, inr, Bool, true, false, Option, List, [], ◌∷◌, arith, any, In, refl,
  Bool-cases,
}
use open_devops_agent.Text.{Text, contains, contains_any, lower, strip}
use open_devops_agent.Environ.{Environ}
use open_devops_agent.Tools.Safety.{is_emergency_stop_active, requires_configured_approval}
use open_devops_agent.Tools.Executor.{
  Classification, safe, allowed, requires_approval, classify, gated, always_require_approval,
  execute, run_safe,
}

-- A process is started.
abbrev Free : Bool → Classification → Bool → Type 0
Free stop c auto_apply = (c ≡ safe) ⊎ ((auto_apply ≡ true) × (stop ≡ false))

gated-executes :
    (stop : Bool) (c : Classification) (auto_apply : Bool) (command : Text) (host : Option Text)
    (ran : Text) (at : Option Text)
    → gated stop c auto_apply command host ≡ execute ran at
    → (ran ≡ command) × (at ≡ host) × Free stop c auto_apply
gated-executes stop safe auto_apply command host ran at h = (cc, cc, inl refl)
gated-executes true allowed auto_apply command host ran at h = absurd (cc)
gated-executes true requires_approval auto_apply command host ran at h = absurd (cc)
gated-executes false allowed true command host ran at h = (cc, cc, inr (refl, refl))
gated-executes false requires_approval true command host ran at h = (cc, cc, inr (refl, refl))
gated-executes false allowed false command host ran at h = absurd (cc)
gated-executes false requires_approval false command host ran at h = absurd (cc)

gated-Free :
    (stop : Bool) (c : Classification) (auto_apply : Bool) (command : Text) (host : Option Text)
    → Free stop c auto_apply
    → gated stop c auto_apply command host ≡ execute command host
gated-Free stop safe auto_apply command host f = refl
gated-Free true allowed auto_apply command host (inl e) = cc
gated-Free true requires_approval auto_apply command host (inl e) = cc
gated-Free true allowed auto_apply command host (inr (a, s)) = cc
gated-Free true requires_approval auto_apply command host (inr (a, s)) = cc
gated-Free false allowed true command host f = refl
gated-Free false requires_approval true command host f = refl
gated-Free false allowed false command host (inl e) = cc
gated-Free false allowed false command host (inr (a, s)) = cc
gated-Free false requires_approval false command host (inl e) = cc
gated-Free false requires_approval false command host (inr (a, s)) = cc

-- `run_safe` starts a process exactly for a command classified as safe, and for any command under
-- AUTO_APPLY while the emergency stop is off, even one that by the list of the module always needs
-- approval; what it starts is the command it was given, on the host it was given.
pub run_safe-executes :
    (env : Environ) (auto_apply : Bool) (command : Text) (host : Option Text) (ran : Text)
    (at : Option Text)
    → (run_safe env auto_apply command host ≡ execute ran at) ↔ (
        (ran ≡ command)
        × (at ≡ host)
        × ((classify env command ≡ safe)
            ⊎ ((auto_apply ≡ true) × (is_emergency_stop_active env ≡ false))))
unfolding run_safe
run_safe-executes env auto_apply command host ran at = (
  gated-executes (is_emergency_stop_active env) (classify env command) auto_apply command host ran
      at,
  λ h.
      rw (h.0, h.1)
        (gated-Free (is_emergency_stop_active env) (classify env command) auto_apply command host
          h.2),
)

contains_any-In :
    (p : Text) (ps : List Text) (s : Text)
    → In p ps
    → contains s p ≡ true
    → contains_any ps s ≡ true
unfolding contains_any any
contains_any-In p [] s i h = absurd i
contains_any-In p (q ∷ ps) s (inl e) h = ground arith
contains_any-In p (q ∷ ps) s (inr i) h = ground (arith, contains_any-In p ps s i)

classify-always :
    (env : Environ) (command : Text)
    → contains_any always_require_approval (lower (strip command)) ≡ true
    → classify env command ≡ requires_approval
unfolding classify
classify-always env command h = elim (Bool-cases (requires_configured_approval env command)) [
  | inl configured ↦ rw configured
  | inr other ↦ rw (other, h)
]

-- Nothing else in a command makes up for a pattern that always needs approval: a command that
-- holds one, in whatever letters and wherever, is never safe, and starts no process without
-- AUTO_APPLY.
pub run_safe-always_require_approval :
    (env : Environ) (command : Text) (host : Option Text) (pattern : Text)
    → In pattern always_require_approval
    → contains (lower (strip command)) pattern ≡ true
    → (classify env command ≡ requires_approval)
      × ((ran : Text) (at : Option Text) → run_safe env false command host ≢ execute ran at)
run_safe-always_require_approval env command host pattern listed found = (
  kind,
  λ ran at ran_now. elim ((run_safe-executes env false command host ran at).0 ran_now).2 [
    | inl e ↦ cc (kind, e)
    | inr (a, s) ↦ cc
  ],
)
  where
    kind : classify env command ≡ requires_approval
    kind =
        classify-always env command
          (contains_any-In pattern always_require_approval (lower (strip command)) listed found)
