-- ===== src/Tools/DiskPolicy/Verdicts.antt =====
-- What a verdict of tools/disk_policy.py promises about the path.
use open_devops_agent.Prelude.{
  ap, ◌∙◌, any, not, ◌&&◌, Bool, if◌then◌else◌, ◌≡◌, refl, inl, inr, true, false, ◌||◌, List, [],
  ◌∷◌, Bool-cases,
}
use open_devops_agent.Text.{words, ends_with, Text, codes, text_eq, starts_with, is_empty}
use open_devops_agent.Text.Laws.{eq_of_text_eq}
use open_devops_agent.Environ.{Environ}
use open_devops_agent.Tools.DiskPolicy.Paths.{normalize_path, path_name}
use open_devops_agent.Tools.DiskPolicy.{
  is_protected_path, is_safe_stale_log, ends_with_any, safe, classify_cleanup_target,
}
use open_devops_agent.Tools.DiskPolicy.Resolved.{IsResolved, normalize_path-IsResolved}

-- The endings of a rotated or compressed log.
abbrev pub rotated_endings : List Text
rotated_endings = words (".gz" ∷ ".xz" ∷ ".bz2" ∷ ".1" ∷ ".old" ∷ ".rotated" ∷ [])

-- What makes a log safe to delete, for its normal form.
pub record IsStaleLog (env : Environ) (path : Text) : Type 0 where
  pub in_var_log : starts_with (normalize_path path) (codes "/var/log/") ≡ true
  pub unprotected : is_protected_path env (normalize_path path) ≡ false
  pub rotated : any (ends_with (path_name (normalize_path path))) rotated_endings ≡ true

or_other : (a b : Bool) → (a || b) ≡ true → a ≡ false → b ≡ true
or_other true b h e = absurd (cc)
or_other false b h e = h

log_folder : ends_with_any rotated_endings (path_name (codes "/var/log")) ≡ false
unfolding ends_with_any path_name
log_folder = refl

-- The folder itself has no such ending.
below_var_log :
    (path : Text)
    → (starts_with path (codes "/var/log/") || text_eq path (codes "/var/log")) ≡ true
    → ends_with_any rotated_endings (path_name path) ≡ true
    → starts_with path (codes "/var/log/") ≡ true
below_var_log path h ending = elim (Bool-cases (starts_with path (codes "/var/log/"))) [
  | inl below ↦ below
  | inr other ↦
      let same : path ≡ codes "/var/log" =
        eq_of_text_eq path (codes "/var/log") (or_other _ _ h other) in
      let none_such : ends_with_any rotated_endings (path_name path) ≡ false =
        ap (λ p. ends_with_any rotated_endings (path_name p)) same ∙ log_folder in
      absurd (cc)
]

past_guards :
    (a b c d : Bool)
    → (if not a && not b then false else if c then false else d) ≡ true
    → ((a || b) ≡ true) × ((c ≡ false) × (d ≡ true))
past_guards true b true d h = absurd (cc)
past_guards true b false d h = (refl, (refl, h))
past_guards false true true d h = absurd (cc)
past_guards false true false d h = (refl, (refl, h))
past_guards false false c d h = absurd (cc)

pub is_safe_stale_log-IsStaleLog :
    (env : Environ) (path : Text) → is_safe_stale_log env path ≡ true → IsStaleLog env path
unfolding is_safe_stale_log ends_with_any
is_safe_stale_log-IsStaleLog env path h =
    let normalized = normalize_path path in
    let (folder, (unprotected, rotated)) =
      past_guards (starts_with normalized (codes "/var/log/"))
        (text_eq normalized (codes "/var/log")) (is_protected_path env normalized)
        (ends_with_any rotated_endings (path_name normalized)) h in
    record {
      in_var_log = below_var_log normalized folder rotated;
      unprotected = unprotected;
      rotated = rotated;
    }

-- A path is declared safe to delete only in its normal form, which climbs nowhere and is not
-- protected. That form, normalised once more, as the code does, is not protected either, lies below
-- /var/log, and its name has one of the endings of rotated and compressed logs.
pub classify_cleanup_target-safe :
    (env : Environ) (path : Text)
    → (classify_cleanup_target env path).status ≡ safe
    → ((classify_cleanup_target env path).path ≡ normalize_path path)
      × IsResolved (normalize_path path)
      × (is_protected_path env (normalize_path path) ≡ false)
      × IsStaleLog env (normalize_path path)
unfolding classify_cleanup_target
classify_cleanup_target-safe env path = elim (Bool-cases (is_empty (normalize_path path))) [
  | inl blank ↦ rw blank (λ h. absurd (cc))
  | inr more ↦ elim (Bool-cases (is_protected_path env (normalize_path path))) [
    | inl held ↦ rw (more, held) (λ h. absurd (cc))
    | inr free ↦ elim (Bool-cases (is_safe_stale_log env (normalize_path path))) [
      | inl stale ↦
          rw (more, free, stale)
            λ h. (
              refl,
              normalize_path-IsResolved path,
              refl,
              is_safe_stale_log-IsStaleLog env (normalize_path path) stale,
            )
      | inr fresh ↦ rw (more, free, fresh) (λ h. absurd (cc))
    ]
  ]
]
