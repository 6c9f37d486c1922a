-- ===== src/Services/OrgConfig/Isolation.antt =====
-- Whose credentials an organisation gets.
use open_devops_agent.Prelude.{
  ◌&&◌, not, ◌≡◌, refl, ◌∙◌, false, Option, none, some, [], ◌∷◌, arith, if◌then◌else◌, Bool-cases,
  inl, inr,
}
use open_devops_agent.Text.{Text, codes, text_eq, text_mem, strip, is_empty}
use open_devops_agent.Text.Laws.{text_eq_iff, text_eq_refl}
use open_devops_agent.Storage.Memory
use open_devops_agent.Storage.Memory.{Objects}
use open_devops_agent.Storage.Memory.Laws.{get-put}
use open_devops_agent.Storage.Program.{World, ok, run, ◌>>=◌}
use open_devops_agent.Environ.{Environ, getenv, or_else}
use open_devops_agent.Services.OrgConfig.{
  config_key, known_credentials, is_credential, save, get, org_credential_keys,
  env_credentials_for_org, update, resolve_org_credentials,
}

-- No key stands twice.
abbrev pub UniqueKeys : {V : Type 0} → Objects V → Type 0
UniqueKeys [] = Unit
UniqueKeys ((k, v) ∷ m) = (Memory.get k m ≡ none) × UniqueKeys m

abbrev pub first_of_two : Option Text → Option Text → Option Text
first_of_two none other = other
first_of_two (some v) other = some v

get-update :
    (j : Text) (stored merged : Objects Text)
    → UniqueKeys stored
    → Memory.get j (update merged stored) ≡ first_of_two (Memory.get j stored) (Memory.get j merged)
unfolding update Memory.get
get-update j [] merged u = refl
get-update j ((k, v) ∷ stored) merged u =
    ground (
      arith,
      get-update j stored (Memory.put k v merged) u.1,
      get-put k j v merged,
      text_eq_iff k j,
    )

-- What the store holds for the organisation.
abbrev pub stored_for : Text → World (Objects Text) → Objects Text
stored_for org_id w = or_else (Memory.get (config_key org_id) w.objects) []

first_of_two-none : (o : Option Text) → first_of_two o none ≡ o
first_of_two-none none = refl
first_of_two-none (some v) = refl

no_env_credentials :
    (env : Environ) (org_id j : Text)
    → text_eq (getenv (codes "ORG_ID") (codes "default") env) org_id ≡ false
    → Memory.get j (env_credentials_for_org env org_id) ≡ none
unfolding env_credentials_for_org Memory.get
no_env_credentials env org_id j other = rw other

-- An organisation whose process this is gets its stored credentials, and for a key that it has not
-- stored the environment's; any other organisation gets what it has stored and nothing else. The
-- stored object has no key twice.
pub get-resolve_org_credentials :
    (env : Environ) (org_id : Text) (w : World (Objects Text))
    → UniqueKeys (stored_for org_id w)
    → (creds : Objects Text) × ((run (resolve_org_credentials env org_id) w).0 ≡ ok creds)
      × ((j : Text)
          → Memory.get j creds ≡ (
              if text_eq (getenv (codes "ORG_ID") (codes "default") env) org_id
              then first_of_two
                  (Memory.get j (stored_for org_id w))
                  (Memory.get j (env_credentials_for_org env org_id))
              else Memory.get j (stored_for org_id w)))
unfolding resolve_org_credentials run
get-resolve_org_credentials env org_id w u =
    let stored = stored_for org_id w in
    let from_env = env_credentials_for_org env org_id in
    (
      update from_env stored,
      refl,
      λ j.
          rw (get-update j stored from_env u)
            (elim (Bool-cases (text_eq (getenv (codes "ORG_ID") (codes "default") env) org_id)) [
              | inl own ↦ rw own
              | inr other ↦
                  rw (other, no_env_credentials env org_id j other)
                    (first_of_two-none (Memory.get j stored))
            ]),
    )

-- The value that `save` keeps under a key.
abbrev pub kept : Text → Option (Option Text) → Option Text
kept k none = none
kept k (some none) = none
kept k (some (some v)) =
    if text_mem k org_credential_keys && not (is_empty (strip v)) then some v else none

get-known_credentials :
    (k : Text) (credentials : Objects (Option Text))
    → UniqueKeys credentials
    → Memory.get k (known_credentials credentials) ≡ kept k (Memory.get k credentials)
unfolding known_credentials Memory.get
get-known_credentials k [] u = refl
get-known_credentials k ((j, none) ∷ more) u =
    ground (arith, get-known_credentials k more u.1, text_eq_iff j k)
get-known_credentials k ((j, some v) ∷ more) u = elim (Bool-cases (is_credential j (some v))) [
  | inl keep ↦ rw keep (ground (arith, get-known_credentials k more u.1, text_eq_iff j k))
  | inr drop ↦ rw drop (ground (arith, get-known_credentials k more u.1, text_eq_iff j k))
]

-- Reading an organisation's credentials right after saving some gives, under each key, the value
-- that was saved if the key is a known one and the value not blank, and nothing otherwise. The
-- dictionary that was saved has no key twice.
pub get-save :
    (org_id : Text) (credentials : Objects (Option Text)) (w : World (Objects Text))
    → UniqueKeys credentials
    → (read : Objects Text) × ((run (save org_id credentials >>= λ _. get org_id) w).0 ≡ ok read)
      × ((k : Text) → Memory.get k read ≡ kept k (Memory.get k credentials))
unfolding save get run
get-save org_id credentials w u =
    let found : Memory.get (config_key org_id)
          (Memory.put (config_key org_id) (known_credentials credentials) w.objects)
        ≡ some (known_credentials credentials) =
      get-put (config_key org_id) (config_key org_id) (known_credentials credentials) w.objects
      ∙ rw (text_eq_refl (config_key org_id)) in
    (known_credentials credentials, rw found, λ k. get-known_credentials k credentials u)
