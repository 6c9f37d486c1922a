-- ===== src/Services/OrgContext/Restored.antt =====
-- The environment after the scope of an organisation's credentials (services/org_context.py).
use open_devops_agent.Prelude.{
  ◌≡◌, refl, ◌∙◌, inl, inr, Bool, true, false, ◌&&◌, not, Option, none, some, List, [], ◌∷◌, arith,
  if◌then◌else◌, Bool-cases, is_some, ap,
}
use open_devops_agent.Text.{Text, text_eq, text_mem}
use open_devops_agent.Text.Laws.{text_eq_iff}
use open_devops_agent.Storage.Memory
use open_devops_agent.Storage.Memory.{Objects}
use open_devops_agent.Storage.Memory.Laws.{get-put, get-remove}
use open_devops_agent.Environ.{Environ}
use open_devops_agent.Services.OrgConfig.{org_credential_keys}
use open_devops_agent.Services.OrgConfig.Isolation.{UniqueKeys}
use open_devops_agent.Services.OrgContext.{
  Previous, laid, overlay, put_back, restore, org_credentials,
}

-- No text stands twice.
distinct : List Text → Bool
distinct [] = true
distinct (k ∷ ks) = not (text_mem k ks) && distinct ks

-- The scope lays something over the key.
abbrev pub is_laid : List Text → Objects Text → Text → Bool
is_laid keys creds j = text_mem j keys && is_some (Memory.get j creds)

-- The environment after the loop on entry.
get-overlay :
    (keys : List Text) (creds : Objects Text) (env : Environ) (previous : Previous) (j : Text)
    → Memory.get j (overlay keys creds (env, previous)).0
      ≡ (if is_laid keys creds j then Memory.get j creds else Memory.get j env)
unfolding overlay text_mem
get-overlay [] creds env previous j = refl
get-overlay (key ∷ keys) creds env previous j =
    by_key (Memory.get key creds) refl (λ env' previous'. get-overlay keys creds env' previous' j)
  where
    by_key :
        (found : Option Text)
        → Memory.get key creds ≡ found
        → ((env' : Environ) (previous' : Previous)
            → Memory.get j (overlay keys creds (env', previous')).0
              ≡ (if is_laid keys creds j then Memory.get j creds else Memory.get j env'))
        → Memory.get j (overlay keys creds (laid key found (env, previous))).0
          ≡ (if is_laid (key ∷ keys) creds j then Memory.get j creds else Memory.get j env)
    by_key none e ih = ground (arith, ih env previous, text_eq_iff j key)
    by_key (some value) e ih = ground (
      arith,
      ih (Memory.put key value env) (Memory.put key (Memory.get key env) previous),
      text_eq_iff j key,
      text_eq_iff key j,
      get-put key j value env,
    )

-- What the loop on entry has noted.
get-previous :
    (keys : List Text) (creds : Objects Text) (env : Environ) (previous : Previous) (j : Text)
    → distinct keys ≡ true
    → Memory.get j (overlay keys creds (env, previous)).1
      ≡ (if is_laid keys creds j then some (Memory.get j env) else Memory.get j previous)
unfolding overlay text_mem distinct
get-previous [] creds env previous j d = refl
get-previous (key ∷ keys) creds env previous j d =
    by_key (Memory.get key creds) refl
      (λ env' previous'. get-previous keys creds env' previous' j (ground arith))
  where
    by_key :
        (found : Option Text)
        → Memory.get key creds ≡ found
        → ((env' : Environ) (previous' : Previous)
            → Memory.get j (overlay keys creds (env', previous')).1
              ≡ (if is_laid keys creds j then some (Memory.get j env') else Memory.get j previous'))
        → Memory.get j (overlay keys creds (laid key found (env, previous))).1 ≡ (
            if is_laid (key ∷ keys) creds j then some (Memory.get j env) else Memory.get j previous)
    by_key none e ih = ground (arith, ih env previous, text_eq_iff j key)
    by_key (some value) e ih = ground (
      arith,
      ih (Memory.put key value env) (Memory.put key (Memory.get key env) previous),
      text_eq_iff j key,
      text_eq_iff key j,
      get-put key j value env,
      get-put key j (Memory.get key env) previous,
    )

UniqueKeys-put :
    (k : Text) (v : Option Text) (m : Previous) → UniqueKeys m → UniqueKeys (Memory.put k v m)
unfolding Memory.put Memory.get
UniqueKeys-put k v [] u = (refl, tt)
UniqueKeys-put k v ((j, w) ∷ m) u = elim (Bool-cases (text_eq j k)) [
  | inl same ↦ rw same (ground (arith, text_eq_iff j k), u.1)
  | inr other ↦
      rw other (
        get-put k j v m ∙ ground (arith, text_eq_iff k j, text_eq_iff j k),
        UniqueKeys-put k v m u.1,
      )
]

UniqueKeys-overlay :
    (keys : List Text) (creds : Objects Text) (env : Environ) (previous : Previous)
    → UniqueKeys previous
    → UniqueKeys (overlay keys creds (env, previous)).1
unfolding overlay
UniqueKeys-overlay [] creds env previous u = u
UniqueKeys-overlay (key ∷ keys) creds env previous u =
    by_key (Memory.get key creds) (λ env' previous'. UniqueKeys-overlay keys creds env' previous')
  where
    by_key :
        (found : Option Text)
        → ((env' : Environ) (previous' : Previous)
            → UniqueKeys previous'
            → UniqueKeys (overlay keys creds (env', previous')).1)
        → UniqueKeys (overlay keys creds (laid key found (env, previous))).1
    by_key none ih = ih env previous u
    by_key (some value) ih =
        ih (Memory.put key value env) (Memory.put key (Memory.get key env) previous)
          (UniqueKeys-put key (Memory.get key env) previous u)

abbrev back : Option (Option Text) → Option Text → Option Text
back none now = now
back (some old) now = old

get-put_back :
    (key j : Text) (old : Option Text) (env : Environ)
    → Memory.get j (put_back key old env) ≡ (if text_eq key j then old else Memory.get j env)
get-put_back key j none env = get-remove key j env
get-put_back key j (some v) env = get-put key j v env

-- The environment after the loop on exit.
get-restore :
    (previous : Previous) (env : Environ) (j : Text)
    → UniqueKeys previous
    → Memory.get j (restore previous env) ≡ back (Memory.get j previous) (Memory.get j env)
unfolding restore Memory.get
get-restore [] env j u = refl
get-restore ((key, old) ∷ previous) env j u = ground (
  arith,
  get-restore previous (put_back key old env) j u.1,
  get-put_back key j old env,
  text_eq_iff key j,
)

back-if :
    (b : Bool) (old now : Option Text) (j : Text)
    → back (if b then some old else Memory.get j []) now ≡ (if b then old else now)
unfolding Memory.get
back-if true old now j = refl
back-if false old now j = refl

-- The keys of credentials are listed once each.
distinct_keys : distinct org_credential_keys ≡ true
unfolding distinct text_mem
distinct_keys = refl

-- Whatever a scope does to the environment, each key over which it laid a credential has its old
-- value again afterwards, or none if it had none; every other key is as the scope left it.
pub org_credentials-restores :
    (creds : Objects Text) (body : Environ → Environ) (env : Environ) (j : Text)
    → Memory.get j (org_credentials creds body env).1 ≡ (
        if is_laid org_credential_keys creds j
        then Memory.get j env
        else Memory.get j (body (org_credentials creds body env).0))
unfolding org_credentials
org_credentials-restores creds body env j =
    let inside = (overlay org_credential_keys creds (env, [])).0 in
    let previous = (overlay org_credential_keys creds (env, [])).1 in
    get-restore previous (body inside) j (UniqueKeys-overlay org_credential_keys creds env [] tt)
    ∙ ap (λ found. back found (Memory.get j (body inside)))
        (get-previous org_credential_keys creds env [] j distinct_keys)
    ∙ back-if (is_laid org_credential_keys creds j) (Memory.get j env) (Memory.get j (body inside))
        j
