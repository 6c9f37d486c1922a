-- ===== src/Services/OrgContext.antt =====
-- services/org_context.py: an organisation's credentials laid over the environment for the time of
-- a scope. What the scope does is a function of the environment; the refresh of the clients is
-- theirs.
pub mod Restored
use open_devops_agent.Prelude.{Bool, true, false, Option, none, some, List, [], ◌∷◌}
use open_devops_agent.Text.{Text, codes}
use open_devops_agent.Storage.Memory
use open_devops_agent.Storage.Memory.{Objects}
use open_devops_agent.Environ.{Environ, getenv}
use open_devops_agent.Services.OrgConfig.{org_credential_keys}

-- `_active_org.get() or os.getenv("ORG_ID", "default")`
unfoldable pub current_org_id : Environ → Option Text → Text
unfolding getenv
current_org_id env none = getenv (codes "ORG_ID") (codes "default") env
current_org_id env (some []) = getenv (codes "ORG_ID") (codes "default") env
current_org_id env (some (c ∷ s)) = c ∷ s

-- What stood in the environment under each key that was laid over; `none` for nothing.
abbrev pub Previous : Type 0
Previous = Objects (Option Text)

abbrev pub laid : Text → Option Text → Environ × Previous → Environ × Previous
laid key none state = state
laid key (some value) (env, previous) =
    (Memory.put key value env, Memory.put key (Memory.get key env) previous)

-- The loop on entry.
unfoldable pub overlay : List Text → Objects Text → Environ × Previous → Environ × Previous
unfolding Memory.get Memory.put
overlay [] creds state = state
overlay (key ∷ keys) creds state = overlay keys creds (laid key (Memory.get key creds) state)

abbrev pub put_back : Text → Option Text → Environ → Environ
put_back key none env = Memory.remove key env
put_back key (some old) env = Memory.put key old env

-- The loop on exit.
unfoldable pub restore : Previous → Environ → Environ
unfolding Memory.remove Memory.put
restore [] env = env
restore ((key, old) ∷ previous) env = restore previous (put_back key old env)

-- The environment inside the scope, and after it.
unfoldable pub org_credentials : Objects Text → (Environ → Environ) → Environ → Environ × Environ
unfolding overlay restore
org_credentials creds body env =
    let inside = (overlay org_credential_keys creds (env, [])).0 in
    let previous = (overlay org_credential_keys creds (env, [])).1 in
    (inside, restore previous (body inside))
