-- ===== src/Storage/Program.antt =====
-- Programs that call a storage provider, one call at a time. A program is its calls and what it
-- does with each answer, so it can be run alone on the in-memory provider (`run`) and its calls
-- can be interleaved with those of other programs (Storage/Trace.antt).
use open_devops_agent.Prelude.{
  ℕ, suc, ◌≡◌, refl, Bool, true, false, Option, none, some, List, [], ◌∷◌,
}
use open_devops_agent.Text.{Text}
use open_devops_agent.Storage.Keys.{org_prefix}
use open_devops_agent.Storage.Memory
use open_devops_agent.Storage.Memory.{Objects}

-- What ends a program early: an error of the provider, a missing field (`KeyError`), a text that
-- is no number (`ValueError`), and the `RuntimeError`s of the services.
pub data Error : Type 0 where
  storage_error lineage_missing publication_lost legacy_conflict legacy_lost : Error
  key_error value_error : Error
  no_atomic_writes cleanup_failed too_large expired_in_retention capacity_exhausted : Error

-- What `put_json_if_absent` answers: True, False, or an exception.
pub data Outcome : Type 0 where
  created present raised : Outcome

pub data Program (V : Type 0) (A : Type 0) : Type 0 where
  done : A → Program V A
  fail : Error → Program V A
  get_then : Text → (Option V → Program V A) → Program V A
  put_then : Text → V → Program V A → Program V A
  create_then : Text → V → (Outcome → Program V A) → Program V A
  delete_then : Text → (Bool → Program V A) → Program V A
  consume_then : Text → (V → Bool) → (Bool → Program V A) → Program V A
  exists_then : Text → (Bool → Program V A) → Program V A
  list_then : Text → (List Text → Program V A) → Program V A
  now_then : (ℕ → Program V A) → Program V A

infixl 5 ◌>>=◌ ◌>>◌
abbrev pub ◌>>=◌ : {V A B : Type 0} → Program V A → (A → Program V B) → Program V B
done a >>= g = g a
fail e >>= g = fail e
get_then k f >>= g = get_then k (λ o. f o >>= g)
put_then k v f >>= g = put_then k v (f >>= g)
create_then k v f >>= g = create_then k v (λ o. f o >>= g)
delete_then k f >>= g = delete_then k (λ b. f b >>= g)
consume_then k test f >>= g = consume_then k test (λ b. f b >>= g)
exists_then k f >>= g = exists_then k (λ b. f b >>= g)
list_then p f >>= g = list_then p (λ ks. f ks >>= g)
now_then f >>= g = now_then (λ t. f t >>= g)

abbrev pub ◌>>◌ : {V A B : Type 0} → Program V A → Program V B → Program V B
m >> n = m >>= λ _. n

module _ {V : Type 0} where
  abbrev pub get_json : Text → Program V (Option V)
  get_json k = get_then k done

  abbrev pub put_json : Text → V → Program V (Unit {0})
  put_json k v = put_then k v (done tt)

  -- `try: put_json_if_absent(...)`, with the exception as an answer
  abbrev pub try_put_json_if_absent : Text → V → Program V Outcome
  try_put_json_if_absent k v = create_then k v done

  abbrev or_raise : Outcome → Program V Bool
  or_raise Outcome.created = done true
  or_raise Outcome.present = done false
  or_raise Outcome.raised = fail storage_error

  abbrev pub put_json_if_absent : Text → V → Program V Bool
  put_json_if_absent k v = create_then k v or_raise

  abbrev pub delete : Text → Program V Bool
  delete k = delete_then k done

  -- the object is deleted if it is there and passes the test, in one step
  abbrev pub consume : Text → (V → Bool) → Program V Bool
  consume k test = consume_then k test done

  abbrev pub exists : Text → Program V Bool
  exists k = exists_then k done

  abbrev pub list_keys : Text → Program V (List Text)
  list_keys p = list_then p done

  abbrev pub now : Program V ℕ
  now = now_then done

-- `record[field]`
abbrev pub require : {V A : Type 0} → Option A → Program V A
require none = fail key_error
require (some a) = done a

-- `except RuntimeError`
abbrev pub is_runtime_error : Error → Bool
is_runtime_error storage_error = false
is_runtime_error key_error = false
is_runtime_error value_error = false
is_runtime_error too_large = false
is_runtime_error _ = true

abbrev pub or_fail_again : {V A : Type 0} → Bool → Error → Program V (Option A)
or_fail_again true e = done none
or_fail_again false e = fail e

-- `try: return program`, and None on a RuntimeError
abbrev pub or_none : {V A : Type 0} → Program V (Option A) → Program V (Option A)
or_none (done a) = done a
or_none (fail e) = or_fail_again (is_runtime_error e) e
or_none (get_then k f) = get_then k (λ o. or_none (f o))
or_none (put_then k v f) = put_then k v (or_none f)
or_none (create_then k v f) = create_then k v (λ o. or_none (f o))
or_none (delete_then k f) = delete_then k (λ b. or_none (f b))
or_none (consume_then k test f) = consume_then k test (λ b. or_none (f b))
or_none (exists_then k f) = exists_then k (λ b. or_none (f b))
or_none (list_then p f) = list_then p (λ ks. or_none (f ks))
or_none (now_then f) = now_then (λ t. or_none (f t))

-- The provider's objects, and the clock: the time at each reading, and how often it has been read.
pub record World (V : Type 0) : Type 0 where
  pub objects : Objects V
  pub clock : ℕ → ℕ
  pub reads : ℕ

pub data Result (A : Type 0) : Type 0 where
  ok : A → Result A
  err : Error → Result A

abbrev pub outcome : Bool → Outcome
outcome true = Outcome.created
outcome false = Outcome.present

-- A program alone on the in-memory provider, which raises nothing.
unfoldable pub run : {V A : Type 0} → Program V A → World V → Result A × World V
run (done a) w = (ok a, w)
run (fail e) w = (err e, w)
run (get_then k f) w = run (f (Memory.get k w.objects)) w
run (put_then k v f) w = run f (record w { objects = Memory.put k v w.objects })
run (create_then k v f) w =
    let (b, m) = Memory.put_if_absent k v w.objects in
    run (f (outcome b)) (record w { objects = m })
run (delete_then k f) w =
    let (b, m) = Memory.delete k w.objects in run (f b) (record w { objects = m })
run (consume_then k test f) w =
    let (b, m) = Memory.consume k test w.objects in run (f b) (record w { objects = m })
run (exists_then k f) w = run (f (Memory.exists k w.objects)) w
run (list_then p f) w = run (f (Memory.list_keys p w.objects)) w
run (now_then f) w = run (f (w.clock w.reads)) (record w { reads = suc w.reads })

-- What comes after the first of two programs.
abbrev pub continue : {V A B : Type 0} → (A → Program V B) → Result A × World V → Result B × World V
continue g (ok a, w) = run (g a) w
continue g (err e, w) = (err e, w)

-- Running two programs in turn is running the second where the first has stopped.
pub run-bind :
    {V A B : Type 0} (m : Program V A) (g : A → Program V B) (w : World V)
    → run (m >>= g) w ≡ continue g (run m w)
unfolding run
run-bind (done a) g w = refl
run-bind (fail e) g w = refl
run-bind (get_then k f) g w = run-bind (f (Memory.get k w.objects)) g w
run-bind (put_then k v f) g w = run-bind f g (record w { objects = Memory.put k v w.objects })
run-bind (create_then k v f) g w =
    let (b, m) = Memory.put_if_absent k v w.objects in
    run-bind (f (outcome b)) g (record w { objects = m })
run-bind (delete_then k f) g w =
    let (b, m) = Memory.delete k w.objects in run-bind (f b) g (record w { objects = m })
run-bind (consume_then k test f) g w =
    let (b, m) = Memory.consume k test w.objects in run-bind (f b) g (record w { objects = m })
run-bind (exists_then k f) g w = run-bind (f (Memory.exists k w.objects)) g w
run-bind (list_then p f) g w = run-bind (f (Memory.list_keys p w.objects)) g w
run-bind (now_then f) g w = run-bind (f (w.clock w.reads)) g (record w { reads = suc w.reads })

-- put_json_org; put_json answers the key
unfoldable pub put_json_org : {V : Type 0} → Text → Text → Text → Text → V → Program V Text
unfolding org_prefix
put_json_org org_id category incident_id filename v = do
  let key = org_prefix org_id (category ∷ incident_id ∷ filename ∷ [])
  put_json key v
  done key
