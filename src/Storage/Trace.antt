-- ===== src/Storage/Trace.antt =====
-- Interleavings: several programs share one store, and each call is one step of one of them. A
-- conditional create may raise, before or after the provider has written.
pub mod Schedule
use open_devops_agent.Prelude.{ℕ, Bool, true, false, Option, none, some, List, [], ◌∷◌}
use open_devops_agent.Text.{Text}
use open_devops_agent.Storage.Memory
use open_devops_agent.Storage.Memory.{Objects}
use open_devops_agent.Storage.Program.{
  Program, done, fail, get_then, put_then, create_then, delete_then, consume_then, exists_then,
  list_then, now_then, Outcome, outcome,
}

module _ {V A : Type 0} where
  -- One call of one program: before, and after. The clock answers as it likes.
  pub data Call : Program V A → Objects V → Program V A → Objects V → Type 0 where
    gets :
        (k : Text) (f : Option V → Program V A) (m : Objects V)
        → Call (get_then k f) m (f (Memory.get k m)) m
    puts :
        (k : Text) (v : V) (f : Program V A) (m : Objects V)
        → Call (put_then k v f) m f (Memory.put k v m)
    creates :
        (k : Text) (v : V) (f : Outcome → Program V A) (m : Objects V)
        → Call
            (create_then k v f)
            m
            (f (outcome (Memory.put_if_absent k v m).0))
            (Memory.put_if_absent k v m).1
    raises_before :
        (k : Text) (v : V) (f : Outcome → Program V A) (m : Objects V)
        → Call (create_then k v f) m (f Outcome.raised) m
    raises_after :
        (k : Text) (v : V) (f : Outcome → Program V A) (m : Objects V)
        → Call (create_then k v f) m (f Outcome.raised) (Memory.put_if_absent k v m).1
    deletes :
        (k : Text) (f : Bool → Program V A) (m : Objects V)
        → Call (delete_then k f) m (f (Memory.delete k m).0) (Memory.delete k m).1
    consumes :
        (k : Text) (test : V → Bool) (f : Bool → Program V A) (m : Objects V)
        → Call (consume_then k test f) m (f (Memory.consume k test m).0) (Memory.consume k test m).1
    tests :
        (k : Text) (f : Bool → Program V A) (m : Objects V)
        → Call (exists_then k f) m (f (Memory.exists k m)) m
    lists :
        (p : Text) (f : List Text → Program V A) (m : Objects V)
        → Call (list_then p f) m (f (Memory.list_keys p m)) m
    reads_clock : (t : ℕ) (f : ℕ → Program V A) (m : Objects V) → Call (now_then f) m (f t) m

  -- One of the programs makes its next call.
  pub data Step : List (Program V A) → Objects V → List (Program V A) → Objects V → Type 0 where
    first :
        {p p' : Program V A} {ps : List (Program V A)} {m m' : Objects V}
        → Call p m p' m'
        → Step (p ∷ ps) m (p' ∷ ps) m'
    later :
        {p : Program V A} {ps ps' : List (Program V A)} {m m' : Objects V}
        → Step ps m ps' m'
        → Step (p ∷ ps) m (p ∷ ps') m'

  -- Any number of steps.
  pub data Reach (ps : List (Program V A)) (m : Objects V)
      : List (Program V A) → Objects V → Type 0 where
    here : Reach ps m ps m
    next :
        {qs rs : List (Program V A)} {m' m'' : Objects V}
        → Reach ps m qs m'
        → Step qs m' rs m''
        → Reach ps m rs m''
