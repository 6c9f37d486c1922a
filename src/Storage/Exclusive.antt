-- ===== src/Storage/Exclusive.antt =====
-- What only one program can win: the creation of a key that nobody deletes, or the deletion of a
-- key that nobody writes. The predicates follow the calls of a program; the answers are arbitrary,
-- but that a listing has the prefix asked for.
pub mod Calls
pub mod Winners
pub mod Rules
pub mod Caught
use open_devops_agent.Prelude.{ℕ, ◌≡◌, Bool, true, false, not, Option, List, [], ◌∷◌, All}
use open_devops_agent.Text.{Text, text_eq, starts_with}
use open_devops_agent.Storage.Memory
use open_devops_agent.Storage.Memory.{Objects}
use open_devops_agent.Storage.Program.{
  Program, done, fail, get_then, put_then, create_then, delete_then, consume_then, exists_then,
  list_then, now_then, Outcome,
}

pub data Mode : Type 0 where
  by_creation by_deletion : Mode

-- A write, or a deletion, that would let the prize be won again.
abbrev pub WritesElsewhere : Mode → Text → Text → Type 0
WritesElsewhere by_creation k j = Unit
WritesElsewhere by_deletion k j = text_eq j k ≡ false

abbrev pub DeletesElsewhere : Mode → Text → Text → Type 0
DeletesElsewhere by_creation k j = text_eq j k ≡ false
DeletesElsewhere by_deletion k j = Unit

module _ {V A : Type 0} where
  -- A program that never brings the prize back.
  abbrev pub Holder : Mode → Text → Program V A → Type 0
  Holder mode k (done a) = Unit
  Holder mode k (fail e) = Unit
  Holder mode k (get_then j f) = (o : Option V) → Holder mode k (f o)
  Holder mode k (put_then j v f) = WritesElsewhere mode k j × Holder mode k f
  Holder mode k (create_then j v f) =
      WritesElsewhere mode k j × ((o : Outcome) → Holder mode k (f o))
  Holder mode k (delete_then j f) = DeletesElsewhere mode k j × ((b : Bool) → Holder mode k (f b))
  Holder mode k (consume_then j test f) =
      DeletesElsewhere mode k j × ((b : Bool) → Holder mode k (f b))
  Holder mode k (exists_then j f) = (b : Bool) → Holder mode k (f b)
  Holder mode k (list_then p f) =
      (ks : List Text) → All (λ j. starts_with j p ≡ true) ks → Holder mode k (f ks)
  Holder mode k (now_then f) = (t : ℕ) → Holder mode k (f t)

  -- A program that, moreover, does not return what `Q` says unless it has won: in one mode its own
  -- call has created the key, in the other its own call has deleted it.
  abbrev pub Contender : Mode → Text → (A → Type 0) → Program V A → Type 0
  Contender mode k Q (done a) = ¬ Q a
  Contender mode k Q (fail e) = Unit
  Contender mode k Q (get_then j f) = (o : Option V) → Contender mode k Q (f o)
  Contender mode k Q (put_then j v f) = WritesElsewhere mode k j × Contender mode k Q f
  Contender by_creation k Q (create_then j v f) =
      (text_eq j k ≡ true → Holder by_creation k (f Outcome.created))
      × (text_eq j k ≡ false → Contender by_creation k Q (f Outcome.created))
      × Contender by_creation k Q (f Outcome.present)
      × Contender by_creation k Q (f Outcome.raised)
  Contender by_deletion k Q (create_then j v f) =
      (text_eq j k ≡ false) × ((o : Outcome) → Contender by_deletion k Q (f o))
  Contender by_creation k Q (delete_then j f) =
      (text_eq j k ≡ false) × ((b : Bool) → Contender by_creation k Q (f b))
  Contender by_deletion k Q (delete_then j f) =
      (text_eq j k ≡ true → Holder by_deletion k (f true))
      × (text_eq j k ≡ false → Contender by_deletion k Q (f true))
      × Contender by_deletion k Q (f false)
  Contender by_creation k Q (consume_then j test f) =
      (text_eq j k ≡ false) × ((b : Bool) → Contender by_creation k Q (f b))
  Contender by_deletion k Q (consume_then j test f) =
      (text_eq j k ≡ true → Holder by_deletion k (f true))
      × (text_eq j k ≡ false → Contender by_deletion k Q (f true))
      × Contender by_deletion k Q (f false)
  Contender mode k Q (exists_then j f) = (b : Bool) → Contender mode k Q (f b)
  Contender mode k Q (list_then p f) =
      (ks : List Text) → All (λ j. starts_with j p ≡ true) ks → Contender mode k Q (f ks)
  Contender mode k Q (now_then f) = (t : ℕ) → Contender mode k Q (f t)

-- The prize is gone.
abbrev pub spent : {V : Type 0} → Mode → Text → Objects V → Bool
spent by_creation k m = Memory.exists k m
spent by_deletion k m = not (Memory.exists k m)

module _ {V A : Type 0} where
  -- The program has returned a result of the kind `Q`.
  abbrev pub Won : (A → Type 0) → Program V A → Type 0
  Won Q (done a) = Q a
  Won Q (fail e) = ⊥
  Won Q (get_then j f) = ⊥
  Won Q (put_then j v f) = ⊥
  Won Q (create_then j v f) = ⊥
  Won Q (delete_then j f) = ⊥
  Won Q (consume_then j test f) = ⊥
  Won Q (exists_then j f) = ⊥
  Won Q (list_then p f) = ⊥
  Won Q (now_then f) = ⊥

  -- No two programs of the list have won.
  abbrev pub AtMostOne : (A → Type 0) → List (Program V A) → Type 0
  AtMostOne Q [] = Unit
  AtMostOne Q (p ∷ ps) = (Won Q p → All (λ q. ¬ Won Q q) ps) × AtMostOne Q ps
