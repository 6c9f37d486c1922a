-- ===== src/Middleware/Options/Items.antt =====
-- What the arguments that `_parse_options` accepts consist of.
use open_devops_agent.Prelude.{
  ◌≡◌, refl, ap, Bool, true, false, some, List, [], ◌∷◌, ◌++◌, arith, ℕ, ◌==◌, All, sym, ==_iff,
  Bool-cases, inl, inr,
}
use mathlib.Core.Path.{subst}
use open_devops_agent.Text.{Text, codes, text_mem, starts_with, partition_on}
use open_devops_agent.Storage.Memory
use open_devops_agent.Storage.Memory.{Objects}
use open_devops_agent.Middleware.Options.{Check}

abbrev pub Lacks : ℕ → Text → Type 0
Lacks c = All (λ d. (d == c) ≡ false)

-- An argument that is no option, a switch, and an option with its value in one or two arguments.
pub data Item : Type 0 where
  plain switch : Text → Item
  inline spaced : Text → Text → Item

abbrev pub written : List Item → List Text
written [] = []
written (plain t ∷ items) = t ∷ written items
written (switch o ∷ items) = o ∷ written items
written (inline o v ∷ items) = (o ++ b'=' ∷ v) ∷ written items
written (spaced o v ∷ items) = o ∷ v ∷ written items

abbrev pub plains : List Item → List Text
plains [] = []
plains (plain t ∷ items) = t ∷ plains items
plains (switch o ∷ items) = plains items
plains (inline o v ∷ items) = plains items
plains (spaced o v ∷ items) = plains items

-- An option's name, which is none of those seen.
abbrev pub IsFresh : List Text → Text → Type 0
IsFresh seen o = (starts_with o (codes "-") ≡ true) × Lacks b'=' o × (text_mem o seen ≡ false)

-- The value is one that the option's check accepts.
abbrev pub Accepts : Objects Check → Text → Text → Type 0
Accepts value_options o v =
    (check : Check) × (Memory.get o value_options ≡ some check) × (check v ≡ true)

module _ (switches : List Text) (value_options : Objects Check) where
  -- Each item is well formed, and no option stands among those before it.
  abbrev pub IsValid : List Text → List Item → Type 0
  IsValid seen [] = Unit
  IsValid seen (plain t ∷ items) = (starts_with t (codes "-") ≡ false) × IsValid seen items
  IsValid seen (switch o ∷ items) =
      IsFresh seen o × (text_mem o switches ≡ true) × IsValid (o ∷ seen) items
  IsValid seen (inline o v ∷ items) =
      IsFresh seen o × Accepts value_options o v × IsValid (o ∷ seen) items
  IsValid seen (spaced o v ∷ items) =
      IsFresh seen o
      × (text_mem o switches ≡ false)
      × Accepts value_options o v
      × IsValid (o ∷ seen) items

pub partition_on-inline :
    (c : ℕ) (o v : Text) → Lacks c o → partition_on c (o ++ c ∷ v) ≡ (o, true, v)
unfolding partition_on
partition_on-inline c [] v h = ground arith
partition_on-inline c (d ∷ o) v h = rw (h.0, partition_on, partition_on-inline c o v h.1) refl

pub partition_on-bare : (c : ℕ) (o : Text) → Lacks c o → partition_on c o ≡ (o, false, [])
unfolding partition_on
partition_on-bare c [] h = refl
partition_on-bare c (d ∷ o) h = rw (h.0, partition_on, partition_on-bare c o h.1) refl

-- A text and its parts.
abbrev pub IsParted : ℕ → Text → Text × Bool × Text → Type 0
IsParted c s (o, true, v) = Lacks c o × (o ++ c ∷ v ≡ s)
IsParted c s (o, false, v) = Lacks c o × (o ≡ s)

IsParted-cons :
    (c d : ℕ) (s : Text) (parts : Text × Bool × Text)
    → (d == c) ≡ false
    → IsParted c s parts
    → IsParted c (d ∷ s) (d ∷ parts.0, parts.1, parts.2)
IsParted-cons c d s (o, true, v) ne h = ((ne, h.0), ap (λ t. d ∷ t) h.1)
IsParted-cons c d s (o, false, v) ne h = ((ne, h.0), ap (λ t. d ∷ t) h.1)

partition_on-here : (c d : ℕ) (s : Text) → (d == c) ≡ true → partition_on c (d ∷ s) ≡ ([], true, s)
unfolding partition_on
partition_on-here c d s h = rw (h, partition_on) refl

partition_on-later :
    (c d : ℕ) (s : Text)
    → (d == c) ≡ false
    → partition_on c (d ∷ s)
      ≡ (d ∷ (partition_on c s).0, (partition_on c s).1, (partition_on c s).2)
unfolding partition_on
partition_on-later c d s h = rw (h, partition_on) refl

pub partition_on-IsParted : (c : ℕ) (s : Text) → IsParted c s (partition_on c s)
unfolding partition_on
partition_on-IsParted c [] = (tt, refl)
partition_on-IsParted c (d ∷ s) = elim (Bool-cases (d == c)) [
  | inl same ↦
      subst (IsParted c (d ∷ s)) (sym (partition_on-here c d s same))
        (tt, ground (arith, ==_iff d c))
  | inr ne ↦
      subst (IsParted c (d ∷ s)) (sym (partition_on-later c d s ne))
        (IsParted-cons c d s (partition_on c s) ne (partition_on-IsParted c s))
]
