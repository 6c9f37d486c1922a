-- ===== src/Storage/Exclusive/Winners.antt =====
-- The winners among interleaved programs that contend for a prize.
use open_devops_agent.Prelude.{ℕ, zero, suc, ◌≡◌, ◌⊎◌, inl, inr, true, false, List, [], ◌∷◌, All}
use open_devops_agent.Text.{Text}
use open_devops_agent.Storage.Memory.{Objects}
use open_devops_agent.Storage.Program.{
  Program, done, fail, get_then, put_then, create_then, delete_then, consume_then, exists_then,
  list_then, now_then,
}
use open_devops_agent.Storage.Trace.{Step, first, later, Reach, here, next}
use open_devops_agent.Storage.Exclusive.{Mode, Holder, Contender, spent, Won, AtMostOne}
use open_devops_agent.Storage.Exclusive.Calls.{Holder-Call, Contender-Call}

module _ {V A : Type 0} where
  -- Of the programs, all contend, or one has won and the others contend.
  abbrev OneHolder : Mode → Text → (A → Type 0) → List (Program V A) → Type 0
  OneHolder mode k Q [] = ⊥
  OneHolder mode k Q (p ∷ ps) =
      (Holder mode k p × All (Contender mode k Q) ps)
      ⊎ (Contender mode k Q p × OneHolder mode k Q ps)

  abbrev Contest : Mode → Text → (A → Type 0) → List (Program V A) → Objects V → Type 0
  Contest mode k Q ps m =
      All (Contender mode k Q) ps ⊎ (OneHolder mode k Q ps × (spent mode k m ≡ true))

  -- What a step does to programs of which none has won.
  Step-All :
      (mode : Mode) (k : Text) (Q : A → Type 0) {ps : List (Program V A)} {m m' : Objects V}
      {ps' : List (Program V A)}
      → Step ps m ps' m'
      → All (Contender mode k Q) ps
      → (All (Contender mode k Q) ps' × (spent mode k m ≡ true → spent mode k m' ≡ true))
        ⊎ (OneHolder mode k Q ps' × (spent mode k m ≡ false) × (spent mode k m' ≡ true))
  Step-All mode k Q (first c) h = elim (Contender-Call mode k Q c h.0) [
    | inl (still, keeps) ↦ inl ((still, h.1), keeps)
    | inr (won, before, after) ↦ inr (inl (won, h.1), before, after)
  ]
  Step-All mode k Q (later s) h = elim (Step-All mode k Q s h.1) [
    | inl (still, keeps) ↦ inl ((h.0, still), keeps)
    | inr (won, before, after) ↦ inr (inr (h.0, won), before, after)
  ]

  Step-OneHolder :
      (mode : Mode) (k : Text) (Q : A → Type 0) {ps : List (Program V A)} {m m' : Objects V}
      {ps' : List (Program V A)}
      → Step ps m ps' m'
      → OneHolder mode k Q ps
      → spent mode k m ≡ true
      → OneHolder mode k Q ps' × (spent mode k m' ≡ true)
  Step-OneHolder mode k Q (first c) (inl (holds, rest)) s =
      let (holds', s') = Holder-Call mode k c holds s in (inl (holds', rest), s')
  Step-OneHolder mode k Q (first c) (inr (contends, one)) s =
      elim (Contender-Call mode k Q c contends) [
        | inl (still, keeps) ↦ (inr (still, one), keeps s)
        | inr (won, before, after) ↦ cc
      ]
  Step-OneHolder mode k Q (later st) (inl (holds, rest)) s = elim (Step-All mode k Q st rest) [
    | inl (still, keeps) ↦ (inl (holds, still), keeps s)
    | inr (won, before, after) ↦ cc
  ]
  Step-OneHolder mode k Q (later st) (inr (contends, one)) s =
      let (one', s') = Step-OneHolder mode k Q st one s in (inr (contends, one'), s')

  Reach-Contest :
      (mode : Mode) (k : Text) (Q : A → Type 0) {ps : List (Program V A)} {m : Objects V}
      {qs : List (Program V A)} {m' : Objects V}
      → Reach ps m qs m'
      → All (Contender mode k Q) ps
      → Contest mode k Q qs m'
  Reach-Contest mode k Q here h = inl h
  Reach-Contest mode k Q (next r st) h = elim (Reach-Contest mode k Q r h) [
    | inl still ↦ elim (Step-All mode k Q st still) [
      | inl (still', keeps) ↦ inl still'
      | inr (won, before, after) ↦ inr (won, after)
    ]
    | inr (one, s) ↦ inr (Step-OneHolder mode k Q st one s)
  ]

  not-Won :
      (mode : Mode) (k : Text) (Q : A → Type 0) (p : Program V A) → Contender mode k Q p → ¬ Won Q p
  not-Won mode k Q (done a) h w = h w
  not-Won mode k Q (fail e) h w = w
  not-Won mode k Q (get_then j f) h w = w
  not-Won mode k Q (put_then j v f) h w = w
  not-Won mode k Q (create_then j v f) h w = w
  not-Won mode k Q (delete_then j f) h w = w
  not-Won mode k Q (consume_then j test f) h w = w
  not-Won mode k Q (exists_then j f) h w = w
  not-Won mode k Q (list_then p f) h w = w
  not-Won mode k Q (now_then f) h w = w

  All-not-Won :
      (mode : Mode) (k : Text) (Q : A → Type 0) (ps : List (Program V A))
      → All (Contender mode k Q) ps
      → All (λ q. ¬ Won Q q) ps
  All-not-Won mode k Q [] h = tt
  All-not-Won mode k Q (p ∷ ps) h = (not-Won mode k Q p h.0, All-not-Won mode k Q ps h.1)

  All-AtMostOne :
      (mode : Mode) (k : Text) (Q : A → Type 0) (ps : List (Program V A))
      → All (Contender mode k Q) ps
      → AtMostOne Q ps
  All-AtMostOne mode k Q [] h = tt
  All-AtMostOne mode k Q (p ∷ ps) h =
      (λ w. All-not-Won mode k Q ps h.1, All-AtMostOne mode k Q ps h.1)

  OneHolder-AtMostOne :
      (mode : Mode) (k : Text) (Q : A → Type 0) (ps : List (Program V A))
      → OneHolder mode k Q ps
      → AtMostOne Q ps
  OneHolder-AtMostOne mode k Q [] h = absurd h
  OneHolder-AtMostOne mode k Q (p ∷ ps) (inl (holds, rest)) =
      (λ w. All-not-Won mode k Q ps rest, All-AtMostOne mode k Q ps rest)
  OneHolder-AtMostOne mode k Q (p ∷ ps) (inr (contends, one)) =
      (λ w. absurd (not-Won mode k Q p contends w), OneHolder-AtMostOne mode k Q ps one)

  -- However the calls of contending programs are interleaved, and from whatever store, at most one
  -- of the programs returns what `Q` says.
  pub Reach-AtMostOne :
      (mode : Mode) (k : Text) (Q : A → Type 0) (ps : List (Program V A)) (m : Objects V)
      (qs : List (Program V A)) (m' : Objects V)
      → Reach ps m qs m'
      → All (Contender mode k Q) ps
      → AtMostOne Q qs
  Reach-AtMostOne mode k Q ps m qs m' r h = elim (Reach-Contest mode k Q r h) [
    | inl still ↦ All-AtMostOne mode k Q qs still
    | inr (one, s) ↦ OneHolder-AtMostOne mode k Q qs one
  ]

-- `n` programs alike.
abbrev pub copies : {A : Type 0} → ℕ → A → List A
copies zero a = []
copies (suc n) a = a ∷ copies n a

pub All-copies : {A : Type 0} (P : A → Type 0) (n : ℕ) (a : A) → P a → All P (copies n a)
All-copies P zero a h = tt
All-copies P (suc n) a h = (h, All-copies P n a h)
