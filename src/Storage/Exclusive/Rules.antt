-- ===== src/Storage/Exclusive/Rules.antt =====
-- Rules for programs built by `>>=`.
use open_devops_agent.Prelude.{Bool, true, false, inl, inr, Bool-cases, if◌then◌else◌}
use open_devops_agent.Text.{Text, text_eq}
use open_devops_agent.Storage.Program.{
  Program, done, fail, get_then, put_then, create_then, delete_then, consume_then, exists_then,
  list_then, now_then, Outcome, ◌>>=◌,
}
use open_devops_agent.Storage.Exclusive.{Mode, by_creation, by_deletion, Holder, Contender}

module _ {V A : Type 0} where
  -- A contender that has yet to win is no danger to the winner.
  pub Contender-Holder :
      (mode : Mode) (k : Text) (Q : A → Type 0) (p : Program V A)
      → Contender mode k Q p
      → Holder mode k p
  Contender-Holder mode k Q (done a) h = tt
  Contender-Holder mode k Q (fail e) h = tt
  Contender-Holder mode k Q (get_then j f) h = λ o. Contender-Holder mode k Q (f o) (h o)
  Contender-Holder mode k Q (put_then j v f) h = (h.0, Contender-Holder mode k Q f h.1)
  Contender-Holder by_creation k Q (create_then j v f) h = (
    tt,
    elim [
      | Outcome.created ↦ elim (Bool-cases (text_eq j k)) [
        | inl same ↦ h.0 same
        | inr other ↦ Contender-Holder by_creation k Q (f Outcome.created) (h.1 other)
      ]
      | Outcome.present ↦ Contender-Holder by_creation k Q (f Outcome.present) h.2
      | Outcome.raised ↦ Contender-Holder by_creation k Q (f Outcome.raised) h.3
    ],
  )
  Contender-Holder by_deletion k Q (create_then j v f) h =
      (h.0, λ o. Contender-Holder by_deletion k Q (f o) (h.1 o))
  Contender-Holder by_creation k Q (delete_then j f) h =
      (h.0, λ b. Contender-Holder by_creation k Q (f b) (h.1 b))
  Contender-Holder by_deletion k Q (delete_then j f) h = (
    tt,
    elim [
      | true ↦ elim (Bool-cases (text_eq j k)) [
        | inl same ↦ h.0 same
        | inr other ↦ Contender-Holder by_deletion k Q (f true) (h.1 other)
      ]
      | false ↦ Contender-Holder by_deletion k Q (f false) h.2
    ],
  )
  Contender-Holder by_creation k Q (consume_then j test f) h =
      (h.0, λ b. Contender-Holder by_creation k Q (f b) (h.1 b))
  Contender-Holder by_deletion k Q (consume_then j test f) h = (
    tt,
    elim [
      | true ↦ elim (Bool-cases (text_eq j k)) [
        | inl same ↦ h.0 same
        | inr other ↦ Contender-Holder by_deletion k Q (f true) (h.1 other)
      ]
      | false ↦ Contender-Holder by_deletion k Q (f false) h.2
    ],
  )
  Contender-Holder mode k Q (exists_then j f) h = λ b. Contender-Holder mode k Q (f b) (h b)
  Contender-Holder mode k Q (list_then p f) h = λ ks i. Contender-Holder mode k Q (f ks) (h ks i)
  Contender-Holder mode k Q (now_then f) h = λ t. Contender-Holder mode k Q (f t) (h t)

module _ {V A B : Type 0} (mode : Mode) (k : Text) where
  pub Holder-bind :
      (p : Program V A) (g : A → Program V B)
      → Holder mode k p
      → ((a : A) → Holder mode k (g a))
      → Holder mode k (p >>= g)
  Holder-bind (done a) g h hg = hg a
  Holder-bind (fail e) g h hg = tt
  Holder-bind (get_then j f) g h hg = λ o. Holder-bind (f o) g (h o) hg
  Holder-bind (put_then j v f) g h hg = (h.0, Holder-bind f g h.1 hg)
  Holder-bind (create_then j v f) g h hg = (h.0, λ o. Holder-bind (f o) g (h.1 o) hg)
  Holder-bind (delete_then j f) g h hg = (h.0, λ b. Holder-bind (f b) g (h.1 b) hg)
  Holder-bind (consume_then j test f) g h hg = (h.0, λ b. Holder-bind (f b) g (h.1 b) hg)
  Holder-bind (exists_then j f) g h hg = λ b. Holder-bind (f b) g (h b) hg
  Holder-bind (list_then p f) g h hg = λ ks i. Holder-bind (f ks) g (h ks i) hg
  Holder-bind (now_then f) g h hg = λ t. Holder-bind (f t) g (h t) hg

module _ {V A B : Type 0} (k : Text) (P : A → Type 0) (Q : B → Type 0) where
  -- The first part contends for results of the kind `P`; what follows any other result contends
  -- in turn.
  pub Contender-bind :
      (mode : Mode) (p : Program V A) (g : A → Program V B)
      → Contender mode k P p
      → ((a : A) → Holder mode k (g a))
      → ((a : A) → ¬ P a → Contender mode k Q (g a))
      → Contender mode k Q (p >>= g)
  Contender-bind mode (done a) g h hg cg = cg a h
  Contender-bind mode (fail e) g h hg cg = tt
  Contender-bind mode (get_then j f) g h hg cg = λ o. Contender-bind mode (f o) g (h o) hg cg
  Contender-bind mode (put_then j v f) g h hg cg = (h.0, Contender-bind mode f g h.1 hg cg)
  Contender-bind by_creation (create_then j v f) g h hg cg = (
    λ same. Holder-bind by_creation k (f Outcome.created) g (h.0 same) hg,
    λ other. Contender-bind by_creation (f Outcome.created) g (h.1 other) hg cg,
    Contender-bind by_creation (f Outcome.present) g h.2 hg cg,
    Contender-bind by_creation (f Outcome.raised) g h.3 hg cg,
  )
  Contender-bind by_deletion (create_then j v f) g h hg cg =
      (h.0, λ o. Contender-bind by_deletion (f o) g (h.1 o) hg cg)
  Contender-bind by_creation (delete_then j f) g h hg cg =
      (h.0, λ b. Contender-bind by_creation (f b) g (h.1 b) hg cg)
  Contender-bind by_deletion (delete_then j f) g h hg cg = (
    λ same. Holder-bind by_deletion k (f true) g (h.0 same) hg,
    λ other. Contender-bind by_deletion (f true) g (h.1 other) hg cg,
    Contender-bind by_deletion (f false) g h.2 hg cg,
  )
  Contender-bind by_creation (consume_then j test f) g h hg cg =
      (h.0, λ b. Contender-bind by_creation (f b) g (h.1 b) hg cg)
  Contender-bind by_deletion (consume_then j test f) g h hg cg = (
    λ same. Holder-bind by_deletion k (f true) g (h.0 same) hg,
    λ other. Contender-bind by_deletion (f true) g (h.1 other) hg cg,
    Contender-bind by_deletion (f false) g h.2 hg cg,
  )
  Contender-bind mode (exists_then j f) g h hg cg = λ b. Contender-bind mode (f b) g (h b) hg cg
  Contender-bind mode (list_then p f) g h hg cg =
      λ ks i. Contender-bind mode (f ks) g (h ks i) hg cg
  Contender-bind mode (now_then f) g h hg cg = λ t. Contender-bind mode (f t) g (h t) hg cg

-- A branch, on a test that nothing is known of.
module _ {V A : Type 0} (mode : Mode) (k : Text) where
  pub Holder-if :
      (b : Bool) (p q : Program V A)
      → Holder mode k p
      → Holder mode k q
      → Holder mode k (if b then p else q)
  Holder-if true p q hp hq = hp
  Holder-if false p q hp hq = hq

  pub Contender-if :
      (Q : A → Type 0) (b : Bool) (p q : Program V A)
      → Contender mode k Q p
      → Contender mode k Q q
      → Contender mode k Q (if b then p else q)
  Contender-if Q true p q hp hq = hp
  Contender-if Q false p q hp hq = hq
