-- ===== src/Storage/Exclusive/Calls.antt =====
-- What one call does to a program that contends for a prize, or has won it.
use open_devops_agent.Prelude.{◌≡◌, refl, ◌⊎◌, inl, inr, Bool, true, false, arith, if◌then◌else◌}
use open_devops_agent.Text.{Text, text_eq}
use open_devops_agent.Text.Laws.{text_eq_iff}
use open_devops_agent.Storage.Memory
use open_devops_agent.Storage.Memory.{Objects}
use open_devops_agent.Storage.Memory.Laws.{
  get-put, get-remove, get-put_if_absent, get-delete, All-list_keys,
}
use open_devops_agent.Storage.Program.{Program, create_then, delete_then, Outcome, outcome}
use open_devops_agent.Storage.Trace.{
  Call, gets, puts, creates, raises_before, raises_after, deletes, consumes, tests, lists,
  reads_clock,
}
use open_devops_agent.Storage.Exclusive.{Mode, by_creation, by_deletion, Holder, Contender, spent}

module _ {V : Type 0} where
  delete_answer :
      (j : Text) (m : Objects V)
      → (Memory.delete j m).1 ≡ (if (Memory.delete j m).0 then Memory.remove j m else m)
  unfolding Memory.delete
  delete_answer j m = ground arith

  delete_there :
      (j : Text) (m : Objects V) → (Memory.delete j m).0 ≡ true → Memory.exists j m ≡ true
  unfolding Memory.delete
  delete_there j m h = ground arith

  consume_answer :
      (j : Text) (test : V → Bool) (m : Objects V)
      → (Memory.consume j test m).1 ≡ (if (Memory.consume j test m).0 then Memory.remove j m else m)
  unfolding Memory.consume
  consume_answer j test m = ground arith

  consume_there :
      (j : Text) (test : V → Bool) (m : Objects V)
      → (Memory.consume j test m).0 ≡ true
      → Memory.exists j m ≡ true
  unfolding Memory.consume Memory.exists
  consume_there j test m h = ground arith

module _ {V A : Type 0} where
  pub Holder-Call :
      (mode : Mode) (k : Text) {p : Program V A} {m m' : Objects V} {p' : Program V A}
      → Call p m p' m'
      → Holder mode k p
      → spent mode k m ≡ true
      → Holder mode k p' × (spent mode k m' ≡ true)
  unfolding Memory.exists Memory.delete Memory.consume
  Holder-Call mode k (gets j f m) h s = (h (Memory.get j m), s)
  Holder-Call by_creation k (puts j v f m) h s = (h.1, ground (arith, get-put j k v m))
  Holder-Call by_deletion k (puts j v f m) h s = (h.1, ground (arith, get-put j k v m))
  Holder-Call by_creation k (creates j v f m) h s =
      (h.1 _, ground (arith, get-put_if_absent j k v m))
  Holder-Call by_deletion k (creates j v f m) h s =
      (h.1 _, ground (arith, get-put_if_absent j k v m))
  Holder-Call mode k (raises_before j v f m) h s = (h.1 Outcome.raised, s)
  Holder-Call by_creation k (raises_after j v f m) h s =
      (h.1 Outcome.raised, ground (arith, get-put_if_absent j k v m))
  Holder-Call by_deletion k (raises_after j v f m) h s =
      (h.1 Outcome.raised, ground (arith, get-put_if_absent j k v m))
  Holder-Call by_creation k (deletes j f m) h s = (h.1 _, ground (arith, get-delete j k m))
  Holder-Call by_deletion k (deletes j f m) h s = (h.1 _, ground (arith, get-delete j k m))
  Holder-Call by_creation k (consumes j test f m) h s = (h.1 _, ground (arith, get-remove j k m))
  Holder-Call by_deletion k (consumes j test f m) h s = (h.1 _, ground (arith, get-remove j k m))
  Holder-Call mode k (tests j f m) h s = (h (Memory.exists j m), s)
  Holder-Call mode k (lists p f m) h s = (h (Memory.list_keys p m) (All-list_keys p m), s)
  Holder-Call mode k (reads_clock t f m) h s = (h t, s)

  -- After a call a contender still contends, or has won, which nobody had before.
  abbrev pub AfterCall : Mode → Text → (A → Type 0) → Objects V → Program V A → Objects V → Type 0
  AfterCall mode k Q m p' m' =
      (Contender mode k Q p' × (spent mode k m ≡ true → spent mode k m' ≡ true))
      ⊎ (Holder mode k p' × (spent mode k m ≡ false) × (spent mode k m' ≡ true))

  contend_create :
      (k : Text) (Q : A → Type 0) (j : Text) (v : V) (f : Outcome → Program V A) (m : Objects V)
      → Contender by_creation k Q (create_then j v f)
      → AfterCall by_creation k Q m
          (f (outcome (Memory.put_if_absent j v m).0))
          (Memory.put_if_absent j v m).1
  unfolding Memory.exists Memory.put_if_absent
  contend_create k Q j v f m h = by_place (text_eq j k) refl (Memory.exists j m) refl
    where
      by_place :
          (same : Bool)
          → text_eq j k ≡ same
          → (there : Bool) → Memory.exists j m ≡ there
          → AfterCall by_creation k Q m
              (f (outcome (Memory.put_if_absent j v m).0))
              (Memory.put_if_absent j v m).1
      by_place same e true t = inl (rw t (h.2), ground (arith, get-put j k v m))
      by_place true e false t =
          rw t (inr (h.0 e, ground (arith, text_eq_iff j k), ground (arith, get-put j k v m)))
      by_place false e false t = rw t (inl (h.1 e, ground (arith, get-put j k v m)))

  -- The two calls that delete: `b` is their answer and `m'` what they leave.
  contend_delete :
      (k : Text) (Q : A → Type 0) (j : Text) (f : Bool → Program V A) (m : Objects V)
      → Contender by_deletion k Q (delete_then j f)
      → (b : Bool) → (b ≡ true → (Memory.exists j m ≡ true))
      → AfterCall by_deletion k Q m (f b) (if b then Memory.remove j m else m)
  unfolding Memory.exists
  contend_delete k Q j f m h false there = inl (h.2, λ s. s)
  contend_delete k Q j f m h true there = by_place (text_eq j k) refl
    where
      by_place :
          (same : Bool)
          → text_eq j k ≡ same
          → AfterCall by_deletion k Q m (f true) (Memory.remove j m)
      by_place true e =
          inr (h.0 e, ground (arith, there refl, text_eq_iff j k), ground (arith, get-remove j k m))
      by_place false e = inl (h.1 e, ground (arith, get-remove j k m))

  pub Contender-Call :
      (mode : Mode) (k : Text) (Q : A → Type 0) {p : Program V A} {m m' : Objects V}
      {p' : Program V A}
      → Call p m p' m'
      → Contender mode k Q p
      → AfterCall mode k Q m p' m'
  unfolding Memory.exists Memory.delete Memory.consume
  Contender-Call mode k Q (gets j f m) h = inl (h (Memory.get j m), λ s. s)
  Contender-Call by_creation k Q (puts j v f m) h = inl (h.1, ground (arith, get-put j k v m))
  Contender-Call by_deletion k Q (puts j v f m) h = inl (h.1, ground (arith, get-put j k v m))
  Contender-Call by_creation k Q (creates j v f m) h = contend_create k Q j v f m h
  Contender-Call by_deletion k Q (creates j v f m) h =
      inl (h.1 _, ground (arith, get-put_if_absent j k v m))
  Contender-Call by_creation k Q (raises_before j v f m) h = inl (h.3, λ s. s)
  Contender-Call by_deletion k Q (raises_before j v f m) h = inl (h.1 Outcome.raised, λ s. s)
  Contender-Call by_creation k Q (raises_after j v f m) h =
      inl (h.3, ground (arith, get-put_if_absent j k v m))
  Contender-Call by_deletion k Q (raises_after j v f m) h =
      inl (h.1 Outcome.raised, ground (arith, get-put_if_absent j k v m))
  Contender-Call by_creation k Q (deletes j f m) h = inl (h.1 _, ground (arith, get-delete j k m))
  Contender-Call by_deletion k Q (deletes j f m) h =
      rw (delete_answer j m) (contend_delete k Q j f m h (Memory.delete j m).0 (delete_there j m))
  Contender-Call by_creation k Q (consumes j test f m) h =
      inl (h.1 _, ground (arith, get-remove j k m))
  Contender-Call by_deletion k Q (consumes j test f m) h =
      rw (consume_answer j test m)
        (contend_delete k Q j f m h (Memory.consume j test m).0 (consume_there j test m))
  Contender-Call mode k Q (tests j f m) h = inl (h (Memory.exists j m), λ s. s)
  Contender-Call mode k Q (lists p f m) h =
      inl (h (Memory.list_keys p m) (All-list_keys p m), λ s. s)
  Contender-Call mode k Q (reads_clock t f m) h = inl (h t, λ s. s)
