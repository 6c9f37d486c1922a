-- ===== src/Storage/Exclusive/Caught.antt =====
-- Contention when RuntimeErrors are caught.
use open_devops_agent.Prelude.{Bool, true, false, Option, none}
use open_devops_agent.Text.{Text}
use open_devops_agent.Storage.Program.{
  Program, Error, done, fail, get_then, put_then, create_then, delete_then, consume_then,
  exists_then, list_then, now_then, is_runtime_error, or_fail_again, or_none,
}
use open_devops_agent.Storage.Exclusive.{Mode, by_creation, by_deletion, Holder, Contender}

Holder-or_fail_again :
    (V A : Type 0) (mode : Mode) (k : Text) (b : Bool) (e : Error)
    → Holder {V = V} {A = Option A} mode k (or_fail_again b e)
Holder-or_fail_again V A mode k true e = tt
Holder-or_fail_again V A mode k false e = tt

module _ {V A : Type 0} where
  Holder-or_none :
      (mode : Mode) (k : Text) (p : Program V (Option A))
      → Holder mode k p
      → Holder mode k (or_none p)
  Holder-or_none mode k (done a) h = tt
  Holder-or_none mode k (fail e) h = Holder-or_fail_again V A mode k (is_runtime_error e) e
  Holder-or_none mode k (get_then j f) h = λ o. Holder-or_none mode k (f o) (h o)
  Holder-or_none mode k (put_then j v f) h = (h.0, Holder-or_none mode k f h.1)
  Holder-or_none mode k (create_then j v f) h = (h.0, λ o. Holder-or_none mode k (f o) (h.1 o))
  Holder-or_none mode k (delete_then j f) h = (h.0, λ b. Holder-or_none mode k (f b) (h.1 b))
  Holder-or_none mode k (consume_then j test f) h = (h.0, λ b. Holder-or_none mode k (f b) (h.1 b))
  Holder-or_none mode k (exists_then j f) h = λ b. Holder-or_none mode k (f b) (h b)
  Holder-or_none mode k (list_then p f) h = λ ks i. Holder-or_none mode k (f ks) (h ks i)
  Holder-or_none mode k (now_then f) h = λ t. Holder-or_none mode k (f t) (h t)

Contender-or_fail_again :
    (V : Type 0) {A : Type 0} (mode : Mode) (k : Text) (Q : Option A → Type 0) (b : Bool)
    (e : Error)
    → ¬ Q none
    → Contender {V = V} mode k Q (or_fail_again b e)
Contender-or_fail_again V mode k Q true e nothing = nothing
Contender-or_fail_again V mode k Q false e nothing = tt

module _ {V A : Type 0} (k : Text) (Q : Option A → Type 0) (nothing : ¬ Q none) where
  -- `none` is no win, so it may stand for a failure.
  pub Contender-or_none :
      (mode : Mode) (p : Program V (Option A))
      → Contender mode k Q p
      → Contender mode k Q (or_none p)
  Contender-or_none mode (done a) h = h
  Contender-or_none mode (fail e) h =
      Contender-or_fail_again V mode k Q (is_runtime_error e) e nothing
  Contender-or_none mode (get_then j f) h = λ o. Contender-or_none mode (f o) (h o)
  Contender-or_none mode (put_then j v f) h = (h.0, Contender-or_none mode f h.1)
  Contender-or_none by_creation (create_then j v f) h = (
    λ same. Holder-or_none by_creation k (f _) (h.0 same),
    λ other. Contender-or_none by_creation (f _) (h.1 other),
    Contender-or_none by_creation (f _) h.2,
    Contender-or_none by_creation (f _) h.3,
  )
  Contender-or_none by_deletion (create_then j v f) h =
      (h.0, λ o. Contender-or_none by_deletion (f o) (h.1 o))
  Contender-or_none by_creation (delete_then j f) h =
      (h.0, λ b. Contender-or_none by_creation (f b) (h.1 b))
  Contender-or_none by_deletion (delete_then j f) h = (
    λ same. Holder-or_none by_deletion k (f true) (h.0 same),
    λ other. Contender-or_none by_deletion (f true) (h.1 other),
    Contender-or_none by_deletion (f false) h.2,
  )
  Contender-or_none by_creation (consume_then j test f) h =
      (h.0, λ b. Contender-or_none by_creation (f b) (h.1 b))
  Contender-or_none by_deletion (consume_then j test f) h = (
    λ same. Holder-or_none by_deletion k (f true) (h.0 same),
    λ other. Contender-or_none by_deletion (f true) (h.1 other),
    Contender-or_none by_deletion (f false) h.2,
  )
  Contender-or_none mode (exists_then j f) h = λ b. Contender-or_none mode (f b) (h b)
  Contender-or_none mode (list_then p f) h = λ ks i. Contender-or_none mode (f ks) (h ks i)
  Contender-or_none mode (now_then f) h = λ t. Contender-or_none mode (f t) (h t)
