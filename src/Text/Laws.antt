-- ===== src/Text/Laws.antt =====
-- Laws of the text operations.
use open_devops_agent.Prelude.{◌≡◌, refl, ◌↔◌, true, false, [], ◌∷◌, ◌++◌, arith}
use open_devops_agent.Text.{Text, text_eq, starts_with}

pub text_eq_refl : (s : Text) → text_eq s s ≡ true
unfolding text_eq
text_eq_refl [] = refl
text_eq_refl (c ∷ s) = ground (arith, text_eq_refl s)

pub eq_of_text_eq : (s t : Text) → text_eq s t ≡ true → s ≡ t
unfolding text_eq
eq_of_text_eq [] [] h = refl
eq_of_text_eq [] (b ∷ t) h = cc
eq_of_text_eq (a ∷ s) [] h = cc
eq_of_text_eq (a ∷ s) (b ∷ t) h = ground (arith, eq_of_text_eq s t)

-- Equality of texts is decided by `text_eq`.
pub text_eq_iff : (s t : Text) → (text_eq s t ≡ true) ↔ (s ≡ t)
text_eq_iff s t = (eq_of_text_eq s t, λ e. rw e (text_eq_refl t))

pub text_eq-false : (s t : Text) → ¬ (s ≡ t) → text_eq s t ≡ false
text_eq-false s t h = ground (arith, text_eq_iff s t)

pub starts_with-append : (p s : Text) → starts_with (p ++ s) p ≡ true
unfolding starts_with
starts_with-append [] s = refl
starts_with-append (c ∷ p) s = ground (arith, starts_with-append p s)
