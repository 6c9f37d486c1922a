-- ===== src/Middleware/Options/Reads.antt =====
-- The rounds of the loop of `_parse_options`, one lemma for each thing that a token can be.
use open_devops_agent.Prelude.{◌≡◌, refl, true, false, none, some, List, [], ◌∷◌, ◌++◌, arith}
use open_devops_agent.Middleware.Options.Items.{
  IsFresh, Accepts, partition_on-inline, partition_on-bare,
}
use open_devops_agent.Text.{Text, codes, text_mem, starts_with}
use open_devops_agent.Storage.Memory
use open_devops_agent.Storage.Memory.{Objects}
use open_devops_agent.Middleware.Options.{
  Check, positional, accepted, separate, refused, read_token, parse_from,
}

starts_with-append_dash :
    (o v : Text) → starts_with o (codes "-") ≡ true → starts_with (o ++ b'=' ∷ v) (codes "-") ≡ true
unfolding starts_with
starts_with-append_dash [] v h = absurd (cc)
starts_with-append_dash (c ∷ o) v h = h

module _ (switches : List Text) (value_options : Objects Check) where
  pub read_token-switch :
      (seen : List Text) (o : Text)
      → IsFresh seen o
      → text_mem o switches ≡ true
      → read_token switches value_options seen o ≡ accepted o
  unfolding read_token
  read_token-switch seen o (dash, bare, fresh) known =
      rw (dash, partition_on-bare b'=' o bare, known, fresh) refl

  pub read_token-inline :
      (seen : List Text) (o v : Text)
      → IsFresh seen o
      → Accepts value_options o v
      → read_token switches value_options seen (o ++ b'=' ∷ v) ≡ accepted o
  unfolding read_token
  read_token-inline seen o v (dash, bare, fresh) (check, known, passes) =
      rw (starts_with-append_dash o v dash, partition_on-inline b'=' o v bare, known, fresh)
        (ground arith)

  pub read_token-spaced :
      (seen : List Text) (o v : Text)
      → IsFresh seen o
      → text_mem o switches ≡ false
      → (check : Check) → Memory.get o value_options ≡ some check
      → read_token switches value_options seen o ≡ separate o check
  unfolding read_token
  read_token-spaced seen o v (dash, bare, fresh) apart check known =
      rw (dash, partition_on-bare b'=' o bare, apart, known, fresh) refl

  pub read_token-positional :
      (seen : List Text) (token : Text)
      → starts_with token (codes "-") ≡ false
      → read_token switches value_options seen token ≡ positional
  unfolding read_token
  read_token-positional seen token dash = rw dash refl

  pub parse_from-nil :
      (seen positionals : List Text)
      → parse_from switches value_options seen positionals [] ≡ some positionals
  unfolding parse_from
  parse_from-nil seen positionals = refl

  pub parse_from-positional :
      (seen positionals : List Text) (token : Text) (arguments : List Text)
      → read_token switches value_options seen token ≡ positional
      → parse_from switches value_options seen positionals (token ∷ arguments)
        ≡ parse_from switches value_options seen (positionals ++ token ∷ []) arguments
  unfolding parse_from
  parse_from-positional seen positionals token arguments e = rw (e, parse_from) refl

  pub parse_from-accepted :
      (seen positionals : List Text) (token o : Text) (arguments : List Text)
      → read_token switches value_options seen token ≡ accepted o
      → parse_from switches value_options seen positionals (token ∷ arguments)
        ≡ parse_from switches value_options (o ∷ seen) positionals arguments
  unfolding parse_from
  parse_from-accepted seen positionals token o arguments e = rw (e, parse_from) refl

  pub parse_from-separate :
      (seen positionals : List Text) (token o v : Text) (arguments : List Text) (check : Check)
      → read_token switches value_options seen token ≡ separate o check
      → check v ≡ true
      → parse_from switches value_options seen positionals (token ∷ v ∷ arguments)
        ≡ parse_from switches value_options (o ∷ seen) positionals arguments
  unfolding parse_from
  parse_from-separate seen positionals token o v arguments check e passes =
      rw (e, parse_from, passes) refl

  pub parse_from-separate_refused :
      (seen positionals : List Text) (token o v : Text) (arguments : List Text) (check : Check)
      → read_token switches value_options seen token ≡ separate o check
      → check v ≡ false
      → parse_from switches value_options seen positionals (token ∷ v ∷ arguments) ≡ none
  unfolding parse_from
  parse_from-separate_refused seen positionals token o v arguments check e fails =
      rw (e, parse_from, fails) refl

  pub parse_from-separate_missing :
      (seen positionals : List Text) (token o : Text) (check : Check)
      → read_token switches value_options seen token ≡ separate o check
      → parse_from switches value_options seen positionals (token ∷ []) ≡ none
  unfolding parse_from
  parse_from-separate_missing seen positionals token o check e = rw (e, parse_from) refl

  pub parse_from-refused :
      (seen positionals : List Text) (token : Text) (arguments : List Text)
      → read_token switches value_options seen token ≡ refused
      → parse_from switches value_options seen positionals (token ∷ arguments) ≡ none
  unfolding parse_from
  parse_from-refused seen positionals token arguments e = rw (e, parse_from) refl
