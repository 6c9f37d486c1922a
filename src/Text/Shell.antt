-- ===== src/Text/Shell.antt =====
-- shlex.split(text), as its reader steps from state to state.
use open_devops_agent.Prelude.{
  ℕ, Bool, true, false, ◌&&◌, ◌||◌, not, Option, none, some, List, [], ◌∷◌, ◌==◌, if◌then◌else◌,
  reverse,
}
use open_devops_agent.Text.{Text, is_empty}

-- ' ', 'a', a quote, and an escape with the state that it came from.
pub data Mode : Type 0 where
  between : Mode
  inside : Mode
  quote : ℕ → Mode
  escape : ℕ → Mode
  escape_bare : Mode

-- The words read so far and the one being read, the last first; whether that word had quotes.
pub record Reader : Type 0 where
  pub mode : Mode
  pub done : List Text
  pub token : Text
  pub quoted : Bool

abbrev is_blank : ℕ → Bool
is_blank c = c == 32 || c == 9 || c == 13 || c == 10

abbrev is_quote : ℕ → Bool
is_quote c = c == b'\'' || c == b'"'

-- A word ends. One that is empty counts if it was quoted.
abbrev emit : Reader → Reader
emit r = record r {
  mode = between;
  done = if is_empty r.token && not r.quoted then r.done else reverse r.token ∷ r.done;
  token = [];
  quoted = false;
}

abbrev open_word : ℕ → Reader → Reader
open_word c r =
    if c == b'\\'
    then record r { mode = escape_bare }
    else if is_quote c
    then record r { mode = quote c; quoted = true }
    else record r { mode = inside; token = c ∷ r.token }

unfoldable pub step_mode : Mode → ℕ → Reader → Reader
step_mode between c r = if is_blank c then r else open_word c r
step_mode inside c r = if is_blank c then emit r else open_word c r
step_mode (quote q) c r =
    if c == q
    then record r { mode = inside }
    else if c == b'\\' && q == b'"'
    then record r { mode = escape q }
    else record r { token = c ∷ r.token }
step_mode escape_bare c r = record r { mode = inside; token = c ∷ r.token }
step_mode (escape q) c r =
    if c == b'\\' || c == q
    then record r { mode = quote q; token = c ∷ r.token }
    else record r { mode = quote q; token = c ∷ b'\\' ∷ r.token }

-- No closing quote, or no character after a backslash, is `ValueError`.
abbrev finish : Mode → Reader → Option (List Text)
finish between r = some (reverse r.done)
finish inside r = some (reverse (emit r).done)
finish (quote _) r = none
finish (escape _) r = none
finish escape_bare r = none

unfoldable pub read_words : Reader → Text → Option (List Text)
unfolding step_mode
read_words r [] = finish r.mode r
read_words r (c ∷ s) = read_words (step_mode r.mode c r) s

unfoldable pub shell_split : Text → Option (List Text)
unfolding read_words
shell_split s = read_words (record { mode = between; done = []; token = []; quoted = false }) s
