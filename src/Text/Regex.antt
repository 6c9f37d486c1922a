-- ===== src/Text/Regex.antt =====
-- The part of `re` that the program's patterns use: classes, sequences, alternatives, stars and
-- word boundaries. Letters beyond ASCII are no word characters here, and `(?i)` folds what Python
-- folds on to ASCII letters.
use open_devops_agent.Prelude.{
  ℕ, zero, suc, Bool, true, false, ◌&&◌, ◌||◌, not, Option, none, some, List, [], ◌∷◌, ◌++◌, leb,
  ◌==◌, if◌then◌else◌, length, any,
}
use open_devops_agent.Text.{Text, is_space, lower_code}

pub data Regex : Type 0 where
  nothing : Regex
  single : (ℕ → Bool) → Regex
  seq : Regex → Regex → Regex
  alt : Regex → Regex → Regex
  star : Regex → Regex
  boundary : Regex
  start : Regex
  end : Regex

-- A place in the text: the character before it, and the text after it.
abbrev pub Place : Type 0
Place = Option ℕ × Text

abbrev pub is_word_code : ℕ → Bool
is_word_code c =
    leb b'0' c && leb c b'9' || leb b'a' c && leb c b'z' || leb b'A' c && leb c b'Z' || c == b'_'

abbrev word_before : Option ℕ → Bool
word_before none = false
word_before (some c) = is_word_code c

abbrev word_after : Text → Bool
word_after [] = false
word_after (c ∷ s) = is_word_code c

abbrev differ : Bool → Bool → Bool
differ true b = not b
differ false b = b

abbrev when : Bool → Place → List Place
when true p = p ∷ []
when false p = []

abbrev single_ends : (ℕ → Bool) → Text → List Place
single_ends p [] = []
single_ends p (c ∷ s) = when (p c) (some c, s)

abbrev at_start : Place → Bool
at_start (none, _) = true
at_start (some _, _) = false

abbrev at_end : Place → Bool
at_end (_, []) = true
at_end (_, _ ∷ _) = false

unfoldable pub from_each : (Place → List Place) → List Place → List Place
from_each f [] = []
from_each f (p ∷ ps) = f p ++ from_each f ps

-- A star of at most so many rounds.
unfoldable pub rounds : (Place → List Place) → ℕ → Place → List Place
unfolding from_each
rounds f zero p = p ∷ []
rounds f (suc n) p = p ∷ from_each (rounds f n) (f p)

-- Where a match that begins at the place can end. A star goes round once per character left.
unfoldable pub ends : Regex → Place → List Place
unfolding from_each rounds
ends nothing p = p ∷ []
ends (single test) p = single_ends test p.1
ends (seq r q) p = from_each (ends q) (ends r p)
ends (alt r q) p = ends r p ++ ends q p
ends (star r) p = rounds (ends r) (length p.1) p
ends boundary p = when (differ (word_before p.0) (word_after p.1)) p
ends start p = when (at_start p) p
ends end p = when (at_end p) p

abbrev any_place : List Place → Bool
any_place [] = false
any_place (_ ∷ _) = true

search_from : Regex → Option ℕ → Text → Bool
unfolding ends
search_from r before [] = any_place (ends r (before, []))
search_from r before (c ∷ s) = any_place (ends r (before, c ∷ s)) || search_from r (some c) s

-- re.search(r, text) is not None
unfoldable pub search_text : Regex → Text → Bool
unfolding search_from
search_text r s = search_from r none s

-- re.match(r, text) is not None
unfoldable pub match_text : Regex → Text → Bool
unfolding ends
match_text r s = any_place (ends r (none, s))

-- re.fullmatch(r, text) is not None
unfoldable pub fullmatch_text : Regex → Text → Bool
unfolding ends any
fullmatch_text r s = any at_end (ends r (none, s))

-- What `(?i)` maps a character to.
unfoldable pub fold_code : ℕ → ℕ
fold_code c =
    if c == 304 || c == 305
    then b'i'
    else if c == 383
    then b's'
    else if c == 8490
    then b'k'
    else lower_code c

-- A literal.
abbrev pub literal : Text → Regex
literal [] = nothing
literal (c ∷ []) = single (λ d. d == c)
literal (c ∷ d ∷ s) = seq (single (λ e. e == c)) (literal (d ∷ s))

-- A literal in small letters, under `(?i)`.
abbrev pub literal_ci : Text → Regex
literal_ci [] = nothing
literal_ci (c ∷ []) = single (λ d. fold_code d == c)
literal_ci (c ∷ d ∷ s) = seq (single (λ e. fold_code e == c)) (literal_ci (d ∷ s))

-- r+, r?
abbrev pub plus : Regex → Regex
plus r = seq r (star r)

abbrev pub optional : Regex → Regex
optional r = alt r nothing

-- r{n}
abbrev pub times : ℕ → Regex → Regex
times zero r = nothing
times (suc n) r = seq r (times n r)

-- \s, \d, [^\n]
abbrev pub space : Regex
space = single is_space

abbrev pub digit : Regex
digit = single (λ c. leb b'0' c && leb c b'9')

abbrev pub no_newline : Regex
no_newline = single (λ c. not (c == 10))

-- The alternatives of a list, and the parts of a sequence.
abbrev pub either : List Regex → Regex
either [] = single (λ _. false)
either (r ∷ []) = r
either (r ∷ q ∷ rs) = alt r (either (q ∷ rs))

abbrev pub in_order : List Regex → Regex
in_order [] = nothing
in_order (r ∷ []) = r
in_order (r ∷ q ∷ rs) = seq r (in_order (q ∷ rs))
