-- ===== src/Text.antt =====
-- Python's `str`, as the list of its code points, with the methods of `str` that the program
-- calls. `lower` maps the ASCII letters and leaves the other code points alone.
pub mod Laws
pub mod Decimal
pub mod Hex
pub mod Regex
pub mod Shell
use open_devops_agent.Prelude.{
  ℕ, zero, suc, ◌+◌, ◌-◌, String, ◌≡◌, refl, Bool, true, false, ◌&&◌, ◌||◌, Option, none, some,
  List, [], ◌∷◌, ◌++◌, map, reverse, arith, ltb, leb, ◌==◌, if◌then◌else◌, any,
}
use Prim.Native.Char.{code}

abbrev pub Text : Type 0
Text = List ℕ

-- A literal.
abbrev pub codes : String → Text
codes String.[] = []
codes (String.◌∷◌ c s) = code c ∷ codes s

-- s == t
unfoldable pub text_eq : Text → Text → Bool
text_eq [] [] = true
text_eq (a ∷ s) (b ∷ t) = a == b && text_eq s t
text_eq _ _ = false

-- s in (t, ...)
unfoldable pub text_mem : Text → List Text → Bool
unfolding text_eq any
text_mem s ts = any (text_eq s) ts

-- s.startswith(p)
unfoldable pub starts_with : Text → Text → Bool
starts_with s [] = true
starts_with [] (b ∷ p) = false
starts_with (a ∷ s) (b ∷ p) = a == b && starts_with s p

-- s.endswith(p)
unfoldable pub ends_with : Text → Text → Bool
unfolding starts_with
ends_with s p = starts_with (reverse s) (reverse p)

-- p in s
unfoldable pub contains : Text → Text → Bool
unfolding starts_with
contains [] p = starts_with [] p
contains (a ∷ s) p = starts_with (a ∷ s) p || contains s p

abbrev pub lower_code : ℕ → ℕ
lower_code c = if leb 65 c && leb c 90 then c + 32 else c

-- s.lower()
unfoldable pub lower : Text → Text
lower s = map lower_code s

-- The white space of Unicode, as `str.strip` reads it.
unfoldable pub is_space : ℕ → Bool
is_space c =
    leb 9 c && leb c 13
    || leb 28 c && leb c 32
    || c == 133
    || c == 160
    || c == 5760
    || leb 8192 c && leb c 8202
    || c == 8232
    || c == 8233
    || c == 8239
    || c == 8287
    || c == 12288

-- Drops the code points at the front that satisfy the test.
unfoldable pub drop_while : (ℕ → Bool) → Text → Text
drop_while p [] = []
drop_while p (c ∷ s) = let rest = drop_while p s in elim (p c) [ true ↦ rest | false ↦ c ∷ s ]

-- s.strip()
unfoldable pub strip : Text → Text
unfolding drop_while is_space
strip s = reverse (drop_while is_space (reverse (drop_while is_space s)))

-- s.rstrip(c), for one character
unfoldable pub rstrip_code : ℕ → Text → Text
unfolding drop_while
rstrip_code c s = reverse (drop_while (λ d. d == c) (reverse s))

-- One more character in front of the parts that the rest splits into.
abbrev pub split_step : Bool → ℕ → List Text → List Text
split_step true d parts = [] ∷ parts
split_step false d [] = (d ∷ []) ∷ []
split_step false d (p ∷ parts) = (d ∷ p) ∷ parts

-- s.split(c), for one character
unfoldable pub split_on : ℕ → Text → List Text
split_on c [] = [] ∷ []
split_on c (d ∷ s) = split_step (d == c) d (split_on c s)

-- Whether a text is empty: Python's `not s`.
abbrev pub is_empty : Text → Bool
is_empty [] = true
is_empty (_ ∷ _) = false

-- A list of literals.
abbrev pub words : List String → List Text
words = map codes

-- any(p in s for p in ps)
unfoldable pub contains_any : List Text → Text → Bool
unfolding any contains
contains_any ps s = any (λ p. contains s p) ps

-- " ".join(parts)
unfoldable pub join_with : Text → List Text → Text
join_with sep [] = []
join_with sep (s ∷ []) = s
join_with sep (s ∷ t ∷ more) = s ++ (sep ++ join_with sep (t ∷ more))

-- s.partition(c), for one character: what stands before it, whether it is there, what follows it
unfoldable pub partition_on : ℕ → Text → Text × Bool × Text
partition_on c [] = ([], false, [])
partition_on c (d ∷ s) =
    let rest = partition_on c s in
    elim (d == c) [ true ↦ ([], true, s) | false ↦ (d ∷ rest.0, rest.1, rest.2) ]
