-- ===== src/Environ.antt =====
-- os.environ as a dict of texts, with the ways in which the program reads a setting.
use open_devops_agent.Prelude.{
  ℕ, Bool, true, false, ◌||◌, Option, none, some, List, [], ◌∷◌, map, filter_by, not, ◌==◌,
  if◌then◌else◌,
}
use open_devops_agent.Text.{Text, codes, text_eq, lower, strip, is_empty, split_on}
use open_devops_agent.Text.Decimal.{parse_int}
use open_devops_agent.Storage.Memory
use open_devops_agent.Storage.Memory.{Objects}

abbrev pub Environ : Type 0
Environ = Objects Text

abbrev pub or_else {ℓ} : {A : Type ℓ} → Option A → A → A
or_else none d = d
or_else (some a) d = a

-- os.getenv(name, default)
unfoldable pub getenv : Text → Text → Environ → Text
unfolding Memory.get
getenv name default env = or_else (Memory.get name env) default

-- os.getenv(name, default).lower() == "true"
unfoldable pub env_true : Text → Text → Environ → Bool
unfolding getenv lower text_eq
env_true name default env = text_eq (lower (getenv name default env)) (codes "true")

-- os.getenv(name, "false").strip().lower() in ("true", "1", "yes")
unfoldable pub env_flag : Text → Environ → Bool
unfolding getenv lower strip text_eq
env_flag name env =
    let value = lower (strip (getenv name (codes "false") env)) in
    text_eq value (codes "true") || text_eq value (codes "1") || text_eq value (codes "yes")

-- int(text): the sign (true for minus) and the magnitude; `none` is `ValueError`.
unfoldable pub python_int : Text → Option (Bool × ℕ)
unfolding parse_int strip
python_int text = signed (strip text)
  where
    tagged : Bool → Option ℕ → Option (Bool × ℕ)
    tagged minus none = none
    tagged minus (some n) = some (minus, n)

    signed : Text → Option (Bool × ℕ)
    signed [] = none
    signed (c ∷ s) =
        if c == b'-'
        then tagged true (parse_int s)
        else if c == b'+'
        then tagged false (parse_int s)
        else tagged false (parse_int (c ∷ s))

-- The parts of a comma-separated setting, stripped, the empty ones left out.
unfoldable pub comma_list : Text → List Text
unfolding split_on strip filter_by
comma_list raw = filter_by (λ p. not (is_empty p)) (map strip (split_on b',' raw))
