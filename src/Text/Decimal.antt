-- ===== src/Text/Decimal.antt =====
-- Decimal numerals: `str(n)` and `f"{n:020d}"` for a natural number, and `int(s)` for a text of
-- digits (`none` where `int` raises `ValueError`; signs, spaces and `_` do not occur in the keys
-- that the program parses).
use mathlib.Core.List.{append_assoc, append-nil, reverse-append}
use open_devops_agent.Prelude.{
  ℕ, zero, suc, ◌+◌, ◌-◌, ◌*◌, ◌/◌, ◌%◌, ◌<◌, ◌≤◌, ◌≡◌, refl, ap, ◌∙◌, ◌&&◌, Option, none, some, [],
  ◌∷◌, ◌++◌, reverse, arith, ltb, leb, if◌then◌else◌, length, All, Bool-cases, inl, inr,
}
use open_devops_agent.Text.{Text}

-- The digits, the lowest first.
digits_up : ℕ → ℕ → Text
digits_up zero n = []
digits_up (suc fuel) n =
    let more = digits_up fuel (n / 10) in if ltb n 10 then (n + 48) ∷ [] else (n % 10 + 48) ∷ more

-- str(n)
unfoldable pub decimal : ℕ → Text
unfolding digits_up
decimal n = reverse (digits_up (suc n) n)

unfoldable pub zeros : ℕ → Text
zeros zero = []
zeros (suc k) = 48 ∷ zeros k

-- f"{n:0<width>d}"
unfoldable pub padded : ℕ → ℕ → Text
unfolding zeros decimal
padded width n = zeros (width - length (decimal n)) ++ decimal n

parse_from : ℕ → Text → Option ℕ
parse_from acc [] = some acc
parse_from acc (c ∷ s) =
    let rest = parse_from (acc * 10 + (c - 48)) s in if leb 48 c && leb c 57 then rest else none

-- int(s)
unfoldable pub parse_int : Text → Option ℕ
unfolding parse_from
parse_int [] = none
parse_int (c ∷ s) = parse_from 0 (c ∷ s)

-- What `parse_from` has read after the digits, given the lowest first.
abbrev value_up : ℕ → Text → ℕ
value_up acc [] = acc
value_up acc (c ∷ s) = value_up acc s * 10 + (c - 48)

abbrev IsDigit : ℕ → Type 0
IsDigit c = (48 ≤ c) × (c ≤ 57)

digits_up-IsDigit : (fuel n : ℕ) → All IsDigit (digits_up fuel n)
unfolding digits_up
digits_up-IsDigit zero n = tt
digits_up-IsDigit (suc fuel) n = ground (arith, digits_up-IsDigit fuel (n / 10))

value_up-digits_up : (fuel n : ℕ) → n < fuel → value_up 0 (digits_up fuel n) ≡ n
unfolding digits_up
value_up-digits_up zero n h = elim h [ ]
value_up-digits_up (suc fuel) n h = ground (arith, value_up-digits_up fuel (n / 10))

parse_from-digit :
    (acc c : ℕ) (s : Text) → IsDigit c → parse_from acc (c ∷ s) ≡ parse_from (acc * 10 + (c - 48)) s
unfolding parse_from
parse_from-digit acc c s h = ground arith

parse_from-reverse :
    (acc : ℕ) (ds rest : Text)
    → All IsDigit ds
    → parse_from acc (reverse ds ++ rest) ≡ parse_from (value_up acc ds) rest
parse_from-reverse acc [] rest h = refl
parse_from-reverse acc (c ∷ ds) rest h =
    rw (reverse-append (c ∷ []) ds, append_assoc)
      (parse_from-reverse acc ds (c ∷ rest) h.1 ∙ parse_from-digit (value_up acc ds) c rest h.0)

parse_from-zeros : (k : ℕ) (s : Text) → parse_from 0 (zeros k ++ s) ≡ parse_from 0 s
unfolding zeros parse_from
parse_from-zeros zero s = refl
parse_from-zeros (suc k) s = parse_from-zeros k s

parse_int-last : (s : Text) (c : ℕ) → parse_int (s ++ c ∷ []) ≡ parse_from 0 (s ++ c ∷ [])
unfolding parse_int
parse_int-last [] c = refl
parse_int-last (d ∷ s) c = refl

-- A text that ends in the reversal of a nonempty list is not empty.
parse_int-reverse :
    (s : Text) (c : ℕ) (ds : Text)
    → parse_int (s ++ reverse (c ∷ ds)) ≡ parse_from 0 (s ++ reverse (c ∷ ds))
parse_int-reverse s c ds =
    rw (reverse-append (c ∷ []) ds, ← append_assoc s (reverse ds) (c ∷ []))
      (parse_int-last (s ++ reverse ds) c)

digits_up-cons : (n : ℕ) → (c : ℕ) × (ds : Text) × (digits_up (suc n) n ≡ c ∷ ds)
unfolding digits_up
digits_up-cons n = elim (Bool-cases (ltb n 10)) [
  | inl small ↦ (n + 48, [], rw small)
  | inr large ↦ (n % 10 + 48, digits_up n (n / 10), rw large)
]

parse_from-decimal : (n : ℕ) → parse_from 0 (decimal n) ≡ some n
unfolding decimal parse_from
parse_from-decimal n = rw (← append-nil (reverse (digits_up (suc n) n))) (
    parse_from-reverse 0 (digits_up (suc n) n) [] (digits_up-IsDigit (suc n) n)
    ∙ ap some (value_up-digits_up (suc n) n (omega arith)))

-- Reading back a zero-padded number, of whatever width, gives the number.
pub parse_int-padded : (width n : ℕ) → parse_int (padded width n) ≡ some n
unfolding padded
parse_int-padded width n =
    let (c, ds, e) = digits_up-cons n in
    let whole : parse_int (zeros (width - length (decimal n)) ++ decimal n)
        ≡ parse_from 0 (zeros (width - length (decimal n)) ++ decimal n) =
      rw e (parse_int-reverse (zeros (width - length (reverse (c ∷ ds)))) c ds) in
    whole ∙ parse_from-zeros (width - length (decimal n)) (decimal n) ∙ parse_from-decimal n
