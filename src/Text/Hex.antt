-- ===== src/Text/Hex.antt =====
-- Hexadecimal numerals: `f"{n:0<width>x}"`, and `int(s, 16)` for a text of lower-case digits.
use open_devops_agent.Prelude.{
  ℕ, zero, suc, ◌+◌, ◌-◌, ◌*◌, ◌/◌, ◌%◌, Bool, ◌&&◌, ◌||◌, [], ◌∷◌, ◌++◌, reverse, ltb, leb, ◌==◌,
  if◌then◌else◌, length, all,
}
use open_devops_agent.Text.{Text}
use open_devops_agent.Text.Decimal.{zeros}

abbrev hex_digit : ℕ → ℕ
hex_digit d = if ltb d 10 then d + 48 else d + 87

-- The digits, the lowest first.
hex_up : ℕ → ℕ → Text
hex_up zero n = []
hex_up (suc fuel) n =
    let more = hex_up fuel (n / 16) in
    if ltb n 16 then hex_digit n ∷ [] else hex_digit (n % 16) ∷ more

unfoldable pub hex_padded : ℕ → ℕ → Text
unfolding hex_up zeros
hex_padded width n =
    let digits = reverse (hex_up (suc n) n) in zeros (width - length digits) ++ digits

-- [0-9a-f]
abbrev pub is_hex_digit : ℕ → Bool
is_hex_digit c = (leb 48 c && leb c 57) || (leb 97 c && leb c 102)

-- [0-9a-f]{n}
unfoldable pub is_hex : ℕ → Text → Bool
unfolding all
is_hex n s = length s == n && all is_hex_digit s

abbrev digit_value : ℕ → ℕ
digit_value c = if leb c 57 then c - 48 else c - 87

value_from : ℕ → Text → ℕ
value_from acc [] = acc
value_from acc (c ∷ s) = value_from (acc * 16 + digit_value c) s

-- int(s, 16)
unfoldable pub hex_value : Text → ℕ
unfolding value_from
hex_value s = value_from 0 s
