-- ===== src/Decimal.antt =====
-- `String(n)` and template literals on whole numbers, and `parseInt(s, 10)`.
pub mod RoundTrip
use edge_guardian.Base.{
  ℕ, zero, suc, ◌+◌, ◌-◌, ◌*◌, ◌/◌, ◌%◌, Bool, ◌&&◌, ◌||◌, Option, none, some, [], ◌∷◌, Text, leb,
  ◌==◌, if◌then◌else◌,
}

-- The digits of `n` before `out`; `n` rounds are enough, since each divides by ten.
unfoldable pub digits : ℕ → ℕ → Text → Text
digits zero n out = out
digits (suc fuel) n out =
    let rest = digits fuel (n / 10) ((b'0' + n % 10) ∷ out) in if n == 0 then out else rest

unfoldable pub to_string : ℕ → Text
unfolding digits
to_string n = if n == 0 then b'0' ∷ [] else digits n n []

abbrev pub is_digit : ℕ → Bool
is_digit c = leb b'0' c && leb c b'9'

-- White space and line ends of ASCII.
is_space : ℕ → Bool
is_space c = c == 32 || (leb 9 c && leb c 13)

-- The longest run of digits, after `n`.
unfoldable pub scan : ℕ → Text → ℕ
scan n [] = n
scan n (c ∷ s) = let rest = scan (n * 10 + (c - b'0')) s in if is_digit c then rest else n

-- At least one digit, else NaN.
unfoldable pub unsigned : Text → Option ℕ
unfolding scan
unsigned [] = none
unsigned (c ∷ s) = if is_digit c then some (scan 0 (c ∷ s)) else none

-- A negative number is no id; minus zero is zero.
negated : Option ℕ → Option ℕ
negated none = none
negated (some zero) = some 0
negated (some (suc n)) = none

signed : Text → Option ℕ
unfolding unsigned negated
signed [] = none
signed (c ∷ s) =
    if c == b'+' then unsigned s else if c == b'-' then negated (unsigned s) else unsigned (c ∷ s)

-- `parseInt(s, 10)`; `none` is NaN or a negative number, which equals no id.
unfoldable pub parse_int : Text → Option ℕ
unfolding signed is_space
parse_int [] = none
parse_int (c ∷ s) = let rest = parse_int s in if is_space c then rest else signed (c ∷ s)
