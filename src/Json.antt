-- ===== src/Json.antt =====
-- `JSON.stringify` on the request bodies of the source: one flat object of texts and numbers.
pub mod Reading
use edge_guardian.Base.{
  ℕ, ◌+◌, ◌-◌, ◌/◌, ◌%◌, List, [], ◌∷◌, ◌++◌, Text, codes, ltb, leb, ◌&&◌, ◌||◌, ◌==◌,
  if◌then◌else◌,
}
use edge_guardian.Decimal.{to_string}

pub data Scalar : Type 0 where
  str : Text → Scalar
  num : ℕ → Scalar

unfoldable pub hex_lower : ℕ → ℕ
hex_lower n = if ltb n 10 then b'0' + n else b'a' + (n - 10)

-- Four hexadecimal digits.
unfoldable pub unicode_escape : ℕ → Text
unicode_escape c =
    b'\\'
    ∷ b'u'
    ∷ hex_lower (c / 4096)
    ∷ hex_lower (c / 256 % 16)
    ∷ hex_lower (c / 16 % 16)
    ∷ hex_lower (c % 16)
    ∷ []

-- A control character and a surrogate that stands alone are written by their numbers.
unfoldable pub escape_char : ℕ → Text
unfolding unicode_escape
escape_char c =
    if c == b'"'
    then codes "\\\""
    else if c == b'\\'
    then codes "\\\\"
    else if c == 8
    then codes "\\b"
    else if c == 9
    then codes "\\t"
    else if c == 10
    then codes "\\n"
    else if c == 12
    then codes "\\f"
    else if c == 13
    then codes "\\r"
    else if ltb c 32 || (leb 0xd800 c && leb c 0xdfff)
    then unicode_escape c
    else c ∷ []

unfoldable pub escape : Text → Text
unfolding escape_char
escape [] = []
escape (c ∷ s) = escape_char c ++ escape s

unfoldable pub quote : Text → Text
unfolding escape
quote s = b'"' ∷ escape s ++ b'"' ∷ []

unfoldable pub scalar : Scalar → Text
unfolding quote
scalar (str s) = quote s
scalar (num n) = to_string n

-- The members after the first.
unfoldable pub members : List (Text × Scalar) → Text
unfolding scalar quote
members [] = b'}' ∷ []
members ((k, v) ∷ ms) = b',' ∷ quote k ++ b':' ∷ scalar v ++ members ms

unfoldable pub stringify : List (Text × Scalar) → Text
unfolding members scalar quote
stringify [] = codes "{}"
stringify ((k, v) ∷ ms) = b'{' ∷ quote k ++ b':' ∷ scalar v ++ members ms
