-- ===== src/Json/Reading.antt =====
-- A reader of JSON for flat objects of texts and whole numbers, without white space: what a server
-- makes of the bodies that `JSON.stringify` writes.
pub mod RoundTrip
use edge_guardian.Base.{
  ℕ, zero, suc, ◌+◌, ◌-◌, ◌*◌, Option, none, some, List, [], ◌∷◌, Text, ltb, leb, ◌&&◌, ◌==◌,
  if◌then◌else◌, length,
}
use edge_guardian.Decimal.{is_digit}
use edge_guardian.Json.{Scalar, str, num}

pub data Mode : Type 0 where
  plain escaped : Mode
  hex : (left : ℕ) (value : ℕ) → Mode

-- The value of a hexadecimal digit.
unfoldable pub hex_value : ℕ → Option ℕ
hex_value c =
    if is_digit c
    then some (c - b'0')
    else if leb b'a' c && leb c b'f'
    then some (c - b'a' + 10)
    else if leb b'A' c && leb c b'F'
    then some (c - b'A' + 10)
    else none

-- The character that stands behind a backslash.
unfoldable pub unescaped : ℕ → Option ℕ
unescaped c =
    if c == b'"'
    then some c
    else if c == b'\\'
    then some c
    else if c == b'/'
    then some c
    else if c == b'b'
    then some 8
    else if c == b't'
    then some 9
    else if c == b'n'
    then some 10
    else if c == b'f'
    then some 12
    else if c == b'r'
    then some 13
    else none

abbrev pub push : ℕ → Option (Text × Text) → Option (Text × Text)
push c none = none
push c (some (s, rest)) = some (c ∷ s, rest)

abbrev pub push_known : Option ℕ → Option (Text × Text) → Option (Text × Text)
push_known none r = none
push_known (some c) r = push c r

-- What stands before the closing quote, and what follows it.
unfoldable pub read_string : Mode → Text → Option (Text × Text)
read_string m [] = none
read_string plain (c ∷ s) =
    let escape = read_string escaped s in
    let more = push c (read_string plain s) in
    if c == b'"'
    then some ([], s)
    else if c == b'\\'
    then escape
    else if ltb c 32
    then none
    else more
read_string escaped (c ∷ s) =
    let number = read_string (hex 3 0) s in
    let one = push_known (unescaped c) (read_string plain s) in if c == b'u' then number else one
read_string (hex zero v) (c ∷ s) = elim (hex_value c) [
  | none ↦ none
  | some h ↦ push (v * 16 + h) (read_string plain s)
]
read_string (hex (suc n) v) (c ∷ s) = elim (hex_value c) [
  | none ↦ none
  | some h ↦ read_string (hex n (v * 16 + h)) s
]

-- The digits at the front.
unfoldable pub read_number : ℕ → Text → ℕ × Text
read_number n [] = (n, [])
read_number n (c ∷ s) =
    let more = read_number (n * 10 + (c - b'0')) s in if is_digit c then more else (n, c ∷ s)

abbrev pub texted : Option (Text × Text) → Option (Scalar × Text)
texted none = none
texted (some (s, rest)) = some (str s, rest)

abbrev pub numbered : ℕ × Text → Option (Scalar × Text)
numbered (n, rest) = some (num n, rest)

unfoldable pub read_scalar : Text → Option (Scalar × Text)
read_scalar [] = none
read_scalar (c ∷ s) =
    if c == b'"'
    then texted (read_string plain s)
    else if is_digit c
    then numbered (read_number 0 (c ∷ s))
    else none

-- `"name":value`
abbrev pub valued : Text → Option (Scalar × Text) → Option ((Text × Scalar) × Text)
valued k none = none
valued k (some (v, rest)) = some ((k, v), rest)

abbrev pub named : Option (Text × Text) → Option ((Text × Scalar) × Text)
named none = none
named (some (k, [])) = none
named (some (k, c ∷ rest)) = if c == b':' then valued k (read_scalar rest) else none

unfoldable pub read_member : Text → Option ((Text × Scalar) × Text)
read_member [] = none
read_member (c ∷ s) = if c == b'"' then named (read_string plain s) else none

abbrev pub join_member :
    Text × Scalar → Option (List (Text × Scalar)) → Option (List (Text × Scalar))
join_member m none = none
join_member m (some ms) = some (m ∷ ms)

-- The members, and nothing behind the brace; each member takes a unit of fuel.
unfoldable pub read_members : ℕ → Text → Option (List (Text × Scalar))
read_members zero s = none
read_members (suc fuel) s = elim (read_member s) [
  | none ↦ none
  | some (m, []) ↦ none
  | some (m, c ∷ rest) ↦
      if c == b','
      then join_member m (read_members fuel rest)
      else if c == b'}' && length rest == 0
      then some (m ∷ [])
      else none
]

-- A text has no more members than characters.
unfoldable pub read_object : Text → Option (List (Text × Scalar))
read_object (b ∷ c ∷ s) =
    if b == b'{'
    then (if c == b'}'
        then (if length s == 0 then some [] else none)
        else read_members (length (c ∷ s)) (c ∷ s))
    else none
read_object _ = none
