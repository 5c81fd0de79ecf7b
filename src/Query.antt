-- ===== src/Query.antt =====
-- The standard library's query strings as the source uses them: `URLSearchParams.toString`
-- (application/x-www-form-urlencoded) and `encodeURIComponent`, both over UTF-8.
pub mod RoundTrip
use edge_guardian.Base.{
  ℕ, ◌+◌, ◌-◌, ◌*◌, ◌/◌, ◌%◌, Bool, ◌&&◌, ◌||◌, List, [], ◌∷◌, ◌++◌, Text, leb, ltb, ◌==◌,
  if◌then◌else◌,
}

-- The UTF-8 bytes of a code point; those of U+FFFD for a surrogate that stands alone, as
-- `URLSearchParams` has it. `encodeURIComponent` throws there.
unfoldable pub utf8_char : ℕ → Text
utf8_char c =
    if leb 0xd800 c && leb c 0xdfff
    then 0xef ∷ 0xbf ∷ 0xbd ∷ []
    else if ltb c 0x80
    then c ∷ []
    else if ltb c 0x800
    then (0xc0 + c / 64) ∷ (0x80 + c % 64) ∷ []
    else if ltb c 0x10000
    then (0xe0 + c / 4096) ∷ (0x80 + c / 64 % 64) ∷ (0x80 + c % 64) ∷ []
    else (0xf0 + c / 262144) ∷ (0x80 + c / 4096 % 64) ∷ (0x80 + c / 64 % 64) ∷ (0x80 + c % 64) ∷ []

unfoldable pub utf8 : Text → Text
unfolding utf8_char
utf8 [] = []
utf8 (c ∷ s) = utf8_char c ++ utf8 s

abbrev is_alnum : ℕ → Bool
is_alnum c = (leb b'0' c && leb c b'9') || (leb b'A' c && leb c b'Z') || (leb b'a' c && leb c b'z')

abbrev hex_digit : ℕ → ℕ
hex_digit n = if ltb n 10 then b'0' + n else b'A' + (n - 10)

abbrev escaped : ℕ → Text
escaped b = b'%' ∷ hex_digit (b / 16) ∷ hex_digit (b % 16) ∷ []

-- One byte of a form-encoded name or value.
unfoldable pub form_byte : ℕ → Text
form_byte b =
    if is_alnum b || b == b'*' || b == b'-' || b == b'.' || b == b'_'
    then b ∷ []
    else if b == b' '
    then b'+' ∷ []
    else escaped b

unfoldable pub form_bytes : Text → Text
unfolding form_byte
form_bytes [] = []
form_bytes (b ∷ bs) = form_byte b ++ form_bytes bs

uri_byte : ℕ → Text
uri_byte b =
    if is_alnum b
      || b == b'-'
      || b == b'_'
      || b == b'.'
      || b == b'!'
      || b == b'~'
      || b == b'*'
      || b == 39
      || b == b'('
      || b == b')'
    then b ∷ []
    else escaped b

uri_bytes : Text → Text
unfolding uri_byte
uri_bytes [] = []
uri_bytes (b ∷ bs) = uri_byte b ++ uri_bytes bs

-- `encodeURIComponent(s)`
unfoldable pub encode_uri_component : Text → Text
unfolding uri_bytes utf8
encode_uri_component s = uri_bytes (utf8 s)

unfoldable pub form_pair : Text → Text → Text
unfolding form_bytes utf8
form_pair name value = form_bytes (utf8 name) ++ b'=' ∷ form_bytes (utf8 value)

-- The pairs after the first.
pub query_rest : List (Text × Text) → Text
unfolding form_pair
query_rest [] = []
query_rest ((k, v) ∷ ps) = b'&' ∷ form_pair k v ++ query_rest ps

-- `params.toString()`: the pairs in the order in which `set` first wrote their names.
unfoldable pub query_string : List (Text × Text) → Text
unfolding query_rest
query_string [] = []
query_string ((k, v) ∷ ps) = form_pair k v ++ query_rest ps
