-- ===== src/Query/RoundTrip.antt =====
-- A query string is read back as the parameters that were put in, whatever the texts hold.
use edge_guardian.Base.{
  ℕ, ◌+◌, ◌-◌, ◌*◌, ◌<◌, ◌≡◌, ◌≢◌, refl, ap, ◌∙◌, Bool, true, false, List, [], ◌∷◌, ◌++◌,
  append_assoc, append-nil, Text, leb, ◌==◌, if◌then◌else◌, All, All-append, map, arith,
}
use edge_guardian.Query.{
  utf8_char, utf8, form_byte, form_bytes, form_pair, query_rest, query_string,
}

-- The parser of the URL standard: `+` is a space and `%` takes two hexadecimal digits.
abbrev hex_value : ℕ → ℕ
hex_value c = if leb c b'9' then c - b'0' else c - b'A' + 10

pub data Mode : Type 0 where
  plain high : Mode
  low : ℕ → Mode

pub form_decode : Mode → Text → Text
form_decode _ [] = []
form_decode plain (c ∷ s) =
    let spaced = 32 ∷ form_decode plain s in
    let started = form_decode high s in
    let kept = c ∷ form_decode plain s in
    if c == b'+' then spaced else if c == b'%' then started else kept
form_decode high (c ∷ s) = form_decode (low (hex_value c)) s
form_decode (low h) (c ∷ s) = (h * 16 + hex_value c) ∷ form_decode plain s

-- The name ends at the first `=`, the pair at the next `&`.
pub parse_pairs : Bool → Text → Text → Text → List (Text × Text)
parse_pairs in_value name value [] = (form_decode plain name, form_decode plain value) ∷ []
parse_pairs false name value (c ∷ s) =
    let closed = (form_decode plain name, []) ∷ parse_pairs false [] [] s in
    let valued = parse_pairs true name [] s in
    let longer = parse_pairs false (name ++ c ∷ []) [] s in
    if c == b'&' then closed else if c == b'=' then valued else longer
parse_pairs true name value (c ∷ s) =
    let closed = (form_decode plain name, form_decode plain value) ∷ parse_pairs false [] [] s in
    let longer = parse_pairs true name (value ++ c ∷ []) s in if c == b'&' then closed else longer

pub parse_query : Text → List (Text × Text)
unfolding parse_pairs form_decode
parse_query [] = []
parse_query (c ∷ s) = parse_pairs false [] [] (c ∷ s)

abbrev pub IsByte : ℕ → Type 0
IsByte b = b < 256

-- A code point of Unicode.
abbrev pub IsCodePoint : ℕ → Type 0
IsCodePoint c = c < 0x110000

utf8_char-IsByte : (c : ℕ) → IsCodePoint c → All IsByte (utf8_char c)
unfolding utf8_char
utf8_char-IsByte c h = ground arith

pub utf8-IsByte : (s : Text) → All IsCodePoint s → All IsByte (utf8 s)
unfolding utf8
utf8-IsByte [] h = tt
utf8-IsByte (c ∷ s) (h, hs) =
    All-append IsByte (utf8_char c) (utf8 s) (utf8_char-IsByte c h) (utf8-IsByte s hs)

form_decode-byte :
    (b : ℕ) (rest : Text)
    → IsByte b
    → form_decode plain (form_byte b ++ rest) ≡ b ∷ form_decode plain rest
unfolding form_decode form_byte
form_decode-byte b rest h = ground arith

form_decode-form_bytes : (bs : Text) → All IsByte bs → form_decode plain (form_bytes bs) ≡ bs
unfolding form_bytes
form_decode-form_bytes [] h = unfold form_decode in refl
form_decode-form_bytes (b ∷ bs) (h, hs) =
    form_decode-byte b (form_bytes bs) h ∙ ap (◌∷◌ b) (form_decode-form_bytes bs hs)

-- A separator of the query string.
abbrev IsInert : ℕ → Type 0
IsInert c = (c ≢ b'&') × (c ≢ b'=')

form_byte-IsInert : (b : ℕ) → IsByte b → All IsInert (form_byte b)
unfolding form_byte
form_byte-IsInert b h = ground arith

form_bytes-IsInert : (bs : Text) → All IsByte bs → All IsInert (form_bytes bs)
unfolding form_bytes
form_bytes-IsInert [] h = tt
form_bytes-IsInert (b ∷ bs) (h, hs) =
    All-append IsInert (form_byte b) (form_bytes bs) (form_byte-IsInert b h)
      (form_bytes-IsInert bs hs)

parse_pairs-name :
    (n name rest : Text)
    → All IsInert n
    → parse_pairs false name [] (n ++ rest) ≡ parse_pairs false (name ++ n) [] rest
unfolding parse_pairs
parse_pairs-name [] name rest h = rw append-nil
parse_pairs-name (c ∷ n) name rest (h, hs) =
    ground (arith, parse_pairs-name n (name ++ c ∷ []) rest hs, append_assoc name (c ∷ []) n)

parse_pairs-value :
    (v name value rest : Text)
    → All IsInert v
    → parse_pairs true name value (v ++ rest) ≡ parse_pairs true name (value ++ v) rest
unfolding parse_pairs
parse_pairs-value [] name value rest h = rw append-nil
parse_pairs-value (c ∷ v) name value rest (h, hs) =
    ground
      (arith, parse_pairs-value v name (value ++ c ∷ []) rest hs, append_assoc value (c ∷ []) v)

abbrev pub IsUnicode : Text × Text → Type 0
IsUnicode p = All IsCodePoint p.0 × All IsCodePoint p.1

-- One pair of bytes, with what follows it.
parse_pairs-form_pair :
    (k v rest : Text)
    → All IsCodePoint k
    → All IsCodePoint v
    → parse_pairs false [] [] (form_pair k v ++ rest)
      ≡ parse_pairs true (form_bytes (utf8 k)) (form_bytes (utf8 v)) rest
unfolding form_pair
parse_pairs-form_pair k v rest hk hv =
    let nk = form_bytes-IsInert (utf8 k) (utf8-IsByte k hk) in
    let nv = form_bytes-IsInert (utf8 v) (utf8-IsByte v hv) in
    rw append_assoc (
      parse_pairs-name (form_bytes (utf8 k)) [] (b'=' ∷ form_bytes (utf8 v) ++ rest) nk
      ∙ unfold parse_pairs in
        parse_pairs-value (form_bytes (utf8 v)) (form_bytes (utf8 k)) [] rest nv)

-- A pair in the bytes that the server reads.
abbrev pub utf8_pair : Text × Text → Text × Text
utf8_pair (k, v) = (utf8 k, utf8 v)

parse_pairs-query_rest :
    (k v : Text) (ps : List (Text × Text))
    → All IsUnicode ((k, v) ∷ ps)
    → parse_pairs true (form_bytes (utf8 k)) (form_bytes (utf8 v)) (query_rest ps)
      ≡ map utf8_pair ((k, v) ∷ ps)
unfolding query_rest parse_pairs
parse_pairs-query_rest k v [] ((hk, hv), h) = cc (
  form_decode-form_bytes (utf8 k) (utf8-IsByte k hk),
  form_decode-form_bytes (utf8 v) (utf8-IsByte v hv),
)
parse_pairs-query_rest k v ((k', v') ∷ ps) ((hk, hv), (h', h)) = cc (
  form_decode-form_bytes (utf8 k) (utf8-IsByte k hk),
  form_decode-form_bytes (utf8 v) (utf8-IsByte v hv),
  parse_pairs-form_pair k' v' (query_rest ps) h'.0 h'.1,
  parse_pairs-query_rest k' v' ps (h', h),
)

parse_query_of_ne : (s : Text) → s ≢ [] → parse_query s ≡ parse_pairs false [] [] s
unfolding parse_query
parse_query_of_ne [] h = absurd (h refl)
parse_query_of_ne (c ∷ s) h = refl

middle-ne-nil : (s t : Text) (c : ℕ) → s ++ c ∷ t ≢ []
middle-ne-nil [] t c = cc
middle-ne-nil (d ∷ s) t c = cc

form_pair-ne-nil : (k v rest : Text) → form_pair k v ++ rest ≢ []
unfolding form_pair
form_pair-ne-nil k v rest =
    rw append_assoc (middle-ne-nil (form_bytes (utf8 k)) (form_bytes (utf8 v) ++ rest) b'=')

-- For every list of parameters of Unicode texts, the query string that `URLSearchParams` makes of
-- it is parsed back by the URL standard's parser to the UTF-8 bytes of the same names and values,
-- in the same order: no text can add, drop or change a parameter.
pub parse_query-query_string :
    (ps : List (Text × Text)) → All IsUnicode ps → parse_query (query_string ps) ≡ map utf8_pair ps
unfolding query_string
parse_query-query_string [] h = unfold parse_query in refl
parse_query-query_string ((k, v) ∷ ps) h =
    parse_query_of_ne _ (form_pair-ne-nil k v (query_rest ps))
    ∙ parse_pairs-form_pair k v (query_rest ps) h.0.0 h.0.1
    ∙ parse_pairs-query_rest k v ps h
