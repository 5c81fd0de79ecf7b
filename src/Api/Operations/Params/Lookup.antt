-- ===== src/Api/Operations/Params/Lookup.antt =====
-- What a parser finds in a query under a name, after the parameters that the code sets one by one.
use edge_guardian.Base.{
  ℕ, ◌≡◌, ◌≢◌, refl, true, Option, none, some, [], ◌∷◌, ◌++◌, map, Text, truthy, text_eq, lookup,
  lookup-insert, insert, if◌then◌else◌, All, Bool-cases, inl, inr, arith, ◌==◌,
}
use edge_guardian.Decimal.{to_string, is_digit}
use edge_guardian.Decimal.RoundTrip.{parse_int-to_string, to_string-All}
use edge_guardian.Query.{utf8, utf8_char}
use edge_guardian.Query.RoundTrip.{utf8_pair}
use edge_guardian.Api.Devices.{set_text, set_number}
use edge_guardian.Api.Organizations.{set_defined}
use edge_guardian.Api.Operations.Params.{after_query, Pairs, as_number, sent_text, sent_number}

pub after_query-append : (s r : Text) → All (λ c. c ≢ b'?') s → after_query (s ++ b'?' ∷ r) ≡ r
unfolding after_query
after_query-append [] r h = refl
after_query-append (c ∷ s) r (h, hs) = ground (arith, after_query-append s r hs)

pub after_query_none : (s : Text) → All (λ c. c ≢ b'?') s → after_query s ≡ []
unfolding after_query
after_query_none [] h = refl
after_query_none (c ∷ s) (h, hs) = ground (arith, after_query_none s hs)

-- A name of a parameter, which is ASCII.
abbrev pub IsName : Text → Type 0
IsName k = utf8 k ≡ k

unfoldable pub HasNames : Pairs → Type 0
HasNames q = All (λ x. IsName x.0) q

unfoldable pub as_bytes : Option Text → Option Text
as_bytes none = none
as_bytes (some v) = some (utf8 v)

pub lookup-utf8 :
    (j : Text) (q : Pairs) → HasNames q → lookup j (map utf8_pair q) ≡ as_bytes (lookup j q)
unfolding lookup HasNames as_bytes
lookup-utf8 j [] h = refl
lookup-utf8 j ((k, v) ∷ q) (h, hs) = elim (Bool-cases (text_eq k j)) [
  | inl e ↦ rw (h, e) refl
  | inr e ↦ rw (h, e) (lookup-utf8 j q hs)
]

insert-HasNames : (k v : Text) (q : Pairs) → IsName k → HasNames q → HasNames (insert k v q)
unfolding insert HasNames
insert-HasNames k v [] h hq = (h, tt)
insert-HasNames k v ((j, w) ∷ q) h (hj, hq) = elim (Bool-cases (text_eq j k)) [
  | inl e ↦ rw (insert, e) (h, hq)
  | inr e ↦ rw (insert, e) (hj, insert-HasNames k v q h hq)
]

pub set_text-HasNames :
    (k : Text) (v : Option Text) (q : Pairs) → IsName k → HasNames q → HasNames (set_text k v q)
set_text-HasNames k none q h hq = hq
set_text-HasNames k (some v) q h hq = elim (Bool-cases (truthy v)) [
  | inl e ↦ rw e (insert-HasNames k v q h hq)
  | inr e ↦ rw e hq
]

pub set_number-HasNames :
    (k : Text) (v : Option ℕ) (q : Pairs) → IsName k → HasNames q → HasNames (set_number k v q)
set_number-HasNames k none q h hq = hq
set_number-HasNames k (some n) q h hq = elim (Bool-cases (n == 0)) [
  | inl e ↦ rw e hq
  | inr e ↦ rw e (insert-HasNames k (to_string n) q h hq)
]

pub set_defined-HasNames :
    (k : Text) (v : Option ℕ) (q : Pairs) → IsName k → HasNames q → HasNames (set_defined k v q)
set_defined-HasNames k none q h hq = hq
set_defined-HasNames k (some n) q h hq = insert-HasNames k (to_string n) q h hq

unfoldable pub override : Option Text → Option Text → Option Text
override none r = r
override (some a) r = some a

unfoldable pub nonempty : Option Text → Option Text
nonempty none = none
nonempty (some v) = if truthy v then some v else none

unfoldable pub printed_nonzero : Option ℕ → Option Text
printed_nonzero none = none
printed_nonzero (some n) = if n == 0 then none else some (to_string n)

unfoldable pub printed : Option ℕ → Option Text
printed none = none
printed (some n) = some (to_string n)

pub lookup-set_text :
    (j k : Text) (v : Option Text) (q : Pairs)
    → lookup j (set_text k v q)
      ≡ (if text_eq k j then override (nonempty v) (lookup j q) else lookup j q)
unfolding override nonempty
lookup-set_text j k none q = ground arith
lookup-set_text j k (some v) q = ground (arith, lookup-insert k j v q)

pub lookup-set_number :
    (j k : Text) (v : Option ℕ) (q : Pairs)
    → lookup j (set_number k v q)
      ≡ (if text_eq k j then override (printed_nonzero v) (lookup j q) else lookup j q)
unfolding override printed_nonzero
lookup-set_number j k none q = ground arith
lookup-set_number j k (some n) q = ground (arith, lookup-insert k j (to_string n) q)

pub lookup-set_defined :
    (j k : Text) (v : Option ℕ) (q : Pairs)
    → lookup j (set_defined k v q)
      ≡ (if text_eq k j then override (printed v) (lookup j q) else lookup j q)
unfolding override printed
lookup-set_defined j k none q = ground arith
lookup-set_defined j k (some n) q = ground (arith, lookup-insert k j (to_string n) q)

pub override-none : (v : Option Text) → override v none ≡ v
unfolding override
override-none none = refl
override-none (some a) = refl

pub ruleset lookups = (lookup-set_text, lookup-set_number, lookup-set_defined, override-none)

pub as_bytes-nonempty : (v : Option Text) → as_bytes (nonempty v) ≡ sent_text v
unfolding as_bytes nonempty
as_bytes-nonempty none = refl
as_bytes-nonempty (some v) = ground arith

utf8_of_digits : (s : Text) → All (λ c. is_digit c ≡ true) s → utf8 s ≡ s
unfolding utf8 utf8_char
utf8_of_digits [] h = refl
utf8_of_digits (c ∷ s) (h, hs) = ground (arith, utf8_of_digits s hs)

utf8-to_string : (n : ℕ) → utf8 (to_string n) ≡ to_string n
utf8-to_string n = utf8_of_digits (to_string n) (to_string-All n)

pub as_number-printed : (v : Option ℕ) → as_number (as_bytes (printed v)) ≡ v
unfolding as_bytes printed
as_number-printed none = refl
as_number-printed (some n) = rw utf8-to_string (parse_int-to_string n)

pub as_number-printed_nonzero :
    (v : Option ℕ) → as_number (as_bytes (printed_nonzero v)) ≡ sent_number v
unfolding as_bytes printed_nonzero
as_number-printed_nonzero none = refl
as_number-printed_nonzero (some n) = elim (Bool-cases (n == 0)) [
  | inl e ↦ rw e refl
  | inr e ↦ rw (e, utf8-to_string) (parse_int-to_string n)
]
