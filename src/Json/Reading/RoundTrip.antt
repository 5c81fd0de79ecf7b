-- ===== src/Json/Reading/RoundTrip.antt =====
-- What `JSON.stringify` writes is read back.
use edge_guardian.Base.{
  ℕ, zero, suc, ◌+◌, ◌*◌, ◌/◌, ◌%◌, ◌≤◌, ◌<◌, ◌≡◌, refl, some, List, [], ◌∷◌, ◌++◌, append_assoc,
  Text, All, ◌≢◌, Bool-cases, arith, inl, inr, ltb, leb, ◌&&◌, ◌||◌, ◌==◌, true, false, ◌∙◌, ap,
  length, length-append,
}
use edge_guardian.Decimal.{is_digit, digits, to_string}
use edge_guardian.Decimal.RoundTrip.{to_string-All, to_string-ne-nil}
use edge_guardian.Json.{
  Scalar, str, num, hex_lower, unicode_escape, escape_char, escape, quote, scalar, members,
  stringify,
}
use edge_guardian.Json.Reading.{
  plain, hex, hex_value, unescaped, push, read_string, texted, numbered, named, valued, read_number,
  read_scalar, read_member, read_members, read_object, join_member,
}

hex_value-hex_lower : (n : ℕ) → n < 16 → hex_value (hex_lower n) ≡ some n
unfolding hex_value hex_lower
hex_value-hex_lower n h = ground arith

read_string-hex :
    (left v d : ℕ) (s : Text)
    → d < 16
    → read_string (hex (suc left) v) (hex_lower d ∷ s) ≡ read_string (hex left (v * 16 + d)) s
unfolding read_string
read_string-hex left v d s h = rw (read_string, hex_value-hex_lower d h) refl

read_string-hex_last :
    (v d : ℕ) (s : Text)
    → d < 16
    → read_string (hex 0 v) (hex_lower d ∷ s) ≡ push (v * 16 + d) (read_string plain s)
unfolding read_string
read_string-hex_last v d s h = rw (read_string, hex_value-hex_lower d h) refl

read_string-unicode : (s : Text) → read_string plain (b'\\' ∷ b'u' ∷ s) ≡ read_string (hex 3 0) s
unfolding read_string
read_string-unicode s = refl

four_digits :
    (c : ℕ) → (((0 * 16 + c / 4096) * 16 + c / 256 % 16) * 16 + c / 16 % 16) * 16 + c % 16 ≡ c
four_digits c = omega arith

read_string-unicode_escape :
    (c : ℕ) (r : Text)
    → c < 65536
    → read_string plain (unicode_escape c ++ r) ≡ push c (read_string plain r)
unfolding unicode_escape
read_string-unicode_escape c r h =
    read_string-unicode _
    ∙ read_string-hex 2 0 (c / 4096) _ (omega arith)
    ∙ read_string-hex 1 _ (c / 256 % 16) _ (omega arith)
    ∙ read_string-hex 0 _ (c / 16 % 16) _ (omega arith)
    ∙ read_string-hex_last _ (c % 16) r (omega arith)
    ∙ ap (λ k. push k (read_string plain r)) (four_digits c)

read_string-escape_char :
    (c : ℕ) (r : Text) → read_string plain (escape_char c ++ r) ≡ push c (read_string plain r)
unfolding escape_char unescaped read_string
read_string-escape_char c r = elim (Bool-cases (ltb c 32 || (leb 0xd800 c && leb c 0xdfff))) [
  | inl e ↦ ground (arith, read_string-unicode_escape c r)
  | inr e ↦ ground arith
]

read_string-escape : (s r : Text) → read_string plain (escape s ++ b'"' ∷ r) ≡ some (s, r)
unfolding escape
read_string-escape [] r = unfold read_string in refl
read_string-escape (c ∷ s) r =
    rw (append_assoc, read_string-escape_char, read_string-escape s r) refl

digits-append : (fuel n : ℕ) (out r : Text) → digits fuel n out ++ r ≡ digits fuel n (out ++ r)
unfolding digits
digits-append zero n out r = refl
digits-append (suc fuel) n out r =
    ground (arith, digits-append fuel (n / 10) ((b'0' + n % 10) ∷ out) r)

read_number-digits :
    (fuel n : ℕ) (out : Text) → n ≤ fuel → read_number 0 (digits fuel n out) ≡ read_number n out
unfolding digits read_number
read_number-digits zero n out h = let e : n ≡ 0 = omega arith in rw e refl
read_number-digits (suc fuel) n out h =
    ground (arith, read_number-digits fuel (n / 10) ((b'0' + n % 10) ∷ out))

read_number_end : (n c : ℕ) (r : Text) → is_digit c ≡ false → read_number n (c ∷ r) ≡ (n, c ∷ r)
unfolding read_number
read_number_end n c r h = rw (read_number, h) refl

read_number-to_string :
    (n c : ℕ) (r : Text) → is_digit c ≡ false → read_number 0 (to_string n ++ c ∷ r) ≡ (n, c ∷ r)
unfolding to_string read_number
read_number-to_string n c r h = elim (Bool-cases (n == 0)) [
  | inl e ↦ (let z : n ≡ 0 = ground arith in rw z (read_number_end 0 c r h))
  | inr e ↦
      rw (to_string, e, digits-append, read_number-digits n n (c ∷ r) (omega arith))
        (read_number_end n c r h)
]

read_scalar-digit :
    (c : ℕ) (s : Text) → is_digit c ≡ true → read_scalar (c ∷ s) ≡ numbered (read_number 0 (c ∷ s))
unfolding read_scalar
read_scalar-digit c s h = ground arith

read_scalar_of_digits :
    (s r : Text) (n : ℕ)
    → All (λ c. is_digit c ≡ true) s
    → s ≢ []
    → read_number 0 (s ++ r) ≡ (n, r)
    → read_scalar (s ++ r) ≡ some (num n, r)
read_scalar_of_digits [] r n h ne e = absurd (ne refl)
read_scalar_of_digits (c ∷ s) r n (h, hs) ne e = read_scalar-digit c (s ++ r) h ∙ ap numbered e

read_scalar-scalar :
    (v : Scalar) (c : ℕ) (r : Text)
    → is_digit c ≡ false
    → read_scalar (scalar v ++ c ∷ r) ≡ some (v, c ∷ r)
unfolding scalar read_scalar
read_scalar-scalar (str s) c r h =
    ap (λ t. texted (read_string plain t)) (append_assoc (escape s) (b'"' ∷ []) (c ∷ r))
    ∙ ap texted (read_string-escape s (c ∷ r))
read_scalar-scalar (num n) c r h =
    read_scalar_of_digits (to_string n) (c ∷ r) n (to_string-All n) (to_string-ne-nil n)
      (read_number-to_string n c r h)

-- A member, as `JSON.stringify` writes it.
abbrev member : Text → Scalar → Text
member k v = quote k ++ b':' ∷ scalar v

read_member-member :
    (k : Text) (v : Scalar) (c : ℕ) (r : Text)
    → is_digit c ≡ false
    → read_member (member k v ++ c ∷ r) ≡ some ((k, v), c ∷ r)
unfolding quote read_member
read_member-member k v c r h =
    ap (λ t. named (read_string plain t))
      (append_assoc (escape k ++ b'"' ∷ []) (b':' ∷ scalar v) (c ∷ r)
        ∙ append_assoc (escape k) (b'"' ∷ []) _)
    ∙ ap named (read_string-escape k _)
    ∙ ap (valued k) (read_scalar-scalar v c r h)

members-head :
    (ms : List (Text × Scalar)) → (c : ℕ) × (r : Text) × (members ms ≡ c ∷ r) × (is_digit c ≡ false)
unfolding members
members-head [] = (b'}', [], refl, refl)
members-head ((k, v) ∷ ms) = (b',', _, refl, refl)

read_member-members :
    (k : Text) (v : Scalar) (ms : List (Text × Scalar))
    → read_member (member k v ++ members ms) ≡ some ((k, v), members ms)
read_member-members k v ms =
    let (c, r, e, h) = members-head ms in rw e (read_member-member k v c r h)

read_members-members :
    (fuel : ℕ) (k : Text) (v : Scalar) (ms : List (Text × Scalar))
    → length ms < fuel
    → read_members fuel (member k v ++ members ms) ≡ some ((k, v) ∷ ms)
unfolding members read_members
read_members-members zero k v ms h = absurd (omega arith)
read_members-members (suc fuel) k v [] h = rw (read_members, read_member-members k v []) refl
read_members-members (suc fuel) k v ((j, w) ∷ ms) h =
    rw (read_members, read_member-members k v ((j, w) ∷ ms))
      (ap (join_member (k, v)) (read_members-members fuel j w ms (omega arith)))

length-members : (ms : List (Text × Scalar)) → length ms < length (members ms)
unfolding members
length-members [] = omega arith
length-members ((k, v) ∷ ms) =
    omega (arith, length-append (member k v) (members ms), length-members ms)

-- A flat object is read back with all its members, in their order, whatever the texts hold.
pub read_object-stringify : (ms : List (Text × Scalar)) → read_object (stringify ms) ≡ some ms
unfolding stringify read_object
read_object-stringify [] = refl
read_object-stringify ((k, v) ∷ ms) =
    read_members-members (length (member k v ++ members ms)) k v ms
      (omega (arith, length-append (member k v) (members ms), length-members ms))
