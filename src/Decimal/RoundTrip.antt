-- ===== src/Decimal/RoundTrip.antt =====
-- What is printed is read back.
use edge_guardian.Base.{
  ℕ, zero, suc, ◌+◌, ◌/◌, ◌%◌, ◌≤◌, ◌≡◌, refl, ◌≢◌, inl, inr, true, some, [], ◌∷◌, Text, All, ◌==◌,
  Bool-cases, arith,
}
use edge_guardian.Decimal.{digits, to_string, is_digit, scan, parse_int}

scan-digits : (fuel n : ℕ) (out : Text) → n ≤ fuel → scan 0 (digits fuel n out) ≡ scan n out
unfolding digits scan
scan-digits zero n out h = let e : n ≡ 0 = omega arith in ground arith
scan-digits (suc fuel) n out h = ground (arith, scan-digits fuel (n / 10) ((b'0' + n % 10) ∷ out))

digits-All :
    (fuel n : ℕ) (out : Text)
    → All (λ c. is_digit c ≡ true) out
    → All (λ c. is_digit c ≡ true) (digits fuel n out)
unfolding digits
digits-All zero n out h = h
digits-All (suc fuel) n out h = elim (Bool-cases (n == 0)) [
  | inl e ↦ rw e h
  | inr e ↦ rw e (digits-All fuel (n / 10) ((b'0' + n % 10) ∷ out) (ground arith, h))
]

digits-ne-nil : (fuel n c : ℕ) (out : Text) → digits fuel n (c ∷ out) ≢ []
unfolding digits
digits-ne-nil zero n c out = cc
digits-ne-nil (suc fuel) n c out =
    ground (arith, digits-ne-nil fuel (n / 10) (b'0' + n % 10) (c ∷ out))

-- Only decimal digits are printed.
pub to_string-All : (n : ℕ) → All (λ c. is_digit c ≡ true) (to_string n)
unfolding to_string
to_string-All n = elim (Bool-cases (n == 0)) [
  | inl e ↦ rw e (refl, tt)
  | inr e ↦ rw e (digits-All n n [] tt)
]

pub to_string-ne-nil : (n : ℕ) → to_string n ≢ []
unfolding to_string digits
to_string-ne-nil zero = cc
to_string-ne-nil (suc n) = ground (arith, digits-ne-nil n (suc n / 10) (b'0' + suc n % 10) [])

scan-to_string : (n : ℕ) → scan 0 (to_string n) ≡ n
unfolding to_string scan
scan-to_string n = ground (arith, scan-digits n n [])

parse_int_of_digits :
    (s : Text) → All (λ c. is_digit c ≡ true) s → s ≢ [] → parse_int s ≡ some (scan 0 s)
unfolding parse_int
parse_int_of_digits [] h ne = absurd (ne refl)
parse_int_of_digits (c ∷ s) h ne = ground arith

-- `parseInt(String(n), 10)` is `n`.
pub parse_int-to_string : (n : ℕ) → parse_int (to_string n) ≡ some n
parse_int-to_string n =
    rw (parse_int_of_digits (to_string n) (to_string-All n) (to_string-ne-nil n), scan-to_string)
      refl
