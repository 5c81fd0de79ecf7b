-- ===== src/Landing/Marquee/Filling.antt =====
-- The loop ends if there is an item, and only then.
use edge_guardian.Base.{
  ℕ, zero, suc, ◌+◌, ◌≤◌, ◌<◌, ◌≡◌, ◌≢◌, refl, sym, ap, ◌∙◌, none, some, List, [], ◌++◌, length,
  length-append, ltb, arith, append_assoc, append-nil, Bool-cases, inl, inr,
}
use edge_guardian.Landing.Marquee.{fill, repeated}

pub copies {ℓ} : {A : Type ℓ} → ℕ → List A → List A
copies zero xs = []
copies (suc k) xs = xs ++ copies k xs

module _ {ℓ} {A : Type ℓ} where
  -- One round more, at the end.
  copies-suc : (k : ℕ) (xs : List A) → copies k xs ++ xs ≡ copies (suc k) xs
  unfolding copies
  copies-suc zero xs = sym (append-nil xs)
  copies-suc (suc k) xs = append_assoc xs (copies k xs) xs ∙ ap (λ ys. xs ++ ys) (copies-suc k xs)

  -- A result of the loop: whole rounds, just as many as are needed.
  abbrev pub IsFilled : List A → List A → Type ℓ
  IsFilled xs r = (k : ℕ) × (r ≡ copies k xs) × (24 ≤ length r) × (length r < 24 + length xs)

  fill-IsFilled :
      (fuel k : ℕ) (xs : List A)
      → 1 ≤ length xs
      → length (copies k xs) < 24 + length xs
      → 24 ≤ length (copies k xs) + fuel
      → (r : List A) × (fill fuel xs (copies k xs) ≡ some r) × IsFilled xs r
  unfolding fill
  fill-IsFilled zero k xs h lo hi = (copies k xs, ground arith, (k, refl, omega arith, lo))
  fill-IsFilled (suc fuel) k xs h lo hi = elim (Bool-cases (ltb (length (copies k xs)) 24)) [
    | inl e ↦
        let longer = sym (length-append (copies k xs) xs) ∙ ap length (copies-suc k xs) in
        let (r, f, filled) =
          fill-IsFilled fuel (suc k) xs h (ground (arith, longer)) (omega (arith, longer)) in
        (r, rw (e, copies-suc k xs) f, filled)
    | inr e ↦ (copies k xs, rw e refl, (k, refl, ground arith, lo))
  ]

  fill_nil : (fuel : ℕ) → fill {A = A} fuel [] [] ≡ none
  unfolding fill
  fill_nil zero = refl
  fill_nil (suc fuel) = fill_nil fuel

  -- If there is an item, the loop ends after at most 24 rounds, with the items repeated in whole rounds
  -- to at least 24 entries, and no round too many. Without an item no number of rounds is enough.
  pub repeated-IsFilled :
      (xs : List A)
      → xs ≢ []
      → ((r : List A) × (repeated xs ≡ some r) × IsFilled xs r)
        × ((fuel : ℕ) → fill {A = A} fuel [] [] ≡ none)
  unfolding repeated copies
  repeated-IsFilled xs h =
      (fill-IsFilled 24 0 xs (ground arith) (ground arith) (omega arith), fill_nil)
