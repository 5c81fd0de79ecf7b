-- ===== src/Sorting/Laws.antt =====
-- Sorting keeps the entries and puts them in order.
use mathlib.Core.List.{Perm}
use mathlib.Core.List.Perm
use edge_guardian.Base.{
  refl, length, suc, ap, ◌∙◌, ◌≡◌, false, List, [], ◌∷◌, All, arith, Bool-cases, inl, inr,
}
use edge_guardian.Sorting.{Comparison, is_gt, IsConsistent, place, sort}

module _ {ℓ} {A : Type ℓ} (cmp : Comparison A) where
  -- No entry is greater than one that stands behind it.
  abbrev pub IsSorted : List A → Type ℓ
  IsSorted [] = Unit
  IsSorted (x ∷ xs) = All (λ y. is_gt (cmp x y) ≡ false) xs × IsSorted xs

  place-perm : (x : A) (ys : List A) → Perm (place cmp x ys) (x ∷ ys)
  unfolding place
  place-perm x [] = Perm.refl (x ∷ [])
  place-perm x (y ∷ ys) = elim (Bool-cases (is_gt (cmp x y))) [
    | inl e ↦ rw e (Perm.trans (Perm.cons y (place-perm x ys)) (Perm.swap x y ys))
    | inr e ↦ rw e (Perm.refl (x ∷ y ∷ ys))
  ]

  -- Sorting a list rearranges it.
  pub sort-perm : (xs : List A) → Perm (sort cmp xs) xs
  unfolding sort
  sort-perm [] = Perm.refl []
  sort-perm (x ∷ xs) = Perm.trans (place-perm x (sort cmp xs)) (Perm.cons x (sort-perm xs))

  length-place : (x : A) (ys : List A) → length (place cmp x ys) ≡ suc (length ys)
  unfolding place
  length-place x [] = refl
  length-place x (y ∷ ys) = ground (arith, length-place x ys)

  pub length-sort : (xs : List A) → length (sort cmp xs) ≡ length xs
  unfolding sort
  length-sort [] = refl
  length-sort (x ∷ xs) = length-place x (sort cmp xs) ∙ ap suc (length-sort xs)

  module _ (consistent : IsConsistent cmp) where
    All-weaken :
        (x y : A) (ys : List A)
        → is_gt (cmp x y) ≡ false
        → All (λ z. is_gt (cmp y z) ≡ false) ys
        → All (λ z. is_gt (cmp x z) ≡ false) ys
    All-weaken x y [] h hs = tt
    All-weaken x y (z ∷ ys) h (k, hs) = (consistent.transitive x y z h k, All-weaken x y ys h hs)

    All-place :
        (x y : A) (ys : List A)
        → is_gt (cmp y x) ≡ false
        → All (λ z. is_gt (cmp y z) ≡ false) ys
        → All (λ z. is_gt (cmp y z) ≡ false) (place cmp x ys)
    unfolding place
    All-place x y [] h hs = (h, tt)
    All-place x y (z ∷ ys) h (k, hs) = elim (Bool-cases (is_gt (cmp x z))) [
      | inl e ↦ rw e (k, All-place x y ys h hs)
      | inr e ↦ rw e (h, (k, hs))
    ]

    place-IsSorted : (x : A) (ys : List A) → IsSorted ys → IsSorted (place cmp x ys)
    unfolding place
    place-IsSorted x [] h = (tt, tt)
    place-IsSorted x (y ∷ ys) (h, hs) = elim (Bool-cases (is_gt (cmp x y))) [
      | inl e ↦
          rw e (All-place x y ys (ground (arith, consistent.flips x y)) h, place-IsSorted x ys hs)
      | inr e ↦ rw e ((e, All-weaken x y ys e h), (h, hs))
    ]

    -- The result is in order.
    pub sort-IsSorted : (xs : List A) → IsSorted (sort cmp xs)
    unfolding sort
    sort-IsSorted [] = tt
    sort-IsSorted (x ∷ xs) = place-IsSorted x (sort cmp xs) (sort-IsSorted xs)
