-- ===== src/Sorting.antt =====
-- `Array.prototype.sort`, which is stable, and the collation `localeCompare` as a parameter.
pub mod Laws
use Prim.Native.Nat.{Ordering, compare}
use edge_guardian.Base.{Bool, true, false, List, [], ◌∷◌, Text, if◌then◌else◌, ◌≡◌}

-- The sign of what a comparison returns.
abbrev pub Comparison {ℓ} : Type ℓ → Type ℓ
Comparison A = A → A → Ordering

-- `-cmp`
abbrev pub flip : Ordering → Ordering
flip Ordering.lt = Ordering.gt
flip Ordering.eq = Ordering.eq
flip Ordering.gt = Ordering.lt

abbrev pub is_gt : Ordering → Bool
is_gt Ordering.gt = true
is_gt _ = false

-- What the documentation says of a comparison: that it is consistent.
pub record IsConsistent {ℓ} {A : Type ℓ} (cmp : Comparison A) : Type ℓ where
  pub flips : (a b : A) → cmp b a ≡ flip (cmp a b)
  pub transitive :
      (a b c : A) → is_gt (cmp a b) ≡ false → is_gt (cmp b c) ≡ false → is_gt (cmp a c) ≡ false

module _ {ℓ} {A : Type ℓ} (cmp : Comparison A) where
  -- Before the first entry that is not smaller.
  unfoldable pub place : A → List A → List A
  place x [] = x ∷ []
  place x (y ∷ ys) = if is_gt (cmp x y) then y ∷ place x ys else x ∷ y ∷ ys

  -- `[...list].sort(cmp)`
  unfoldable pub sort : List A → List A
  unfolding place
  sort [] = []
  sort (x ∷ xs) = place x (sort xs)

-- The order of strings that `sort` takes by itself.
unfoldable pub compare_text : Comparison Text
compare_text [] [] = Ordering.eq
compare_text [] (d ∷ t) = Ordering.lt
compare_text (c ∷ s) [] = Ordering.gt
compare_text (c ∷ s) (d ∷ t) =
    let rest = compare_text s t in
    elim (compare c d) [
      | Ordering.lt ↦ Ordering.lt
      | Ordering.gt ↦ Ordering.gt
      | Ordering.eq ↦ rest
    ]
