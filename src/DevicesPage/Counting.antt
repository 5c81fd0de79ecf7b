-- ===== src/DevicesPage/Counting.antt =====
-- A list counted by the names of its entries.
use edge_guardian.Base.{
  map, any, Bool, filter-All, ℕ, ◌+◌, ◌≡◌, refl, sym, subst, ◌∙◌, ap, inl, inr, true, false,
  if◌then◌else◌, List, [], ◌∷◌, Text, text_eq, text_eq_iff, length, filter, All, arith, Bool-cases,
}
use edge_guardian.Sorting.{Comparison, place, sort}
use edge_guardian.DevicesPage.{member, to_set}
use edge_guardian.DevicesPage.Sets.{IsDistinct, to_set_from-IsDistinct, member-to_set_from}

-- The sum of a number for each name.
unfoldable pub total : (Text → ℕ) → List Text → ℕ
total g [] = 0
total g (t ∷ ts) = g t + total g ts

pub total-cong :
    (g h : Text → ℕ) (ts : List Text) → All (λ t. g t ≡ h t) ts → total g ts ≡ total h ts
unfolding total
total-cong g h [] e = refl
total-cong g h (t ∷ ts) (e, es) = omega (arith, e, total-cong g h ts es)

total_ext : (g h : Text → ℕ) (ts : List Text) → ((t : Text) → g t ≡ h t) → total g ts ≡ total h ts
unfolding total
total_ext g h [] e = refl
total_ext g h (t ∷ ts) e = omega (arith, e t, total_ext g h ts e)

total-place :
    (cmp : Comparison Text) (g : Text → ℕ) (t : Text) (ts : List Text)
    → total g (place cmp t ts) ≡ g t + total g ts
unfolding total place
total-place cmp g t [] = refl
total-place cmp g t (u ∷ ts) = ground (arith, total-place cmp g t ts)

-- The order does not matter.
pub total-sort :
    (cmp : Comparison Text) (g : Text → ℕ) (ts : List Text) → total g (sort cmp ts) ≡ total g ts
unfolding total sort
total-sort cmp g [] = refl
total-sort cmp g (t ∷ ts) = total-place cmp g t (sort cmp ts) ∙ ap (◌+◌ (g t)) (total-sort cmp g ts)

total-add : (g h : Text → ℕ) (ts : List Text) → total (λ t. g t + h t) ts ≡ total g ts + total h ts
unfolding total
total-add g h [] = refl
total-add g h (t ∷ ts) = omega (arith, total-add g h ts)

total_zero : (ts : List Text) → total (λ t. 0) ts ≡ 0
unfolding total
total_zero [] = refl
total_zero (t ∷ ts) = omega (arith, total_zero ts)

abbrev is_one : Text → Text → ℕ
is_one x t = if text_eq x t then 1 else 0

total-absent : (x : Text) (ts : List Text) → member x ts ≡ false → total (is_one x) ts ≡ 0
unfolding total member
total-absent x [] h = refl
total-absent x (t ∷ ts) h = ground (arith, total-absent x ts, text_eq_iff x t, text_eq_iff t x)

total-present :
    (x : Text) (ts : List Text) → IsDistinct ts → member x ts ≡ true → total (is_one x) ts ≡ 1
unfolding total member
total-present x [] d h = ground arith
total-present x (t ∷ ts) (n, d) h = elim (Bool-cases (text_eq t x)) [
  | inl e ↦
      let away : member x ts ≡ false = subst (λ z. member z ts ≡ false) ((text_eq_iff t x).0 e) n in
      rw ((text_eq_iff x t).1 (sym ((text_eq_iff t x).0 e))) (omega (arith, total-absent x ts away))
  | inr e ↦ ground (arith, total-present x ts d, text_eq_iff x t, text_eq_iff t x)
]

-- Entries whose names are in a set are counted once by the names of the set.
pub length-total :
    {A : Type 0} (name : A → Text) (ts : List Text) (xs : List A)
    → IsDistinct ts
    → All (λ x. member (name x) ts ≡ true) xs
    → length xs ≡ total (λ t. length (filter (λ x. text_eq (name x) t) xs)) ts
unfolding filter
length-total name ts [] d h = sym (total_zero ts)
length-total name ts (x ∷ xs) d (h, hs) = omega (
  arith,
  length-total name ts xs d hs,
  total-present (name x) ts d h,
  total-add (is_one (name x)) (λ t. length (filter (λ y. text_eq (name y) t) xs)) ts,
  total_ext (λ t. length (filter (λ y. text_eq (name y) t) (x ∷ xs)))
      (λ t. is_one (name x) t + length (filter (λ y. text_eq (name y) t) xs)) ts
      (λ t. ground arith),
)

module _ {A : Type 0} (name : A → Text) where
  in_names :
      (ts : List Text) (xs : List A)
      → ((y : Text) → member y (map name xs) ≡ true → member y ts ≡ true)
      → All (λ x. member (name x) ts ≡ true) xs
  unfolding member any
  in_names ts [] h = tt
  in_names ts (x ∷ xs) h = (
    h (name x) (ground (arith, text_eq_iff (name x) (name x))),
    in_names ts xs (λ y m. h y (ground (arith, m))),
  )

  -- Whatever part of a list is found: if g counts the entries found with each name, then it counts
  -- each entry found once over the sorted set of the names.
  pub total-to_set :
      (cmp : Comparison Text) (p : A → Bool) (xs : List A) (g : Text → ℕ)
      → All
          (λ t. g t ≡ length (filter (λ x. text_eq (name x) t) (filter p xs)))
          (to_set (map name xs))
      → length (filter p xs) ≡ total g (sort cmp (to_set (map name xs)))
  unfolding member
  total-to_set cmp p xs g h =
      length-total name (to_set (map name xs)) (filter p xs)
        (to_set_from-IsDistinct [] (map name xs) tt)
        (filter-All _ p xs
          (in_names (to_set (map name xs)) xs (λ y m. member-to_set_from y [] (map name xs) ∙ m)))
      ∙ sym (total-sort cmp g (to_set (map name xs)) ∙ total-cong _ _ (to_set (map name xs)) h)
