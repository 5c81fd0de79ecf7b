-- ===== src/DevicesPage/Sets.antt =====
-- Lists of strings that stand for a `Set`.
pub mod Subset
use edge_guardian.Base.{
  All, All-append, ◌≡◌, inl, inr, refl, ◌∙◌, subst, Bool, true, false, ◌||◌, List, [], ◌∷◌, ◌++◌,
  Text, text_eq, text_eq_iff, arith, Bool-cases,
}
use edge_guardian.DevicesPage.{member, without, toggle, to_set_from}

-- An entry once.
abbrev pub IsDistinct : List Text → Type 0
IsDistinct [] = Unit
IsDistinct (x ∷ xs) = (member x xs ≡ false) × IsDistinct xs

member-append :
    (x y : Text) (xs : List Text) → member x (xs ++ y ∷ []) ≡ (member x xs || text_eq y x)
unfolding member
member-append x y [] = ground arith
member-append x y (z ∷ xs) = ground (arith, member-append x y xs)

append-IsDistinct :
    (x : Text) (xs : List Text) → member x xs ≡ false → IsDistinct xs → IsDistinct (xs ++ x ∷ [])
append-IsDistinct x [] h d = (unfold member in refl, tt)
append-IsDistinct x (y ∷ xs) h (n, d) = (
  member-append y x xs ∙ unfold member in ground (arith, text_eq_iff x y, text_eq_iff y x),
  append-IsDistinct x xs (unfold member in ground arith) d,
)

member-without :
    (x y : Text) (xs : List Text) → member y xs ≡ false → member y (without x xs) ≡ false
unfolding member without
member-without x y [] h = refl
member-without x y (z ∷ xs) h = ground (arith, member-without x y xs)

without-IsDistinct : (x : Text) (xs : List Text) → IsDistinct xs → IsDistinct (without x xs)
unfolding without
without-IsDistinct x [] d = tt
without-IsDistinct x (y ∷ xs) (n, d) = elim (Bool-cases (text_eq y x)) [
  | inl e ↦ rw e (without-IsDistinct x xs d)
  | inr e ↦ rw e (member-without x y xs n, without-IsDistinct x xs d)
]

pub toggle-IsDistinct : (x : Text) (xs : List Text) → IsDistinct xs → IsDistinct (toggle x xs)
unfolding toggle
toggle-IsDistinct x xs d = elim (Bool-cases (member x xs)) [
  | inl e ↦ rw e (without-IsDistinct x xs d)
  | inr e ↦ rw e (append-IsDistinct x xs e d)
]

pub to_set_from-IsDistinct :
    (seen xs : List Text) → IsDistinct seen → IsDistinct (to_set_from seen xs)
unfolding to_set_from
to_set_from-IsDistinct seen [] d = d
to_set_from-IsDistinct seen (x ∷ xs) d = elim (Bool-cases (member x seen)) [
  | inl e ↦ rw e (to_set_from-IsDistinct seen xs d)
  | inr e ↦ rw e (to_set_from-IsDistinct _ xs (append-IsDistinct x seen e d))
]

-- What is there already adds nothing.
absorbed :
    (x y : Text) (seen : List Text) (b : Bool)
    → member x seen ≡ true
    → (member y seen || b) ≡ (member y seen || (text_eq x y || b))
absorbed x y seen b h = elim (Bool-cases (text_eq x y)) [
  | inl q ↦ rw (subst (λ z. member z seen ≡ true) ((text_eq_iff x y).0 q) h) refl
  | inr q ↦ rw q refl
]

-- A set holds what was in the list.
pub member-to_set_from :
    (y : Text) (seen xs : List Text)
    → member y (to_set_from seen xs) ≡ (member y seen || member y xs)
unfolding member to_set_from
member-to_set_from y seen [] = ground arith
member-to_set_from y seen (x ∷ xs) = elim (Bool-cases (member x seen)) [
  | inl e ↦ rw e (member-to_set_from y seen xs ∙ unfold member in (absorbed x y seen _ e))
  | inr e ↦ rw e (
      member-to_set_from y (seen ++ x ∷ []) xs
      ∙ unfold member in ground (arith, member-append y x seen))
]

pub to_set_from-All :
    (P : Text → Type 0) (seen xs : List Text) → All P seen → All P xs → All P (to_set_from seen xs)
unfolding to_set_from
to_set_from-All P seen [] hs hx = hs
to_set_from-All P seen (x ∷ xs) hs (h, hx) = elim (Bool-cases (member x seen)) [
  | inl e ↦ rw e (to_set_from-All P seen xs hs hx)
  | inr e ↦ rw e (to_set_from-All P _ xs (All-append P seen (x ∷ []) hs (h, tt)) hx)
]
