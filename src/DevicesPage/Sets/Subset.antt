-- ===== src/DevicesPage/Sets/Subset.antt =====
-- The set that a list stands for: a quotient that forgets the order of the entries and how often each
-- stands there.
use mathlib.Core.Bool.{Bool-set}
use mathlib.Core.Quot
use mathlib.Core.Quot.{Quot, Quot-set}
use edge_guardian.Base.{
  ◌≡◌, refl, ap, ◌∙◌, sym, subst, Bool, true, false, not, ◌||◌, List, [], ◌∷◌, Text, text_eq,
  text_eq_iff, Bool-cases, inl, inr, arith, if◌then◌else◌,
}
use edge_guardian.DevicesPage.{member, without, toggle}
use edge_guardian.DevicesPage.Sets.{member-append}

abbrev pub SameMembers : List Text → List Text → Type 0
SameMembers xs ys = (x : Text) → member x xs ≡ member x ys

abbrev pub Subset : Type 0
Subset = Quot SameMembers

unfoldable pub set_of : List Text → Subset
set_of xs = Quot.mk xs

unfoldable pub has : Text → Subset → Bool
has x = Quot.lift Bool-set (member x) (λ xs ys h. h x)

-- A set is nothing but its members.
pub has_ext : (s t : Subset) → ((x : Text) → has x s ≡ has x t) → s ≡ t
unfolding has
has_ext =
    Quot.ind (λ s f g i t h. Quot-set _ _ (f t h) (g t h) i)
      (λ xs. Quot.ind (λ t f g i h. Quot-set _ _ (f h) (g h) i) (λ ys h. Quot.sound h))

member-without_same : (x : Text) (xs : List Text) → member x (without x xs) ≡ false
unfolding member without
member-without_same x [] = refl
member-without_same x (z ∷ xs) = ground (arith, member-without_same x xs)

member-without_other :
    (x y : Text) (xs : List Text) → text_eq x y ≡ false → member y (without x xs) ≡ member y xs
unfolding member without
member-without_other x y [] h = refl
member-without_other x y (z ∷ xs) h = elim (Bool-cases (text_eq z x)) [
  | inl e ↦
      let away : text_eq z y ≡ false =
        subst (λ w. text_eq w y ≡ false) (sym ((text_eq_iff z x).0 e)) h in
      rw (e, away) (member-without_other x y xs h)
  | inr e ↦ rw e (ap (◌||◌ (text_eq z y)) (member-without_other x y xs h))
]

-- `b`, turned over if `c`.
abbrev pub flip_if : (c b : Bool) → Bool
flip_if c b = if c then not b else b

member-toggle_same : (x : Text) (xs : List Text) → member x (toggle x xs) ≡ not (member x xs)
unfolding toggle
member-toggle_same x xs = elim (Bool-cases (member x xs)) [
  | inl e ↦ rw e (member-without_same x xs)
  | inr e ↦
      let here : text_eq x x ≡ true = (text_eq_iff x x).1 refl in
      rw e (member-append x x xs ∙ rw (here, e) refl)
]

member-toggle_other :
    (x y : Text) (xs : List Text) → text_eq x y ≡ false → member y (toggle x xs) ≡ member y xs
unfolding toggle
member-toggle_other x y xs h = elim (Bool-cases (member x xs)) [
  | inl e ↦ rw e (member-without_other x y xs h)
  | inr e ↦ rw e (member-append y x xs ∙ ground arith)
]

-- The list after a click holds the entry exactly if it did not before, and all others as before.
pub member-toggle :
    (x y : Text) (xs : List Text) → member y (toggle x xs) ≡ flip_if (text_eq x y) (member y xs)
member-toggle x y xs = elim (Bool-cases (text_eq x y)) [
  | inl q ↦ rw q (
      subst (λ z. member z (toggle x xs) ≡ not (member z xs)) ((text_eq_iff x y).0 q)
        (member-toggle_same x xs))
  | inr q ↦ rw q (member-toggle_other x y xs q)
]

-- A click on an entry, of the set.
unfoldable pub flip : Text → Subset → Subset
flip x =
    Quot.lift Quot-set (λ xs. Quot.mk (toggle x xs))
      (λ xs ys h.
        Quot.sound (λ y.
          member-toggle x y xs ∙ ap (flip_if (text_eq x y)) (h y) ∙ sym (member-toggle x y ys)))

pub has-flip : (x y : Text) (s : Subset) → has y (flip x s) ≡ flip_if (text_eq x y) (has y s)
unfolding has flip
has-flip x y = Quot.ind (λ s. Bool-set _ _) (λ xs. member-toggle x y xs)
