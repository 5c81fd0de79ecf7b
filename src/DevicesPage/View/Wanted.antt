-- ===== src/DevicesPage/View/Wanted.antt =====
-- What the filters and the order of the table ask for.
use edge_guardian.Base.{
  ◌≡◌, ◌⊎◌, ◌↔◌, inl, inr, refl, ap, ap₂, ◌∙◌, Bool, true, false, not, ◌||◌, List, [], ◌∷◌, ◌++◌,
  Text, text_eq, text_eq_iff, includes, starts_with, any, truthy, arith, Bool-cases, ==_iff,
}
use edge_guardian.DevicesPage.{member, is_empty}

-- A text with the other somewhere in it.
abbrev pub Contains : Text → Text → Type 0
Contains text part = (before : Text) × (after : Text) × (text ≡ before ++ (part ++ after))

abbrev pub IsAmong : Text → List Text → Type 0
IsAmong x xs = (before : List Text) × (after : List Text) × (xs ≡ before ++ x ∷ after)

starts_with_sound : (s t : Text) → starts_with s t ≡ true → (after : Text) × (s ≡ t ++ after)
unfolding starts_with
starts_with_sound s [] h = (s, refl)
starts_with_sound [] (d ∷ t) h = absurd cc
starts_with_sound (c ∷ s) (d ∷ t) h =
    let (after, e) = starts_with_sound s t (ground arith) in
    (after, ap₂ ◌∷◌ ((==_iff c d).0 (ground arith)) e)

starts_with-append : (t after : Text) → starts_with (t ++ after) t ≡ true
unfolding starts_with
starts_with-append [] after = refl
starts_with-append (d ∷ t) after = ground (arith, starts_with-append t after)

includes_sound : (s t : Text) → includes s t ≡ true → Contains s t
unfolding includes
includes_sound [] t h = let (after, e) = starts_with_sound [] t h in ([], after, e)
includes_sound (c ∷ s) t h = elim (Bool-cases (starts_with (c ∷ s) t)) [
  | inl z ↦ let (after, e) = starts_with_sound (c ∷ s) t z in ([], after, e)
  | inr z ↦
      let (before, after, e) = includes_sound s t (ground arith) in
      (c ∷ before, after, ap (◌∷◌ c) e)
]

includes-here : (s t : Text) → starts_with s t ≡ true → includes s t ≡ true
unfolding includes
includes-here [] t h = h
includes-here (c ∷ s) t h = ground (arith, h)

includes-append : (before t after : Text) → includes (before ++ (t ++ after)) t ≡ true
unfolding includes
includes-append [] t after = includes-here (t ++ after) t (starts_with-append t after)
includes-append (c ∷ before) t after = ground (arith, includes-append before t after)

pub includes_iff : (s t : Text) → (includes s t ≡ true) ↔ Contains s t
includes_iff s t = (
  includes_sound s t,
  λ (before, after, e). ap (λ x. includes x t) e ∙ includes-append before t after,
)

member_sound : (x : Text) (xs : List Text) → member x xs ≡ true → IsAmong x xs
unfolding member any
member_sound x [] h = absurd cc
member_sound x (y ∷ xs) h = elim (Bool-cases (text_eq y x)) [
  | inl z ↦ ([], xs, ap (λ w. w ∷ xs) ((text_eq_iff y x).0 z))
  | inr z ↦
      let (before, after, e) = member_sound x xs (ground arith) in (y ∷ before, after, ap (◌∷◌ y) e)
]

member-append_cons : (x : Text) (before after : List Text) → member x (before ++ x ∷ after) ≡ true
unfolding member any
member-append_cons x [] after = ground (arith, (text_eq_iff x x).1 refl)
member-append_cons x (y ∷ before) after = ground (arith, member-append_cons x before after)

pub member_iff : (x : Text) (xs : List Text) → (member x xs ≡ true) ↔ IsAmong x xs
member_iff x xs =
    (member_sound x xs, λ (before, after, e). ap (member x) e ∙ member-append_cons x before after)

-- No text is set.
pub unset_iff : (t : Text) → (not (truthy t) ≡ true) ↔ (t ≡ [])
unset_iff [] = (λ h. refl, λ h. refl)
unset_iff (c ∷ t) = (λ h. cc, λ h. cc)

pub is_empty_iff : (xs : List Text) → (is_empty xs ≡ true) ↔ (xs ≡ [])
is_empty_iff [] = (λ h. refl, λ h. refl)
is_empty_iff (x ∷ xs) = (λ h. cc, λ h. cc)

pub or_iff :
    {P Q : Type 0} (a b : Bool) → (a ≡ true) ↔ P → (b ≡ true) ↔ Q → ((a || b) ≡ true) ↔ (P ⊎ Q)
or_iff true b p q = (λ h. inl (p.0 refl), λ h. refl)
or_iff false b p q = (
  λ h. inr (q.0 h),
  λ h. elim h [ inl x ↦ absurd (let z : false ≡ true = p.1 x in cc) | inr y ↦ q.1 y ],
)
