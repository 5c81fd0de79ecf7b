-- ===== src/Layout/Breadcrumbs/Links.antt =====
-- Where the links of the trail lead.
use edge_guardian.Base.{
  text_eq, Bool, false, ℕ, suc, ◌≡◌, true, Option, List, [], ◌∷◌, map, Text, truthy, Without,
  is_some,
}
use edge_guardian.Layout.Breadcrumbs.{prototype_name, href_at}

-- The nonempty beginnings of a list, the shortest first.
pub prefixes {ℓ} : {A : Type ℓ} → List A → List (List A)
prefixes [] = []
prefixes (x ∷ xs) = (x ∷ []) ∷ map (◌∷◌ x) (prefixes xs)

abbrev Segment : Text → Type 0
Segment s = Without b'/' s × (truthy s ≡ true)

-- The addresses of the crumbs, from the place `i` on.
hrefs : List Text → ℕ → List Text → List Text
hrefs segs i [] = []
hrefs segs i (segment ∷ rest) = href_at segs i ∷ hrefs segs (suc i) rest

-- A segment that can be shown: its escapes are well formed, and it is not the name of the prototype.
abbrev pub IsNameable : (Text → Option Text) → Text → Type 0
IsNameable decode s = (is_some (decode s) ≡ true) × (text_eq s prototype_name ≡ false)

is_nil : List Text → Bool
is_nil [] = true
is_nil (s ∷ rest) = false

-- For each segment, whether it is the last.
pub last_only : List Text → List Bool
unfolding is_nil
last_only [] = []
last_only (s ∷ rest) = is_nil rest ∷ last_only rest
