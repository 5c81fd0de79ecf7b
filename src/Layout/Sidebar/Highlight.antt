-- ===== src/Layout/Sidebar/Highlight.antt =====
-- Which item the sidebar marks, and that the middleware guards its page.
use edge_guardian.Base.{
  ℕ, ◌≤◌, ◌≡◌, ◌≢◌, refl, Bool, true, false, ◌&&◌, ◌||◌, List, [], ◌∷◌, ◌++◌, Text, codes, text_eq,
  text_eq_iff, starts_with, filter, length, all, any, not, arith, ◌==◌, All, Without, map, ap,
  subst, sym, ◌∙◌, if◌then◌else◌, Bool-cases, and_split, inl, inr, ◌⊎◌, Option, none, some,
}
use edge_guardian.Auth.Guards.{
  page_request, is_matched, guarded_words, middleware, redirect, login_url,
}
use edge_guardian.Layout.Sidebar.{NavItem, item, is_active, active_items}

-- The first part of a path that begins with a slash.
pub up_to_slash : Text → Text
up_to_slash [] = []
up_to_slash (c ∷ s) = let rest = c ∷ up_to_slash s in if c == b'/' then [] else rest

pub first_part : Text → Text
first_part [] = []
first_part (c ∷ s) = up_to_slash s

abbrev pub is_rooted : Text → Bool
is_rooted [] = false
is_rooted (c ∷ s) = c == b'/'

is_active-up_to_slash :
    (s w : Text)
    → Without b'/' w
    → (text_eq s w || starts_with s (w ++ b'/' ∷ [])) ≡ text_eq (up_to_slash s) w
unfolding text_eq starts_with up_to_slash
is_active-up_to_slash [] [] h = refl
is_active-up_to_slash [] (d ∷ w) h = refl
is_active-up_to_slash (c ∷ s) [] h = ground arith
is_active-up_to_slash (c ∷ s) (d ∷ w) (h, hs) = ground (arith, is_active-up_to_slash s w hs)

-- An item is marked exactly if the first part of the path is its word.
is_active-first_part :
    (pathname name w : Text)
    → Without b'/' w
    → is_active pathname (item name w) ≡ (is_rooted pathname && text_eq (first_part pathname) w)
unfolding is_active text_eq starts_with first_part up_to_slash
is_active-first_part [] name w h = refl
is_active-first_part (c ∷ s) name w h = elim (Bool-cases (c == b'/')) [
  | inl e ↦ rw e (is_active-up_to_slash s w h)
  | inr e ↦ rw e refl
]

starts_with-up_to_slash : (s w : Text) → text_eq (up_to_slash s) w ≡ true → starts_with s w ≡ true
unfolding text_eq starts_with up_to_slash
starts_with-up_to_slash s [] h = ground arith
starts_with-up_to_slash [] (d ∷ w) h = cc
starts_with-up_to_slash (c ∷ s) (d ∷ w) h = ground (arith, starts_with-up_to_slash s w)

starts_with-first_part :
    (pathname w : Text)
    → (is_rooted pathname && text_eq (first_part pathname) w) ≡ true
    → starts_with pathname (b'/' ∷ w) ≡ true
unfolding starts_with first_part
starts_with-first_part [] w h = cc
starts_with-first_part (c ∷ s) w h =
    let (hc, hs) = and_split (c == b'/') (text_eq (up_to_slash s) w) h in
    ground (arith, hc, starts_with-up_to_slash s w hs)

Without-all : (sep : ℕ) (s : Text) → all (λ c. not (c == sep)) s ≡ true → Without sep s
unfolding all
Without-all sep [] h = tt
Without-all sep (c ∷ s) h =
    let (hc, hs) = and_split (not (c == sep)) (all (λ c. not (c == sep)) s) h in
    (ground (arith, hc), Without-all sep s hs)

-- No two of the words are the same.
distinct : List Text → Bool
distinct [] = true
distinct (w ∷ ws) = not (any (text_eq w) ws) && distinct ws

filter-text_eq_none :
    (f : Text) (ws : List Text) → any (text_eq f) ws ≡ false → filter (text_eq f) ws ≡ []
unfolding filter any
filter-text_eq_none f [] h = refl
filter-text_eq_none f (w ∷ ws) h = ground (arith, filter-text_eq_none f ws)

length-filter-distinct :
    (f : Text) (ws : List Text) → distinct ws ≡ true → length (filter (text_eq f) ws) ≤ 1
unfolding filter distinct
length-filter-distinct f [] h = omega arith
length-filter-distinct f (w ∷ ws) h =
    let (hw, hs) = and_split (not (any (text_eq w) ws)) (distinct ws) h in
    elim (Bool-cases (text_eq f w)) [
      | inl e ↦
          let f_none = filter-text_eq_none f ws (rw ((text_eq_iff f w).0 e) (ground (arith, hw))) in
          rw e (omega (arith, ap length f_none))
      | inr e ↦ rw e (length-filter-distinct f ws hs)
    ]

-- The names and the words of a list of items.
items : List (Text × Text) → List NavItem
items xs = map (λ x. item x.0 x.1) xs

length-filter-items :
    (pathname : Text) (xs : List (Text × Text))
    → All (λ x. Without b'/' x.1) xs
    → length (filter (is_active pathname) (items xs))
      ≤ length (filter (text_eq (first_part pathname)) (map (λ x. x.1) xs))
unfolding filter items
length-filter-items pathname [] h = omega arith
length-filter-items pathname ((name, w) ∷ xs) (hw, hs) =
    ground (arith, is_active-first_part pathname name w hw, length-filter-items pathname xs hs)

any-text_eq :
    (q : Text → Bool) (w : Text) (ws : List Text)
    → any (text_eq w) ws ≡ true
    → q w ≡ true
    → any q ws ≡ true
unfolding any
any-text_eq q w [] h hq = cc
any-text_eq q w (v ∷ ws) h hq = elim (Bool-cases (text_eq w v)) [
  | inl e ↦ rw (subst (λ u. q u ≡ true) ((text_eq_iff w v).0 e) hq) refl
  | inr e ↦
      let rest = any-text_eq q w ws (sym (ap (λ b. b || any (text_eq w) ws) e) ∙ h) hq in
      ground (arith, rest)
]

is_active-is_matched :
    (pathname name w : Text)
    → Without b'/' w
    → any (text_eq w) guarded_words ≡ true
    → is_active pathname (item name w) ≡ true
    → is_matched pathname ≡ true
unfolding is_matched
is_active-is_matched pathname name w hw member h =
    any-text_eq (λ word. starts_with pathname (b'/' ∷ word)) w guarded_words member
      (starts_with-first_part pathname w (sym (is_active-first_part pathname name w hw) ∙ h))

filter-none-or :
    {Q : Type 0} (p : NavItem → Bool) (xs : List (Text × Text))
    → All (λ x. p (item x.0 x.1) ≡ true → Q) xs
    → (filter p (items xs) ≡ []) ⊎ Q
unfolding filter items
filter-none-or p [] h = inl refl
filter-none-or p ((name, w) ∷ xs) (hx, hs) = elim (Bool-cases (p (item name w))) [
  | inl e ↦ inr (hx e)
  | inr e ↦ rw e (filter-none-or p xs hs)
]

page_request_unsigned :
    (S : Type 0) (pathname url origin : Text) (skip : Option Text)
    → skip ≢ some (codes "true")
    → is_matched pathname ≡ true
    → page_request {S = S} skip origin pathname url none ≡ redirect (login_url origin url)
unfolding page_request middleware
page_request_unsigned S pathname url origin none h m = rw m refl
page_request_unsigned S pathname url origin (some v) h m =
    elim (Bool-cases (text_eq v (codes "true"))) [
      | inl e ↦ absurd (h (ap some ((text_eq_iff v (codes "true")).0 e)))
      | inr e ↦ rw (m, e) refl
    ]

is_guarded : Text × Text → Bool
is_guarded x = all (λ c. not (c == b'/')) x.1 && any (text_eq x.1) guarded_words

is_matched-active :
    (pathname : Text) (xs : List (Text × Text))
    → all is_guarded xs ≡ true
    → All (λ x. is_active pathname (item x.0 x.1) ≡ true → is_matched pathname ≡ true) xs
unfolding all is_guarded
is_matched-active pathname [] h = tt
is_matched-active pathname ((name, w) ∷ xs) h =
    let (hx, hs) = and_split (is_guarded (name, w)) (all is_guarded xs) h in
    let (hw, hm) = and_split (all (λ c. not (c == b'/')) w) (any (text_eq w) guarded_words) hx in
    (
      is_active-is_matched pathname name w (Without-all b'/' w hw) hm,
      is_matched-active pathname xs hs,
    )

Without-guarded :
    (xs : List (Text × Text)) → all is_guarded xs ≡ true → All (λ x. Without b'/' x.1) xs
unfolding all is_guarded
Without-guarded [] h = tt
Without-guarded ((name, w) ∷ xs) h =
    let (hx, hs) = and_split (is_guarded (name, w)) (all is_guarded xs) h in
    let (hw, hm) = and_split (all (λ c. not (c == b'/')) w) (any (text_eq w) guarded_words) hx in
    (Without-all b'/' w hw, Without-guarded xs hs)

abbrev pairs : List (Text × Text)
pairs =
    (codes "Dashboard", codes "dashboard")
    ∷ (codes "Devices", codes "devices")
    ∷ (codes "Certificates", codes "certificates")
    ∷ (codes "Settings", codes "settings")
    ∷ (codes "Audit Log", codes "audit")
    ∷ []

guarded : all is_guarded pairs ≡ true
unfolding all is_guarded any text_eq
guarded = refl

distinct_pairs : distinct (map (λ x. x.1) pairs) ≡ true
unfolding distinct any text_eq
distinct_pairs = refl

-- Whatever the path, the sidebar marks at most one item, and if it marks one, no request for the page
-- passes without a session, unless the check is switched off.
pub active_items-page_request :
    (S : Type 0) (pathname url origin : Text) (skip : Option Text)
    → skip ≢ some (codes "true")
    → (length (active_items pathname) ≤ 1)
      × ((active_items pathname ≡ [])
          ⊎ (page_request {S = S} skip origin pathname url none ≡ redirect (login_url origin url)))
unfolding active_items items
active_items-page_request S pathname url origin skip h = (
  omega (
    arith,
    length-filter-items pathname pairs (Without-guarded pairs guarded),
    length-filter-distinct (first_part pathname) (map (λ x. x.1) pairs) distinct_pairs,
  ),
  elim (filter-none-or (is_active pathname) pairs (is_matched-active pathname pairs guarded)) [
    | inl e ↦ inl e
    | inr m ↦ inr (page_request_unsigned S pathname url origin skip h m)
  ],
)
