-- ===== src/Layout/Breadcrumbs.antt =====
-- ui/components/breadcrumbs.tsx: the trail of links that leads to the page at hand.
pub mod Links
use edge_guardian.Base.{
  ℕ, suc, ◌-◌, ◌==◌, Bool, Option, none, some, List, [], ◌∷◌, Text, codes, truthy, text_eq,
  if◌then◌else◌, length, take, filter, lookup, split_from, join, any, map,
}

abbrev pub label_map : List (Text × Text)
label_map =
    (codes "dashboard", codes "Dashboard")
    ∷ (codes "devices", codes "Devices")
    ∷ (codes "audit", codes "Audit Log")
    ∷ (codes "settings", codes "Settings")
    ∷ (codes "logs", codes "Logs")
    ∷ (codes "manifest", codes "Manifest")
    ∷ []

-- `pathname.split("/").filter(Boolean)`
unfoldable pub segments : Text → List Text
unfolding filter split_from
segments pathname = filter truthy (split_from b'/' [] pathname)

-- The functions that every object inherits, which `labelMap[segment]` finds too, and the name under which
-- it finds the object they come from.
abbrev pub inherited_functions : List Text
inherited_functions =
    codes "constructor"
    ∷ codes "hasOwnProperty"
    ∷ codes "isPrototypeOf"
    ∷ codes "propertyIsEnumerable"
    ∷ codes "toLocaleString"
    ∷ codes "toString"
    ∷ codes "valueOf"
    ∷ codes "__defineGetter__"
    ∷ codes "__defineSetter__"
    ∷ codes "__lookupGetter__"
    ∷ codes "__lookupSetter__"
    ∷ []

abbrev pub prototype_name : Text
prototype_name = codes "__proto__"

pub record Crumb : Type 0 where
  pub href : Text
  pub label : Text
  pub is_last : Bool

-- What is drawn of a crumb: a link, or a word without one.
pub data Step : Type 0 where
  link : (href label : Text) → Step
  word : (label : Text) → Step

-- The last crumb is no link.
abbrev pub draw_crumb : Crumb → Step
draw_crumb c = if c.is_last then word c.label else link c.href c.label

pub data Trail : Type 0 where
  home : Trail
  trail : List Step → Trail

-- Only the word "Dashboard".
unfoldable pub is_home : List Text → Bool
unfolding text_eq
is_home [] = Bool.true
is_home (s ∷ []) = text_eq s (codes "dashboard")
is_home (s ∷ t ∷ rest) = Bool.false

-- `"/" + segments.slice(0, i + 1).join("/")`
unfoldable pub href_at : List Text → ℕ → Text
unfolding take join
href_at segs i = b'/' ∷ join b'/' (take (suc i) segs)

-- `decodeURIComponent`, which throws on a malformed escape. React throws on an object, and draws nothing
-- of a function.
module _ (decode : Text → Option Text) where
  unfoldable pub label_of : Text → Option Text
  unfolding lookup any text_eq
  label_of segment = elim (lookup segment label_map) [
    | some l ↦ some l
    | none ↦
        if text_eq segment prototype_name
        then none
        else if any (λ name. text_eq name segment) inherited_functions
        then some []
        else decode segment
  ]

  unfoldable pub crumb_at : List Text → ℕ → Text → Option Crumb
  unfolding label_of href_at
  crumb_at segs i segment = elim (label_of segment) [
    | none ↦ none
    | some l ↦ some record { href = href_at segs i; label = l; is_last = i == (length segs - 1) }
  ]

  -- `rest` is what `map` has still to go through, from the place `i`.
  unfoldable pub crumbs_from : List Text → ℕ → List Text → Option (List Crumb)
  unfolding crumb_at
  crumbs_from segs i [] = some []
  crumbs_from segs i (segment ∷ rest) = elim (crumb_at segs i segment) [
    | none ↦ none
    | some c ↦ elim (crumbs_from segs (suc i) rest) [ none ↦ none | some cs ↦ some (c ∷ cs) ]
  ]

  -- None if the component throws.
  unfoldable pub breadcrumbs : Text → Option Trail
  unfolding segments is_home crumbs_from
  breadcrumbs pathname =
      if is_home (segments pathname)
      then some home
      else (elim (crumbs_from (segments pathname) 0 (segments pathname)) [
        | none ↦ none
        | some cs ↦ some (trail (link (codes "/dashboard") (codes "Dashboard") ∷ map draw_crumb cs))
      ])
