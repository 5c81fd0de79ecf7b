-- ===== src/Base/Dict.antt =====
-- `Map` and plain objects keyed by strings: association lists in the order of insertion.
use mathlib.Core.Path.{◌≡◌, refl}
use mathlib.Core.Bool.{false}
use mathlib.Core.List.{List, [], ◌∷◌}
use mathlib.Core.Option.{Option, none, some}
use native.Mathlib.Omega.{arith}
use edge_guardian.Base.Tests.{if◌then◌else◌}
use edge_guardian.Base.Texts.{Text, text_eq, text_eq_iff, text_eq_refl}

module _ {ℓ} {V : Type ℓ} where
  unfoldable pub lookup : Text → List (Text × V) → Option V
  lookup k [] = none
  lookup k ((j, v) ∷ m) = if text_eq j k then some v else lookup k m

  -- An existing key keeps its place, a new one goes last.
  unfoldable pub insert : Text → V → List (Text × V) → List (Text × V)
  insert k v [] = (k, v) ∷ []
  insert k v ((j, w) ∷ m) = if text_eq j k then (k, v) ∷ m else (j, w) ∷ insert k v m

  -- `{ ...m, ...n }`
  unfoldable pub spread : List (Text × V) → List (Text × V) → List (Text × V)
  spread m [] = m
  spread m ((k, v) ∷ n) = spread (insert k v m) n

  pub lookup-insert :
      (k j : Text) (v : V) (m : List (Text × V))
      → lookup j (insert k v m) ≡ (if text_eq k j then some v else lookup j m)
  unfolding lookup insert
  lookup-insert k j v [] = refl
  lookup-insert k j v ((i, w) ∷ m) =
      ground (arith, text_eq_iff k j, text_eq_iff i k, text_eq_iff i j, lookup-insert k j v m)

  pub lookup-insert_self :
      (k : Text) (v : V) (m : List (Text × V)) → lookup k (insert k v m) ≡ some v
  lookup-insert_self k v m = rw (lookup-insert, text_eq_refl)

  pub lookup-insert_ne :
      (k j : Text) (v : V) (m : List (Text × V))
      → text_eq k j ≡ false
      → lookup j (insert k v m) ≡ lookup j m
  lookup-insert_ne k j v m h = rw (lookup-insert, h)

  -- The later of the two objects wins; it is taken with one binding for each key.
  pub lookup-spread :
      (j : Text) (m n : List (Text × V)) → lookup j n ≡ none → lookup j (spread m n) ≡ lookup j m
  unfolding lookup spread
  lookup-spread j m [] h = refl
  lookup-spread j m ((k, v) ∷ n) h =
      ground (arith, lookup-spread j (insert k v m) n, lookup-insert k j v m)

  -- `delete m[k]`
  unfoldable pub remove : Text → List (Text × V) → List (Text × V)
  remove k [] = []
  remove k ((j, v) ∷ m) = let rest = remove k m in if text_eq j k then rest else (j, v) ∷ rest

  pub lookup-remove :
      (k j : Text) (m : List (Text × V))
      → lookup j (remove k m) ≡ (if text_eq k j then none else lookup j m)
  unfolding lookup remove
  lookup-remove k j [] = ground arith
  lookup-remove k j ((i, w) ∷ m) =
      ground (arith, text_eq_iff k j, text_eq_iff i k, text_eq_iff i j, lookup-remove k j m)
