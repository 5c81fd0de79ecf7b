-- ===== src/History.antt =====
-- ui/lib/hooks/use-polling-history.ts: the last values of each polled metric. A value is a
-- JavaScript number; the numbers and `isNaN` are parameters.
pub mod Window
use edge_guardian.Base.{
  ℕ, ◌-◌, Bool, Option, none, some, List, [], ◌∷◌, ◌++◌, Text, ltb, if◌then◌else◌, length, drop,
  get_or, lookup, insert,
}

-- `MAX_POINTS`
abbrev pub max_points : ℕ
max_points = 30

module _ {ℓ} {V : Type ℓ} (is_nan : V → Bool) where
  -- `arr.push(value)`, and the cut at the front if there are too many.
  unfoldable pub push_value : ℕ → List V → V → List V
  push_value most arr value =
      let longer = arr ++ value ∷ [] in
      if ltb most (length longer) then drop (length longer - most) longer else longer

  -- `get`
  unfoldable pub get : Text → List (Text × List V) → List V
  get key history = get_or (lookup key history) []

  -- `push`; null and undefined are `none`
  unfoldable pub push : ℕ → Text → Option V → List (Text × List V) → List (Text × List V)
  unfolding push_value get
  push most key none history = history
  push most key (some value) history =
      if is_nan value then history else insert key (push_value most (get key history) value) history
