-- ===== src/Table.antt =====
-- The body of a table of ui/app/(dashboard): rows of skeletons, an empty state, or the rows of the data.
use edge_guardian.Base.{ℕ, Bool, Option, none, some, List, [], ◌∷◌, map, Text, if◌then◌else◌}

-- What the body of a table shows.
pub data TableView {ℓ} (R : Type ℓ) : Type ℓ where
  skeleton : (rows cells : ℕ) → TableView R
  nothing : (title description : Text) → TableView R
  table_rows : List R → TableView R

-- `loading ? … : !data || data.length === 0 ? … : data.map(…)`
unfoldable pub table_view {ℓ κ} :
    {A : Type ℓ} {R : Type κ}
    → (A → R)
    → TableView R
    → TableView R
    → Bool
    → Option (List A)
    → TableView R
table_view row waiting empty is_loading entries = if is_loading then waiting else (elim entries [
  | none ↦ empty
  | some es ↦ elim es [ [] ↦ empty | e ∷ rest ↦ table_rows (map row (e ∷ rest)) ]
])
