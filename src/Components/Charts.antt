-- ===== src/Components/Charts.antt =====
-- ui/components/sparkline.tsx and device-resource-chart.tsx: the data of the charts, and the texts at
-- their axes.
use edge_guardian.Base.{
  ℕ, zero, suc, ◌+◌, ◌≡◌, refl, ap, Option, none, some, List, [], ◌∷◌, map, get_elem?, Text, codes,
  get_or, arith,
}

-- `data.map((value, index) => ({ index, value }))`
pub record SparkPoint {ℓ} (A : Type ℓ) : Type ℓ where
  pub index : ℕ
  pub value : A

unfoldable pub spark_from {ℓ} : {A : Type ℓ} → ℕ → List A → List (SparkPoint A)
spark_from i [] = []
spark_from i (v ∷ vs) = record { index = i; value = v } ∷ spark_from (suc i) vs

unfoldable pub spark_data {ℓ} : {A : Type ℓ} → List A → List (SparkPoint A)
unfolding spark_from
spark_data values = spark_from 0 values

pub data AxisFormat : Type 0 where
  hour day : AxisFormat

-- `format` of date-fns, with the pattern and the time.
module _ (format : (pattern iso : Text) → Text) where
  unfoldable pub format_axis_time : Option AxisFormat → Text → Text
  format_axis_time axis_format iso = elim (get_or axis_format hour) [
    | day ↦ format (codes "MMM d HH:mm") iso
    | hour ↦ format (codes "HH:mm") iso
  ]

  unfoldable pub format_tooltip_time : Text → Text
  format_tooltip_time iso = format (codes "MMM d, yyyy HH:mm:ss") iso

map-spark_from {ℓ} :
    {A : Type ℓ} (i : ℕ) (values : List A) → map (λ p. p.value) (spark_from i values) ≡ values
unfolding spark_from
map-spark_from i [] = refl
map-spark_from i (v ∷ vs) = ap (◌∷◌ v) (map-spark_from (suc i) vs)

-- The place of a point that is there.
index_or {ℓ} : {A : Type ℓ} → SparkPoint A → Option (SparkPoint A) → ℕ
index_or p none = p.index
index_or p (some q) = q.index

some-index {ℓ} : {A : Type ℓ} (p q : SparkPoint A) → some p ≡ some q → p.index ≡ q.index
unfolding index_or
some-index p q h = ap (λ o. index_or p o) h

get_elem?-spark_from {ℓ} :
    {A : Type ℓ} (i n : ℕ) (values : List A) (p : SparkPoint A)
    → get_elem? (spark_from i values) n ≡ some p
    → p.index ≡ i + n
unfolding spark_from get_elem?
get_elem?-spark_from i n [] p h = cc
get_elem?-spark_from i zero (v ∷ vs) p h = omega (arith, some-index _ p h)
get_elem?-spark_from i (suc n) (v ∷ vs) p h = omega (arith, get_elem?-spark_from (suc i) n vs p h)

-- The line of a sparkline has the values in their order, each at its place.
pub spark_data_lem {ℓ} :
    {A : Type ℓ} (values : List A)
    → (map (λ p. p.value) (spark_data values) ≡ values)
      × ((n : ℕ) (p : SparkPoint A) → get_elem? (spark_data values) n ≡ some p → p.index ≡ n)
unfolding spark_data
spark_data_lem values =
    (map-spark_from 0 values, λ n p h. omega (arith, get_elem?-spark_from 0 n values p h))
