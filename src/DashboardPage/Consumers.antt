-- ===== src/DashboardPage/Consumers.antt =====
-- The bars of the utilization chart are those of the busiest devices.
use mathlib.Core.List.{Perm}
use edge_guardian.Base.{
  ℕ, min, ap, ◌∙◌, ◌≤◌, ◌≡◌, subst, sym, false, List, [], ◌∷◌, ◌++◌, length, take, drop, arith, All,
  get_or, take-append-drop, length-take,
}
use edge_guardian.Api.Devices.{Device}
use edge_guardian.Sorting.{IsConsistent, is_gt, sort}
use edge_guardian.Sorting.Laws.{IsSorted, sort-perm, sort-IsSorted, length-sort}
use edge_guardian.DashboardPage.{cpu_of, reporting, busier, top_consumers}

-- The usage of a device, where none counts as nothing.
abbrev pub usage : Device → ℕ
usage d = get_or (cpu_of d) 0

busier-IsConsistent : IsConsistent busier
busier-IsConsistent = record { flips = λ a b. ground arith; transitive = λ a b c h k. ground arith }

-- None of the second devices is busier than one of the first.
abbrev pub IsAbove : List Device → List Device → Type 0
IsAbove top rest = All (λ x. All (λ y. usage y ≤ usage x) rest) top

usage_of_IsSorted :
    (x : Device) (ys : List Device)
    → All (λ y. is_gt (busier x y) ≡ false) ys
    → All (λ y. usage y ≤ usage x) ys
usage_of_IsSorted x [] h = tt
usage_of_IsSorted x (y ∷ ys) (h, hs) = (ground arith, usage_of_IsSorted x ys hs)

All-right : (P : Device → Type 0) (xs ys : List Device) → All P (xs ++ ys) → All P ys
All-right P [] ys h = h
All-right P (x ∷ xs) ys (h, hs) = All-right P xs ys hs

split-IsAbove : (top rest : List Device) → IsSorted busier (top ++ rest) → IsAbove top rest
split-IsAbove [] rest h = tt
split-IsAbove (x ∷ top) rest (h, hs) = (
  usage_of_IsSorted x rest (All-right (λ y. is_gt (busier x y) ≡ false) top rest h),
  split-IsAbove top rest hs,
)

-- The chart shows at most five devices; with the devices it leaves out, they are all that report their
-- usage, and none that it leaves out is busier than one that it shows.
pub top_consumers-IsAbove :
    (devices : List Device)
    → (rest : List Device) × Perm (top_consumers devices ++ rest) (reporting devices)
      × IsAbove (top_consumers devices) rest
      × (length (top_consumers devices) ≡ min 5 (length (reporting devices)))
unfolding top_consumers
top_consumers-IsAbove devices =
    let sorted = sort busier (reporting devices) in
    let whole = take-append-drop 5 sorted in
    (
      drop 5 sorted,
      subst (λ xs. Perm xs (reporting devices)) (sym whole) (sort-perm busier (reporting devices)),
      split-IsAbove (take 5 sorted) (drop 5 sorted) (
          subst (IsSorted busier) (sym whole)
            (sort-IsSorted busier busier-IsConsistent (reporting devices))),
      length-take 5 sorted ∙ ap (min 5) (length-sort busier (reporting devices)),
    )
