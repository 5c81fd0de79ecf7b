-- ===== src/DashboardPage/Health.antt =====
-- The health chart shows each counted device in one slice.
use edge_guardian.Base.{
  ℕ, ◌+◌, ◌≤◌, ◌<◌, ◌≡◌, List, [], ◌∷◌, codes, Text, text_eq, text_eq_iff, if◌then◌else◌, filter,
  length, arith, All,
}
use edge_guardian.Api.Devices.{Device}
use edge_guardian.DashboardPage.{count_in, Slice, health_data}

pub sum : List Slice → ℕ
sum [] = 0
sum (s ∷ ss) = s.value + sum ss

-- How much a device counts for a state.
weight : Text → Text → ℕ
weight state s = if text_eq s state then 1 else 0

count_in-cons :
    (state : Text) (d : Device) (ds : List Device)
    → count_in state (d ∷ ds) ≡ weight state d.state + count_in state ds
unfolding count_in filter weight
count_in-cons state d ds = ground arith

weight-one :
    (s : Text)
    → weight (codes "ONLINE") s + weight (codes "DEGRADED") s + weight (codes "OFFLINE") s ≤ 1
unfolding weight
weight-one s = ground (
  arith,
  text_eq_iff s (codes "ONLINE"),
  text_eq_iff s (codes "DEGRADED"),
  text_eq_iff s (codes "OFFLINE"),
)

-- A device is in at most one of the three states, so that the counts stay within the fleet.
pub count_in-le :
    (ds : List Device)
    → count_in (codes "ONLINE") ds + count_in (codes "DEGRADED") ds + count_in (codes "OFFLINE") ds
      ≤ length ds
unfolding count_in filter
count_in-le [] = omega arith
count_in-le (d ∷ ds) = omega (
  arith,
  count_in-cons (codes "ONLINE") d ds,
  count_in-cons (codes "DEGRADED") d ds,
  count_in-cons (codes "OFFLINE") d ds,
  weight-one d.state,
  count_in-le ds,
)

-- The slices of the chart are not empty, and together as large as the three numbers.
pub health_data-sum :
    (online degraded offline : ℕ)
    → (sum (health_data online degraded offline) ≡ online + degraded + offline)
      × All (λ s. 0 < s.value) (health_data online degraded offline)
unfolding health_data filter sum
health_data-sum online degraded offline = ground arith
