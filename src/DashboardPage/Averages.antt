-- ===== src/DashboardPage/Averages.antt =====
-- The average of the fleet lies among what the devices report.
use native.Mathlib.Nat.{le-div_iff_mul-le, div-lt_iff_lt-mul}
use edge_guardian.Base.{
  ℕ, suc, ◌+◌, ◌*◌, ◌≤◌, ◌<◌, ◌≡◌, ◌≢◌, subst, false, List, [], ◌∷◌, length, arith, Option, none,
  some, All, filter, ◌==◌, Option-cases, inl, inr,
}
use edge_guardian.Api.Devices.{Device}
use edge_guardian.DashboardPage.{cpu_of, sum_cpu, reporting, avg_cpu, round_quotient}

-- What the device reports, if it does, is so many thousandths at least and at most.
abbrev pub IsWithin : ℕ → ℕ → Option ℕ → Type 0
IsWithin lo hi none = Unit
IsWithin lo hi (some c) = (lo ≤ c) × (c ≤ hi)

sum_cpu-reporting :
    (lo hi : ℕ) (devices : List Device)
    → All (λ d. IsWithin lo hi (cpu_of d)) devices
    → (lo * length (reporting devices) ≤ sum_cpu devices)
      × (sum_cpu devices ≤ hi * length (reporting devices))
unfolding sum_cpu reporting filter
sum_cpu-reporting lo hi [] h = (omega arith, omega arith)
sum_cpu-reporting lo hi (d ∷ devices) (h, hs) =
    let (least, most) = sum_cpu-reporting lo hi devices hs in
    elim (Option-cases (cpu_of d)) [
      | inl e ↦ rw e (omega (arith, least), omega (arith, most))
      | inr (c, e) ↦ let (l, m) = subst (IsWithin lo hi) e h in rw e (omega arith, omega arith)
    ]

round_quotient-bounds :
    (lo hi s n : ℕ)
    → n ≢ 0
    → (1000 * lo) * n ≤ s
    → s ≤ (1000 * hi) * n
    → (lo ≤ round_quotient s n) × (round_quotient s n ≤ hi)
unfolding round_quotient
round_quotient-bounds lo hi s n h l m =
    let some_n : (n == 0) ≡ false = ground arith in
    let positive : 0 < 2000 * n = omega arith in
    let low =
      (le-div_iff_mul-le {k = 2000 * n} {x = lo} {y = 2 * s + 1000 * n} positive).1 (omega arith) in
    let high =
      (div-lt_iff_lt-mul {k = 2000 * n} {x = 2 * s + 1000 * n} {y = suc hi} positive).1
        (omega arith) in
    rw some_n (low, omega (arith, high))

-- If some device reports its usage, and each that does reports from `lo` to `hi` percent, then the
-- average that is shown, after it is rounded, is from `lo` to `hi` percent too.
pub avg_cpu-bounds :
    (lo hi : ℕ) (devices : List Device)
    → reporting devices ≢ []
    → All (λ d. IsWithin (1000 * lo) (1000 * hi) (cpu_of d)) devices
    → (lo ≤ avg_cpu devices) × (avg_cpu devices ≤ hi)
unfolding avg_cpu
avg_cpu-bounds lo hi devices h w =
    let (least, most) = sum_cpu-reporting (1000 * lo) (1000 * hi) devices w in
    round_quotient-bounds lo hi (sum_cpu devices) (length (reporting devices)) (ground arith) least
      most
