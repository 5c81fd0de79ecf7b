-- ===== src/DevicePage/Overview/Bytes.antt =====
-- The size that is shown is the size, rounded to a tenth of its unit.
use native.Mathlib.Nat.{le-div_iff_mul-le, div-lt_iff_lt-mul, mul-div-le, lt-mul-div-succ}
use edge_guardian.Base.{ℕ, ◌+◌, ◌*◌, ◌≤◌, ◌<◌, ◌≢◌, arith}
use edge_guardian.DevicePage.Overview.{tenths_of}

-- Twenty times the part is within one half of the whole of the tenths that are shown.
pub tenths_of-near :
    (part whole : ℕ)
    → whole ≢ 0
    → (2 * whole * tenths_of part whole ≤ 20 * part + whole)
      × (20 * part + whole < 2 * whole * (tenths_of part whole + 1))
unfolding tenths_of
tenths_of-near part whole h = (
  mul-div-le (20 * part + whole) (2 * whole),
  lt-mul-div-succ (20 * part + whole) {b = 2 * whole} (omega arith),
)

-- In the largest unit that is not larger than the size, from 1.0 to 1024.0 units are shown.
pub tenths_of-bounds :
    (part whole : ℕ)
    → whole ≢ 0
    → whole ≤ part
    → part < 1024 * whole
    → (10 ≤ tenths_of part whole) × (tenths_of part whole ≤ 10240)
unfolding tenths_of
tenths_of-bounds part whole h lo hi =
    let positive : 0 < 2 * whole = omega arith in
    let low =
      (le-div_iff_mul-le {k = 2 * whole} {x = 10} {y = 20 * part + whole} positive).1
        (omega arith) in
    let high =
      (div-lt_iff_lt-mul {k = 2 * whole} {x = 20 * part + whole} {y = 10241} positive).1
        (omega arith) in
    (low, omega (arith, high))
