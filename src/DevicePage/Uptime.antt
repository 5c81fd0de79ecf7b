-- ===== src/DevicePage/Uptime.antt =====
-- The uptime that is shown is the uptime, rounded down to the smaller unit.
use edge_guardian.Base.{
  ℕ, ◌+◌, ◌*◌, ◌/◌, ◌%◌, ◌<◌, ◌≡◌, ◌⊎◌, inl, inr, refl, ◌++◌, codes, ltb, arith, Bool-cases,
}
use edge_guardian.Decimal.{to_string}
use edge_guardian.DevicePage.{format_uptime}

-- The text is a number of days and hours that are the whole hours of the uptime, or, below a day, a
-- number of hours and minutes that are its whole minutes; the second number is always one that the
-- first could not take in.
pub format_uptime_lem :
    (seconds : ℕ)
    → ((d : ℕ) × (h : ℕ) × (format_uptime seconds
          ≡ to_string d ++ codes "d " ++ to_string h ++ codes "h")
        × (d * 24 + h ≡ seconds / 3600)
        × (h < 24)
        × (0 < d))
      ⊎ ((h : ℕ) × (m : ℕ) × (format_uptime seconds
            ≡ to_string h ++ codes "h " ++ to_string m ++ codes "m")
          × (h * 60 + m ≡ seconds / 60)
          × (m < 60)
          × (h < 24))
unfolding format_uptime
format_uptime_lem seconds = elim (Bool-cases (ltb 0 (seconds / 86400))) [
  | inl e ↦
      inl
        (seconds / 86400, seconds % 86400 / 3600, rw e refl, omega arith, omega arith, ground arith)
  | inr e ↦ inr (
    seconds % 86400 / 3600,
    seconds % 3600 / 60,
    rw e refl,
    ground arith,
    omega arith,
    omega arith,
  )
]
