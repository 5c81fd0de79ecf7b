-- ===== src/Landing/Demo/Playback.antt =====
-- All lines appear, each after those before it.
use edge_guardian.Base.{
  ℕ, suc, ◌+◌, ◌≤◌, ◌<◌, ◌≡◌, refl, List, [], ◌∷◌, length, leb, true, false, arith, Bool-cases, inl,
  inr,
}
use edge_guardian.Landing.Demo.{TerminalLine, delay, schedule, run_timers, visible_count_at}

pub total : List TerminalLine → ℕ
total [] = 0
total (l ∷ lines) = delay l + total lines

run_timers-late :
    (now c i count : ℕ) (lines : List TerminalLine)
    → now < c
    → run_timers now count (schedule c i lines) ≡ count
unfolding run_timers schedule
run_timers-late now c i count [] h = refl
run_timers-late now c i count (l ∷ lines) h =
    let late : leb (c + delay l) now ≡ false = ground arith in
    rw (run_timers, late) (run_timers-late now (c + delay l) (suc i) count lines (omega arith))

run_timers-bounds :
    (now c i : ℕ) (lines : List TerminalLine)
    → (i ≤ run_timers now i (schedule c i lines))
      × (run_timers now i (schedule c i lines) ≤ i + length lines)
unfolding run_timers schedule
run_timers-bounds now c i [] = (omega arith, omega arith)
run_timers-bounds now c i (l ∷ lines) = elim (Bool-cases (leb (c + delay l) now)) [
  | inl e ↦
      let (lo, hi) = run_timers-bounds now (c + delay l) (suc i) lines in
      rw (run_timers, e) (omega arith, omega arith)
  | inr e ↦
      let same = run_timers-late now (c + delay l) (suc i) i lines (ground arith) in
      rw (run_timers, e, same) (omega arith, omega arith)
]

run_timers_mono :
    (now after c i : ℕ) (lines : List TerminalLine)
    → now ≤ after
    → run_timers now i (schedule c i lines) ≤ run_timers after i (schedule c i lines)
unfolding run_timers schedule
run_timers_mono now after c i [] h = omega arith
run_timers_mono now after c i (l ∷ lines) h = elim (Bool-cases (leb (c + delay l) now)) [
  | inl e ↦
      let sooner : leb (c + delay l) after ≡ true = ground arith in
      rw (run_timers, e, sooner) (run_timers_mono now after (c + delay l) (suc i) lines h)
  | inr e ↦
      let same = run_timers-late now (c + delay l) (suc i) i lines (ground arith) in
      let bounds = run_timers-bounds after c i (l ∷ lines) in rw (run_timers, e, same) bounds.0
]

run_timers-total :
    (now c i : ℕ) (lines : List TerminalLine)
    → c + total lines ≤ now
    → run_timers now i (schedule c i lines) ≡ i + length lines
unfolding run_timers schedule total
run_timers-total now c i [] h = omega arith
run_timers-total now c i (l ∷ lines) h =
    let early : leb (c + delay l) now ≡ true = ground arith in
    rw (run_timers, early)
      (omega (arith, run_timers-total now (c + delay l) (suc i) lines (omega arith)))

-- Once the section has come into view, a line that is visible stays so; and all lines are visible as
-- soon as 400 ms and their delays have passed.
pub visible_count_at-total :
    (now after : ℕ) (lines : List TerminalLine)
    → now ≤ after
    → 400 + total lines ≤ after
    → (visible_count_at now lines ≤ visible_count_at after lines)
      × (visible_count_at after lines ≡ length lines)
unfolding visible_count_at
visible_count_at-total now after lines h t =
    (run_timers_mono now after 400 0 lines h, omega (arith, run_timers-total after 400 0 lines t))
