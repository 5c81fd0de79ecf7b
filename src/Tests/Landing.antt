-- ===== src/Tests/Landing.antt =====
-- The rows of the landing page at concrete inputs.
use edge_guardian.Base.{
  ℕ, ◌+◌, ◌*◌, ◌/◌, ◌≤◌, ◌≡◌, refl, List, [], ◌∷◌, arith, false, true, Bool, all, filter, any,
  text_eq, length, lookup, is_some, some,
}
use native.Mathlib.Nat.{mul-le-mul_left, mul-le-mul_right}
use edge_guardian.Landing.Marquee.Motion.{
  right, Units, start_row, RowEvent, frame, frame_move, mouse_enter, in_view, run_row,
}
use edge_guardian.Landing.Marquee.Motion.Place.{IsAt, IsSmooth, way_of, run_row-IsAt}
use edge_guardian.Landing.Reveal.{ObserverEntry, contains, observe_all, on_calls}
use edge_guardian.Landing.Demo.{terminal_lines}
use edge_guardian.Landing.Demo.Section.{
  sighted, timer_fires, section_leaves, section_start, run_section,
}
use edge_guardian.Landing.Mockup.{MockDevice, mock_devices, st_dot, Bar, bars_from, chart_bars}
use edge_guardian.Landing.Discovery.{nodes, is_left}
use edge_guardian.Landing.Parallax.{mounted, scrolls, page_ends, run_parallax}
use edge_guardian.Landing.Parallax

abbrev sight : ℕ → Bool → ObserverEntry
sight x b = record { target = x; is_intersecting = b }

-- Hundredths of a pixel and of the full speed, and milliseconds.
abbrev row_units : Units
row_units = record { full = 100; slow = 20; cap = 100 }

abbrev approach : ℕ → ℕ → ℕ
approach s t = (s * 24 + t) / 25

abbrev distance : ℕ → ℕ → ℕ
distance s t = 45 * (s * t) / 1000

short_frame : (s t : ℕ) → s ≤ 100 → t ≤ 100 → distance s t ≤ 500
short_frame s t hs ht = omega (arith, mul-le-mul_left s ht, mul-le-mul_right 100 hs)

smooth : IsSmooth approach distance row_units right 500
smooth = record {
  smoothed = λ s t hs ht. omega arith;
  short = short_frame;
  slower = omega arith;
  wide = omega arith;
}

abbrev a_while : List RowEvent
a_while = frame 16 ∷ frame 32 ∷ mouse_enter ∷ frame 132 ∷ in_view false ∷ frame 900 ∷ []

-- Three frames, the last under the mouse, and one out of view: the row has moved by 576 in all.
place :
    (run_row approach distance row_units right 500 a_while (start_row row_units right 500 0)).pos
    ≡ 424
unfolding run_row start_row
place = refl

run_row-IsAt_example :
    IsAt right 500 576
      (run_row approach distance row_units right 500 a_while (start_row row_units right 500 0)).pos
unfolding way_of start_row run_row frame_move
run_row-IsAt_example = run_row-IsAt approach distance row_units right 500 smooth a_while 0

-- Two of three elements come into view, one of them twice.
revealed_once :
    contains 1
      (on_calls
        ((sight 1 true ∷ sight 2 false ∷ []) ∷ (sight 1 true ∷ sight 0 true ∷ []) ∷ [])
        (observe_all (0 ∷ 1 ∷ 2 ∷ []))).revealed
    ≡ true
unfolding on_calls observe_all contains any
revealed_once = refl

still_observed :
    (on_calls
      ((sight 1 true ∷ sight 2 false ∷ []) ∷ (sight 1 true ∷ sight 0 true ∷ []) ∷ [])
      (observe_all (0 ∷ 1 ∷ 2 ∷ []))).observed
    ≡ 2 ∷ []
unfolding on_calls observe_all filter
still_observed = refl

-- The section comes into view, and two timers fire.
two_lines :
    (run_section terminal_lines
      (sighted (false ∷ []) ∷ timer_fires ∷ sighted (true ∷ []) ∷ timer_fires ∷ timer_fires ∷ [])
      section_start).visible_count
    ≡ 2
unfolding run_section
two_lines = refl

no_line_after_the_end :
    (run_section terminal_lines
      (sighted (true ∷ []) ∷ section_leaves ∷ timer_fires ∷ [])
      section_start).visible_count
    ≡ 0
unfolding run_section
no_line_after_the_end = refl

-- The status of every sample device has a dot, and three bars are in the warning colour.
dots : all (λ (d : MockDevice). is_some (lookup d.status st_dot)) mock_devices ≡ true
unfolding all lookup text_eq
dots = refl

warnings : length (filter (λ (b : Bar). b.warns) (bars_from 0 chart_bars)) ≡ 3
unfolding bars_from filter
warnings = refl

-- The devices to the left of the controller have their names on that side.
left_labels : length (filter is_left nodes) ≡ 3
unfolding filter is_left
left_labels = refl

-- Two scrolls before one frame, and a frame after the end of the page.
shifted :
    (run_parallax
      (λ y. y * 12)
      (scrolls ∷ scrolls ∷ Parallax.frame 50 ∷ page_ends ∷ Parallax.frame 90 ∷ [])
      mounted).shift
    ≡ some 600
unfolding run_parallax filter
shifted = refl
