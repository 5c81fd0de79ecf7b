-- ===== src/Landing/Demo/Section/Play.antt =====
-- What the section shows at any time.
use edge_guardian.Base.{
  ℕ, zero, suc, ◌+◌, ◌≤◌, ◌<◌, ◌≡◌, ◌⊎◌, refl, Bool, true, false, List, [], ◌∷◌, length, drop,
  drop-nil, Bool-cases, inl, inr, arith, ltb,
}
use edge_guardian.Landing.InView.{on_entry, disconnected}
use edge_guardian.Landing.Demo.{TerminalLine, delay, schedule}
use edge_guardian.Landing.Demo.Section.{
  SectionState, section_start, SectionEvent, sighted, timer_fires, section_leaves, on_seen,
  on_timer, run_section, on_section_event, on_section_leaves,
}

-- Before it has come into view nothing has begun; from then on the timers that are left are those of the
-- lines that are not visible yet, unless the page was left, and the observer is not connected.
pub data IsPlaying (lines : List TerminalLine) : SectionState → Type 0 where
  waiting :
      (b : Bool)
      → IsPlaying lines (record {
        view = record { active = false; observing = b };
        timers = [];
        visible_count = 0;
      })
  playing :
      (n : ℕ)
      → n ≤ length lines
      → IsPlaying lines (record {
        view = record { active = true; observing = false };
        timers = drop n (schedule 400 0 lines);
        visible_count = n;
      })
  stopped :
      (n : ℕ)
      → n ≤ length lines
      → IsPlaying lines (record {
        view = record { active = true; observing = false };
        timers = [];
        visible_count = n;
      })

split : (a b : ℕ) → (a < b) ⊎ (b ≤ a)
split a b = elim (Bool-cases (ltb a b)) [ inl e ↦ inl (ground arith) | inr e ↦ inr (ground arith) ]

from_zero : (n : ℕ) → 0 + n ≡ n
from_zero n = omega arith

count : (i : ℕ) → i + 0 ≡ i
count i = omega arith

count_next : (i n : ℕ) → i + suc n ≡ suc i + n
count_next i n = omega arith

-- The timer of a line sets the count that includes the line.
drop-schedule :
    (n c i : ℕ) (lines : List TerminalLine)
    → n < length lines
    → (at : ℕ) × (drop n (schedule c i lines)
        ≡ record { at = at; visible_count = suc (i + n) } ∷ drop (suc n) (schedule c i lines))
unfolding drop schedule
drop-schedule n c i [] h = absurd (omega arith)
drop-schedule zero c i (l ∷ lines) h = (c + delay l, rw (count i) refl)
drop-schedule (suc n) c i (l ∷ lines) h =
    let (at, e) = drop-schedule n (c + delay l) (suc i) lines (omega arith) in
    (at, rw (count_next i n) e)

drop-schedule_end :
    (n c i : ℕ) (lines : List TerminalLine) → length lines ≤ n → drop n (schedule c i lines) ≡ []
unfolding drop schedule
drop-schedule_end n c i [] h = drop-nil n
drop-schedule_end zero c i (l ∷ lines) h = absurd (omega arith)
drop-schedule_end (suc n) c i (l ∷ lines) h =
    drop-schedule_end n (c + delay l) (suc i) lines (omega arith)

on_seen-IsPlaying :
    (lines : List TerminalLine) (entries : List Bool) (s : SectionState)
    → IsPlaying lines s
    → IsPlaying lines (on_seen lines entries s)
unfolding on_seen on_entry drop
on_seen-IsPlaying lines [] s (waiting b) = waiting b
on_seen-IsPlaying lines (true ∷ entries) s (waiting true) = playing 0 (omega arith)
on_seen-IsPlaying lines (false ∷ entries) s (waiting true) = waiting true
on_seen-IsPlaying lines (e ∷ entries) s (waiting false) = waiting false
on_seen-IsPlaying lines [] s (playing n h) = playing n h
on_seen-IsPlaying lines (e ∷ entries) s (playing n h) = playing n h
on_seen-IsPlaying lines [] s (stopped n h) = stopped n h
on_seen-IsPlaying lines (e ∷ entries) s (stopped n h) = stopped n h

on_timer-IsPlaying :
    (lines : List TerminalLine) (s : SectionState)
    → IsPlaying lines s
    → IsPlaying lines (on_timer s)
unfolding on_timer
on_timer-IsPlaying lines s (waiting b) = waiting b
on_timer-IsPlaying lines s (stopped n h) = stopped n h
on_timer-IsPlaying lines s (playing n h) = elim (split n (length lines)) [
  | inl l ↦ let (at, e) = drop-schedule n 400 0 lines l in rw (e, from_zero n) (playing (suc n) l)
  | inr l ↦ let e = drop-schedule_end n 400 0 lines l in rw e (stopped n h)
]

on_section_event-IsPlaying :
    (lines : List TerminalLine) (e : SectionEvent) (s : SectionState)
    → IsPlaying lines s
    → IsPlaying lines (on_section_event lines e s)
unfolding on_section_event on_section_leaves disconnected
on_section_event-IsPlaying lines (sighted entries) s h = on_seen-IsPlaying lines entries s h
on_section_event-IsPlaying lines timer_fires s h = on_timer-IsPlaying lines s h
on_section_event-IsPlaying lines section_leaves s (waiting b) = waiting false
on_section_event-IsPlaying lines section_leaves s (playing n h) = stopped n h
on_section_event-IsPlaying lines section_leaves s (stopped n h) = stopped n h

run_section-from :
    (lines : List TerminalLine) (es : List SectionEvent) (s : SectionState)
    → IsPlaying lines s
    → IsPlaying lines (run_section lines es s)
unfolding run_section
run_section-from lines [] s h = h
run_section-from lines (e ∷ es) s h =
    run_section-from lines es (on_section_event lines e s) (on_section_event-IsPlaying lines e s h)

-- After any calls of the observer, timers and the end of the page: either nothing has begun, or the
-- section was in view, the observer is not connected, no more lines are visible than there are, and
-- the timers that are left are those of the lines that are not visible, or none once the page is left.
pub run_section-IsPlaying :
    (lines : List TerminalLine) (es : List SectionEvent)
    → IsPlaying lines (run_section lines es section_start)
run_section-IsPlaying lines es = run_section-from lines es section_start (waiting true)
