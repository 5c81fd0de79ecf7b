-- ===== src/Landing/Demo/Section.antt =====
-- ui/components/landing/terminal-section.tsx: the section from its mount to its end, whose timers start
-- once it has come into view.
pub mod Play
use edge_guardian.Base.{ℕ, Bool, not, ◌&&◌, List, [], ◌∷◌, if◌then◌else◌}
use edge_guardian.Landing.InView.{InView, unseen, on_entry, disconnected}
use edge_guardian.Landing.Demo.{TerminalLine, Timer, schedule}

pub record SectionState : Type 0 where
  pub view : InView
  pub timers : List Timer
  pub visible_count : ℕ

abbrev pub section_start : SectionState
section_start = record { view = unseen; timers = []; visible_count = 0 }

-- The observer calls, the next timer fires, or the page is left.
pub data SectionEvent : Type 0 where
  sighted : List Bool → SectionEvent
  timer_fires section_leaves : SectionEvent

-- The effect runs anew when `active` has changed.
unfoldable pub on_seen : List TerminalLine → List Bool → SectionState → SectionState
unfolding on_entry schedule
on_seen lines entries s =
    let view = on_entry entries s.view in
    record s {
      view = view;
      timers = if view.active && not s.view.active then schedule 400 0 lines else s.timers;
    }

-- The timers fire in their order, since each is set for a later time than the one before.
unfoldable pub on_timer : SectionState → SectionState
on_timer s = elim (s.timers) [
  | [] ↦ s
  | t ∷ ts ↦ record s { timers = ts; visible_count = t.visible_count }
]

-- Both clean-ups: the observer is disconnected and the timers are cleared.
unfoldable pub on_section_leaves : SectionState → SectionState
unfolding disconnected
on_section_leaves s = record s { view = disconnected s.view; timers = [] }

unfoldable pub on_section_event : List TerminalLine → SectionEvent → SectionState → SectionState
unfolding on_seen on_timer on_section_leaves
on_section_event lines (sighted entries) s = on_seen lines entries s
on_section_event lines timer_fires s = on_timer s
on_section_event lines section_leaves s = on_section_leaves s

unfoldable pub run_section : List TerminalLine → List SectionEvent → SectionState → SectionState
unfolding on_section_event
run_section lines [] s = s
run_section lines (e ∷ es) s = run_section lines es (on_section_event lines e s)
