-- ===== src/Landing/Demo.antt =====
-- ui/components/landing/terminal-section.tsx: the lines of a terminal that appear one after another.
pub mod Playback
pub mod Section
use edge_guardian.Base.{
  ℕ, suc, ◌+◌, ◌*◌, List, [], ◌∷◌, Text, codes, length, leb, if◌then◌else◌, Option, none, some,
  Bool, ◌&&◌, ◌++◌, ltb, ◌==◌, get_or, or_else,
}

pub data LineType : Type 0 where
  cmd out gap : LineType

pub record TerminalLine : Type 0 where
  pub type : LineType
  pub text : Text
  pub cls : Option Text

abbrev pub line : LineType → Text → TerminalLine
line type text = record { type = type; text = text; cls = none }

abbrev pub with_class : LineType → Text → Text → TerminalLine
with_class type text cls = record { type = type; text = text; cls = some cls }

abbrev pub terminal_lines : List TerminalLine
terminal_lines =
    line cmd (codes "ssh edge@rpi-gateway-01")
    ∷ with_class out (codes "Connected to rpi-gateway-01 (192.168.1.42)")
        (codes "text-emerald-600 dark:text-emerald-400")
    ∷ line gap (codes "")
    ∷ line cmd (codes "edgeguard status")
    ∷ with_class out (codes "● EdgeGuardian Agent v2.4.1")
        (codes "font-semibold text-cyan-700 dark:text-cyan-300")
    ∷ line out (codes "  Status:     active (running)")
    ∷ line out (codes "  Uptime:     14d 6h 32m")
    ∷ line out (codes "  Fleet:      connected (1,847 devices)")
    ∷ line out (codes "  Last sync:  2s ago")
    ∷ line gap (codes "")
    ∷ line cmd (codes "edgeguard deploy --rolling firmware-v2.5.0")
    ∷ with_class out (codes "✓ Artifact signature verified (sha256:a3f8…c291)")
        (codes "text-emerald-600 dark:text-emerald-400")
    ∷ with_class out (codes "▸ Rolling deployment to 847 devices…")
        (codes "text-cyan-700 dark:text-cyan-400")
    ∷ with_class out (codes "  ████████████████░░░░  78% complete")
        (codes "text-cyan-600 dark:text-cyan-300/80")
    ∷ line out (codes "  661 updated · 183 pending · 3 queued")
    ∷ []

unfoldable pub delay : TerminalLine → ℕ
delay l = elim (l.type) [ cmd ↦ 500 + length l.text * 22 | gap ↦ 150 | out ↦ 90 ]

-- A timer that sets the number of visible lines, some time after the section has come into view.
pub record Timer : Type 0 where
  pub at : ℕ
  pub visible_count : ℕ

-- The timers for the lines from the place `i` on.
unfoldable pub schedule : ℕ → ℕ → List TerminalLine → List Timer
unfolding delay
schedule cumulative i [] = []
schedule cumulative i (l ∷ lines) =
    record { at = cumulative + delay l; visible_count = suc i }
    ∷ schedule (cumulative + delay l) (suc i) lines

-- The number of visible lines after the timers up to `now` have run, one after another; `count` is
-- the number before.
unfoldable pub run_timers : ℕ → ℕ → List Timer → ℕ
run_timers now count [] = count
run_timers now count (t ∷ ts) = run_timers now (if leb t.at now then t.visible_count else count) ts

unfoldable pub visible_count_at : ℕ → List TerminalLine → ℕ
unfolding schedule run_timers
visible_count_at now lines = run_timers now 0 (schedule 400 0 lines)

-- What a line looks like: a gap, or its classes, the classes of the prompt of a command, and its text.
pub data DrawnLine : Type 0 where
  space : DrawnLine
  drawn : (classes : Text) (prompt : Option Text) (text : Text) → DrawnLine

unfoldable pub line_classes : (visible latest : Bool) → Option Text → Text
line_classes visible latest cls =
    (if visible
      then or_else (get_or cls []) (codes "text-slate-600 dark:text-zinc-400")
      else codes "invisible")
    ++ codes " "
    ++ (if visible && latest then codes "animate-[fadeIn_0.15s_ease-out]" else [])

unfoldable pub prompt_classes : LineType → Bool → Option Text
prompt_classes cmd visible = some (
    if visible
    then codes "text-emerald-600 dark:text-emerald-400 select-none"
    else codes "select-none")
prompt_classes out visible = none
prompt_classes gap visible = none

unfoldable pub draw_line : (visible_count i : ℕ) → TerminalLine → DrawnLine
unfolding line_classes prompt_classes
draw_line visible_count i l =
    let visible = ltb i visible_count in
    elim (l.type) [
      | gap ↦ space
      | t ↦
          drawn (line_classes visible (suc i == visible_count) l.cls) (prompt_classes t visible)
            l.text
    ]

unfoldable pub draw_lines : (visible_count i : ℕ) → List TerminalLine → List DrawnLine
unfolding draw_line
draw_lines visible_count i [] = []
draw_lines visible_count i (l ∷ lines) =
    draw_line visible_count i l ∷ draw_lines visible_count (suc i) lines

-- The cursor is there once a line is.
abbrev pub shows_cursor : ℕ → Bool
shows_cursor visible_count = ltb 0 visible_count
