-- ===== src/Landing/InView.antt =====
-- ui/components/landing/terminal-section.tsx and discovery-section.tsx: a section that starts as soon
-- as it has come into view, and only once.
use edge_guardian.Base.{Bool, true, false, ◌&&◌, List, [], ◌∷◌, if◌then◌else◌}

-- The state `active`, and whether the observer is connected.
pub record InView : Type 0 where
  pub active : Bool
  pub observing : Bool

abbrev pub unseen : InView
unseen = record { active = false; observing = true }

-- A call of the observer: it reads the first of the entries, `([entry])`, and disconnects once that
-- one is in view. A disconnected observer does not call.
unfoldable pub on_entry : List Bool → InView → InView
on_entry [] s = s
on_entry (is_intersecting ∷ entries) s =
    if s.observing && is_intersecting then record { active = true; observing = false } else s

-- `return () => io.disconnect();`
unfoldable pub disconnected : InView → InView
disconnected s = record s { observing = false }
