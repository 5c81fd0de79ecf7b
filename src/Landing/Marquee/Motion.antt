-- ===== src/Landing/Marquee/Motion.antt =====
-- ui/components/landing/marquee-section.tsx: how a row moves from frame to frame. A place, a speed and
-- a time are numbers of some small unit. The smoothing of the speed and the distance of a frame are
-- floating point, and parameters. A place to the left of the start is held as its distance from it.
pub mod Place
use edge_guardian.Base.{
  ℕ, zero, ◌+◌, ◌-◌, ◌≤◌, min, Bool, true, false, List, [], ◌∷◌, leb, if◌then◌else◌,
}

pub data Direction : Type 0 where
  left right : Direction

-- The refs of a row, and the number that the effect keeps for itself.
pub record RowState : Type 0 where
  pub pos : ℕ
  pub speed : ℕ
  pub target : ℕ
  pub visible : Bool
  pub last : ℕ

-- The full speed, the speed under the mouse, and the longest step of time, in the units.
pub record Units : Type 0 where
  pub full : ℕ
  pub slow : ℕ
  pub cap : ℕ

-- The effect as it runs first: a row that moves to the right starts a copy to the left.
unfoldable pub start_row : Units → Direction → (half now : ℕ) → RowState
start_row u left half now = record {
  pos = 0;
  speed = u.full;
  target = u.full;
  visible = true;
  last = now;
}
start_row u right half now = record {
  pos = half;
  speed = u.full;
  target = u.full;
  visible = true;
  last = now;
}

-- One step to the side, and back by a copy at the end.
unfoldable pub advance : Direction → (half move pos : ℕ) → ℕ
advance left half move pos = if leb half (pos + move) then pos + move - half else pos + move
advance right half move pos = if leb pos move then pos + half - move else pos - move

-- `speed + (target - speed) * 0.04` and `baseSpeed * speed * dt`
module _ (approach : ℕ → ℕ → ℕ) (distance : ℕ → ℕ → ℕ) where
  -- `Math.min(now - last, …)`; the times of the frames do not go back.
  unfoldable pub frame_time : Units → ℕ → RowState → ℕ
  frame_time u now s = min (now - s.last) u.cap

  unfoldable pub frame_move : Units → ℕ → RowState → ℕ
  unfolding frame_time
  frame_move u now s = distance (approach s.speed s.target) (frame_time u now s)

  unfoldable pub tick : Units → Direction → (half now : ℕ) → RowState → RowState
  unfolding frame_move advance
  tick u dir half now s =
      if s.visible
      then record s {
        last = now;
        speed = approach s.speed s.target;
        pos = advance dir half (frame_move u now s) s.pos;
      }
      else record s { last = now }

-- What happens to a row: a frame, the mouse, and the observer that tells whether it is in view.
pub data RowEvent : Type 0 where
  frame : (now : ℕ) → RowEvent
  mouse_enter mouse_leave : RowEvent
  in_view : Bool → RowEvent

unfoldable pub on_enter : Units → RowState → RowState
on_enter u s = record s { target = u.slow }

unfoldable pub on_leave : Units → RowState → RowState
on_leave u s = record s { target = u.full }

unfoldable pub set_visible : Bool → RowState → RowState
set_visible b s = record s { visible = b }

module _ (approach distance : ℕ → ℕ → ℕ) (u : Units) (dir : Direction) (half : ℕ) where
  unfoldable pub on_row_event : RowEvent → RowState → RowState
  unfolding tick on_enter on_leave set_visible
  on_row_event (frame now) s = tick approach distance u dir half now s
  on_row_event mouse_enter s = on_enter u s
  on_row_event mouse_leave s = on_leave u s
  on_row_event (in_view b) s = set_visible b s

  unfoldable pub run_row : List RowEvent → RowState → RowState
  unfolding on_row_event
  run_row [] s = s
  run_row (e ∷ es) s = run_row es (on_row_event e s)
