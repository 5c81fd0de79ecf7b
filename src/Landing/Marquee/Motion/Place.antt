-- ===== src/Landing/Marquee/Motion/Place.antt =====
-- Where a row stands: always within one copy, and as far as it has moved, without a drift.
use edge_guardian.Base.{
  ℕ, ◌+◌, ◌*◌, ◌≤◌, ◌<◌, ◌≡◌, leb, refl, subst, inl, inr, Bool-cases, List, [], ◌∷◌, arith,
  if◌then◌else◌,
}
use edge_guardian.Landing.Marquee.Motion.{
  Direction, left, right, RowState, Units, start_row, advance, frame_time, frame_move, tick,
  RowEvent, frame, mouse_enter, mouse_leave, in_view, on_enter, on_leave, set_visible, on_row_event,
  run_row,
}

-- The place after some way from the start, in whole copies and a rest.
abbrev pub IsAt : Direction → (half way pos : ℕ) → Type 0
IsAt left half way pos = (k : ℕ) × (way ≡ k * half + pos) × (pos < half)
IsAt right half way pos = (k : ℕ) × (way + pos ≡ k * half + half) × (1 ≤ pos) × (pos ≤ half)

advance-IsAt :
    (dir : Direction) (half way move pos : ℕ)
    → 1 ≤ half
    → move ≤ half
    → IsAt dir half way pos
    → IsAt dir half (way + move) (advance dir half move pos)
unfolding advance
advance-IsAt left half way move pos h m (k, e, b) = elim (Bool-cases (leb half (pos + move))) [
  | inl z ↦ rw z (k + 1, ground arith, ground arith)
  | inr z ↦ rw z (k, ground arith, ground arith)
]
advance-IsAt right half way move pos h m (k, e, a, b) = elim (Bool-cases (leb pos move)) [
  | inl z ↦ rw z (k + 1, ground arith, ground arith, ground arith)
  | inr z ↦ rw z (k, ground arith, ground arith, ground arith)
]

start_row-IsAt :
    (dir : Direction) (u : Units) (half now : ℕ)
    → 1 ≤ half
    → IsAt dir half 0 (start_row u dir half now).pos
unfolding start_row
start_row-IsAt left u half now h = (0, omega arith, h)
start_row-IsAt right u half now h = (0, omega arith, h, omega arith)

start_row-speed :
    (dir : Direction) (u : Units) (half now : ℕ)
    → ((start_row u dir half now).speed ≡ u.full) × ((start_row u dir half now).target ≡ u.full)
unfolding start_row
start_row-speed left u half now = (refl, refl)
start_row-speed right u half now = (refl, refl)

module _ (approach distance : ℕ → ℕ → ℕ) (u : Units) (dir : Direction) (half : ℕ) where
  -- How far the frames move a row while it is in view.
  unfoldable pub way_of : List RowEvent → RowState → ℕ
  way_of [] s = 0
  way_of (frame now ∷ es) s =
      (if s.visible then frame_move approach distance u now s else 0)
      + way_of es (tick approach distance u dir half now s)
  way_of (mouse_enter ∷ es) s = way_of es (on_enter u s)
  way_of (mouse_leave ∷ es) s = way_of es (on_leave u s)
  way_of (in_view b ∷ es) s = way_of es (set_visible b s)

  -- The smoothed speed stays within the full speed, and no frame moves a row by more than a copy.
  pub record IsSmooth : Type 0 where
    pub smoothed : (s t : ℕ) → s ≤ u.full → t ≤ u.full → approach s t ≤ u.full
    pub short : (s t : ℕ) → s ≤ u.full → t ≤ u.cap → distance s t ≤ half
    pub slower : u.slow ≤ u.full
    pub wide : 1 ≤ half

  IsTame : RowState → Type 0
  IsTame s = (s.speed ≤ u.full) × (s.target ≤ u.full)

  module _ (smooth : IsSmooth) where
    start_row-IsTame : (now : ℕ) → IsTame (start_row u dir half now)
    unfolding IsTame
    start_row-IsTame now =
        let (a, b) = start_row-speed dir u half now in (omega (arith, a), omega (arith, b))

    tick-IsTame :
        (now : ℕ) (s : RowState) → IsTame s → IsTame (tick approach distance u dir half now s)
    unfolding IsTame tick
    tick-IsTame now s (a, b) = (ground (arith, smooth.smoothed s.speed s.target a b), ground arith)

    frame_move-le :
        (now : ℕ) (s : RowState) → IsTame s → frame_move approach distance u now s ≤ half
    unfolding IsTame frame_move frame_time
    frame_move-le now s (a, b) =
        smooth.short _ _ (smooth.smoothed s.speed s.target a b) (omega arith)

    same_way : (v w pos : ℕ) → v ≡ w → IsAt dir half v pos → IsAt dir half w pos
    same_way v w pos e h = subst (λ (x : ℕ). IsAt dir half x pos) e h

    tick-IsAt :
        (now way : ℕ) (s : RowState)
        → IsTame s
        → IsAt dir half way s.pos
        → IsAt dir half
            (way + (if s.visible then frame_move approach distance u now s else 0))
            (tick approach distance u dir half now s).pos
    unfolding tick
    tick-IsAt now way s t h = elim (Bool-cases s.visible) [
      | inl z ↦ rw z (
          advance-IsAt dir half way (frame_move approach distance u now s) s.pos smooth.wide
            (frame_move-le now s t) h)
      | inr z ↦ rw z (same_way _ _ _ (omega arith) h)
    ]

    run_row-from :
        (es : List RowEvent) (way : ℕ) (s : RowState)
        → IsTame s
        → IsAt dir half way s.pos
        → IsAt dir half (way + way_of es s) (run_row approach distance u dir half es s).pos
    unfolding run_row on_row_event way_of on_enter on_leave set_visible IsTame
    run_row-from [] way s t h = same_way _ _ _ (omega arith) h
    run_row-from (frame now ∷ es) way s t h = same_way _ _ _ (omega arith) (
        run_row-from es (way + (if s.visible then frame_move approach distance u now s else 0))
          (tick approach distance u dir half now s) (tick-IsTame now s t) (tick-IsAt now way s t h))
    run_row-from (mouse_enter ∷ es) way s t h =
        run_row-from es way (on_enter u s) (t.0, smooth.slower) h
    run_row-from (mouse_leave ∷ es) way s t h =
        run_row-from es way (on_leave u s) (t.0, omega arith) h
    run_row-from (in_view b ∷ es) way s t h = run_row-from es way (set_visible b s) t h

    -- If smoothing leads to no speed above the full one, the speed under the mouse is not above it
    -- either, and no frame moves a row by more than one copy of its items, which has a width, then,
    -- after any frames, moves of the mouse and changes of the view, a row that goes to the left stands
    -- less than a copy from its start, at the distance that its frames in view have moved it, less
    -- whole copies; and one that goes to the right stands at least one unit and at most a copy from it,
    -- where the distance to the end of the copy is that, too.
    pub run_row-IsAt :
        (es : List RowEvent) (now : ℕ)
        → IsAt dir half
            (way_of es (start_row u dir half now))
            (run_row approach distance u dir half es (start_row u dir half now)).pos
    run_row-IsAt es now = same_way _ _ _ (omega arith) (
        run_row-from es 0 (start_row u dir half now) (start_row-IsTame now)
          (start_row-IsAt dir u half now smooth.wide))
