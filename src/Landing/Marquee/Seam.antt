-- ===== src/Landing/Marquee/Seam.antt =====
-- ui/components/landing/marquee-section.tsx: how the entries of a row stand beside each other, `flex`
-- with a gap, and what half the width of the row is to them.
use edge_guardian.Base.{ℕ, ◌+◌, ◌*◌, ◌≡◌, List, [], ◌∷◌, ◌++◌, arith}

-- From the start of the first entry to the start of what would follow the last.
pub after_all : (gap : ℕ) → List ℕ → ℕ
after_all gap [] = 0
after_all gap (w ∷ ws) = w + gap + after_all gap ws

-- From the start of the first entry to the end of the last, which is `scrollWidth`.
pub scroll_width : (gap : ℕ) → List ℕ → ℕ
scroll_width gap [] = 0
scroll_width gap (w ∷ []) = w
scroll_width gap (w ∷ v ∷ ws) = w + gap + scroll_width gap (v ∷ ws)

after_all-append :
    (gap : ℕ) (ws vs : List ℕ) → after_all gap (ws ++ vs) ≡ after_all gap ws + after_all gap vs
unfolding after_all
after_all-append gap [] vs = omega arith
after_all-append gap (w ∷ ws) vs = omega (arith, after_all-append gap ws vs)

after_all-scroll_width :
    (gap w : ℕ) (ws : List ℕ) → after_all gap (w ∷ ws) ≡ scroll_width gap (w ∷ ws) + gap
unfolding after_all scroll_width
after_all-scroll_width gap w [] = omega arith
after_all-scroll_width gap w (v ∷ ws) = omega (arith, after_all-scroll_width gap v ws)

-- An entry and its copy are half a gap further apart than half the width of the row, by which the row
-- goes back.
pub scroll_width-twice :
    (gap w : ℕ) (ws : List ℕ)
    → 2 * after_all gap (w ∷ ws) ≡ scroll_width gap ((w ∷ ws) ++ (w ∷ ws)) + gap
scroll_width-twice gap w ws =
    omega
      (arith, after_all-append gap (w ∷ ws) (w ∷ ws), after_all-scroll_width gap w (ws ++ w ∷ ws))
