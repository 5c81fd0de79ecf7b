-- ===== src/Landing/Navbar.antt =====
-- ui/components/landing/navbar.tsx: the bar at the top of the landing page.
use edge_guardian.Base.{
  ℕ, Bool, true, false, Option, none, some, List, [], ◌∷◌, Text, codes, ltb, if◌then◌else◌,
}
use edge_guardian.Layout.Sidebar.{Theme, is_dark}

pub record NavbarState : Type 0 where
  pub scrolled : Bool
  pub mounted : Bool

abbrev pub at_top : NavbarState
at_top = record { scrolled = false; mounted = false }

-- `setScrolled(window.scrollY > 20)`
unfoldable pub on_scroll : ℕ → NavbarState → NavbarState
on_scroll scroll_y s = record s { scrolled = ltb 20 scroll_y }

-- The effect: the bar is mounted, and the handler runs once.
unfoldable pub mount : ℕ → NavbarState → NavbarState
unfolding on_scroll
mount scroll_y s = on_scroll scroll_y record s { mounted = true }

-- The labels of the links and where they lead on the page.
unfoldable pub link : Text × Text → Text × Text
link (label, id) = (label, b'#' ∷ id)

abbrev pub sections : List (Text × Text)
sections =
    (codes "Features", codes "features")
    ∷ (codes "Discovery", codes "discovery")
    ∷ (codes "Demo", codes "terminal")
    ∷ []

pub data Icon : Type 0 where
  sun moon : Icon

-- The button that switches the theme, once the bar is mounted: the icon of the other theme.
unfoldable pub theme_icon : Theme → NavbarState → Option Icon
theme_icon theme s = if s.mounted then some (if is_dark theme then sun else moon) else none
