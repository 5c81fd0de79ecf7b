-- ===== src/LoginPage.antt =====
-- ui/app/auth/login/page.tsx: the login page, to which the middleware sends whoever has no session.
use edge_guardian.Base.{Bool, true, false, Option, none, some, Text, codes, if◌then◌else◌}
use edge_guardian.Layout.Sidebar.{Theme, is_dark, toggle_theme}
use edge_guardian.Landing.Navbar.{Icon, sun, moon}

-- The provider and the `callbackUrl` that `signIn` is called with.
pub record SignIn : Type 0 where
  pub provider : Text
  pub callback_url : Text

unfoldable pub do_sign_in : SignIn
do_sign_in = record { provider = codes "keycloak"; callback_url = codes "/dashboard" }

-- `mounted`, before and after the effect.
abbrev pub before_mount : Bool
before_mount = false

unfoldable pub after_mount : Bool → Bool
after_mount mounted = true

-- The button that switches the theme is drawn once the page is mounted.
unfoldable pub login_theme_button : Theme → Bool → Option (Icon × Theme)
unfolding toggle_theme
login_theme_button resolved mounted =
    if mounted then some ((if is_dark resolved then sun else moon), toggle_theme resolved) else none
