-- ===== src/Landing.antt =====
-- ui/app/page.tsx: whom the landing page sends on to the dashboard, and the parts of the page that
-- compute something.
pub mod Arrival
pub mod Navbar
pub mod Marquee
pub mod Demo
pub mod Reveal
pub mod InView
pub mod Parallax
pub mod Discovery
pub mod Mockup
use edge_guardian.Base.{not, ◌&&◌, Option, none, some, codes, is_some, Text, if◌then◌else◌}
use edge_guardian.Auth.{Session, given}
use edge_guardian.Auth.Guards.{Decision, next, redirect}
use edge_guardian.Layout.UserMenu.{User}

-- `if (session?.user && !session.error) redirect("/dashboard")`; none if `auth()` gives no session.
-- The session's `user` stands beside the fields that the callback of ui/lib/auth.ts sets.
unfoldable pub landing_page : Option (Option User × Session) → Decision
landing_page none = next
landing_page (some (user, session)) =
    if is_some user && not (given session.error) then redirect (codes "/dashboard") else next

-- ui/components/landing/sign-in-button.tsx: the provider and the `callbackUrl` of the call of `signIn`.
abbrev pub sign_in_clicked : Text × Text
sign_in_clicked = (codes "keycloak", codes "/dashboard")
