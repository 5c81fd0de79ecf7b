-- ===== src/Tests/Chrome.antt =====
-- The layout of the console and the landing page at concrete inputs.
use edge_guardian.Base.{
  ℕ, ◌≤◌, ◌≡◌, ◌⊎◌, refl, Option, none, some, List, [], ◌∷◌, Text, codes, length, text_eq, true,
  false,
}
use edge_guardian.Auth.Guards.{page_request, redirect, login_url}
use edge_guardian.Layout.Sidebar.{active_items, initials, item}
use edge_guardian.Layout.Sidebar.Highlight.{active_items-page_request}
use edge_guardian.Layout.Breadcrumbs.{link, word, breadcrumbs, trail, home}
use edge_guardian.Layout.Sidebar.{Theme}
use edge_guardian.Landing.Navbar.{mount, on_scroll, theme_icon, sun}
use edge_guardian.Landing.Navbar
use edge_guardian.Landing.Marquee.{PlatformItem, arch_items, repeated, fill}
use edge_guardian.Landing.Marquee.Filling.{IsFilled, repeated-IsFilled}
use edge_guardian.Landing.Demo.{terminal_lines, visible_count_at}

abbrev path : Text
path = codes "/devices/pi-1/logs"

abbrev origin : Text
origin = codes "https://edge.example"

abbrev url : Text
url = codes "https://edge.example/devices/pi-1/logs"

marked : active_items path ≡ item (codes "Devices") (codes "devices") ∷ []
unfolding active_items
marked = refl

active_items-page_request_example :
    (length (active_items path) ≤ 1)
    × ((active_items path ≡ [])
        ⊎ (page_request {S = Text} none origin path url none ≡ redirect (login_url origin url)))
active_items-page_request_example = active_items-page_request Text path url origin none (λ e. cc)

-- The first letters of the words, without capitals here.
initials_of_user : initials (λ s. s) (some (codes "ada king")) ≡ codes "ak"
unfolding initials
initials_of_user = refl

abbrev decode : Text → Option Text
decode s = some s

crumbs :
    breadcrumbs decode path
    ≡ some (
        trail (
          link (codes "/dashboard") (codes "Dashboard")
          ∷ link (codes "/devices") (codes "Devices")
          ∷ link (codes "/devices/pi-1") (codes "pi-1")
          ∷ word (codes "Logs")
          ∷ []))
unfolding breadcrumbs text_eq
crumbs = refl

-- The name of the prototype of every object cannot be drawn.
no_crumbs : breadcrumbs decode (codes "/devices/__proto__") ≡ none
unfolding breadcrumbs text_eq
no_crumbs = refl

home_crumb : breadcrumbs decode (codes "/dashboard") ≡ some home
unfolding breadcrumbs
home_crumb = refl

repeated-IsFilled_example :
    ((r : List PlatformItem) × (repeated arch_items ≡ some r) × IsFilled arch_items r)
    × ((fuel : ℕ) → fill {A = PlatformItem} fuel [] [] ≡ none)
repeated-IsFilled_example = repeated-IsFilled arch_items (λ e. cc)

-- The first command is there after 400 + 500 + 23 * 22 ms.
first_line : visible_count_at 1406 terminal_lines ≡ 1
unfolding visible_count_at
first_line = refl

no_line : visible_count_at 1405 terminal_lines ≡ 0
unfolding visible_count_at
no_line = refl

-- The bar of the landing page: mounted far down, and back at the top.
scrolled_down : (mount 300 Navbar.at_top).scrolled ≡ true
unfolding mount
scrolled_down = refl

scrolled_back : (on_scroll 20 (mount 300 Navbar.at_top)).scrolled ≡ false
unfolding on_scroll mount
scrolled_back = refl

theme_button_mounted :
    (theme_icon Theme.dark Navbar.at_top ≡ none)
    × (theme_icon Theme.dark (mount 0 Navbar.at_top) ≡ some sun)
unfolding theme_icon mount
theme_button_mounted = (refl, refl)
