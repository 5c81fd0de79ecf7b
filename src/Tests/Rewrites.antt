-- ===== src/Tests/Rewrites.antt =====
-- The rewrites at a matcher that compares prefixes.
use edge_guardian.Base.{
  ℕ, ◌-◌, ◌≡◌, refl, Option, some, none, ◌++◌, length, take, drop, starts_with, if◌then◌else◌, Text,
  codes,
}
use edge_guardian.Rewrites.{rewrites, forward, api_upstream}

-- The length of a pattern without `:path*`.
abbrev fixed : Text → ℕ
fixed pattern = length pattern - 6

abbrev matched : Text → Text → Option Text
matched source path =
    if starts_with path (take (fixed source) source) then some (drop (fixed source) path) else none

abbrev filled : Text → Text → Text
filled destination value = take (fixed destination) destination ++ value

-- The rules without the settings of the environment, and with them.
forwarded :
    forward matched filled (rewrites none none) (codes "/api/v1/devices/pi-1")
    ≡ some (codes "http://controller:8443/api/v1/devices/pi-1")
unfolding forward rewrites api_upstream starts_with take drop
forwarded = refl

forwarded_elsewhere :
    forward matched filled (rewrites (some (codes "http://api")) none) (codes "/api/v1/me")
    ≡ some (codes "http://api/api/v1/me")
unfolding forward rewrites api_upstream starts_with take drop
forwarded_elsewhere = refl

not_forwarded : forward matched filled (rewrites none none) (codes "/devices") ≡ none
unfolding forward rewrites api_upstream starts_with take drop
not_forwarded = refl
