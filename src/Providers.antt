-- ===== src/Providers.antt =====
-- ui/components/providers.tsx: what stands round all pages: how often the session is read, how long a
-- query's data is fresh, and the cookie of the theme.
use edge_guardian.Base.{ℕ, ◌*◌, ◌++◌, Option, none, some, Text, codes, truthy, if◌then◌else◌}

-- `refetchInterval` of the session, in seconds
abbrev pub session_refetch_interval : ℕ
session_refetch_interval = 4 * 60

-- The defaults of the queries.
pub record QueryDefaults : Type 0 where
  pub stale_time : ℕ
  pub retry : ℕ

abbrev pub query_defaults : QueryDefaults
query_defaults = record { stale_time = 30 * 1000; retry = 1 }

-- What `ThemeCookieSync` writes to `document.cookie`, if the theme is resolved.
unfoldable pub theme_cookie : Option Text → Option Text
theme_cookie none = none
theme_cookie (some theme) =
    if truthy theme
    then some (codes "eg-theme=" ++ theme ++ codes ";path=/;max-age=31536000;SameSite=Lax")
    else none
