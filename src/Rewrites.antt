-- ===== src/Rewrites.antt =====
-- ui/next.config.ts: what the server of the console passes on to the controller and to Keycloak. How
-- Next.js matches an address with a source, and fills in a destination, are parameters.
use edge_guardian.Base.{Option, none, some, List, [], ◌∷◌, ◌++◌, Text, codes, get_or}

pub record Rewrite : Type 0 where
  pub source : Text
  pub destination : Text

-- `process.env.INTERNAL_API_URL ?? …`
unfoldable pub api_upstream : Option Text → Text
api_upstream internal_api_url = get_or internal_api_url (codes "http://controller:8443")

unfoldable pub keycloak_upstream : Option Text → Text
keycloak_upstream internal_keycloak_url =
    get_or internal_keycloak_url (codes "http://keycloak:9090")

unfoldable pub rewrites : (internal_api_url internal_keycloak_url : Option Text) → List Rewrite
unfolding api_upstream keycloak_upstream
rewrites internal_api_url internal_keycloak_url =
    record {
      source = codes "/api/v1/:path*";
      destination = api_upstream internal_api_url ++ codes "/api/v1/:path*";
    }
    ∷ record {
      source = codes "/kc/:path*";
      destination = keycloak_upstream internal_keycloak_url ++ codes "/kc/:path*";
    }
    ∷ []

-- The value of `:path*` if a path matches a source, and the destination for that value.
module _ (matched : (source path : Text) → Option Text)
    (filled : (destination value : Text) → Text) where
  -- The first rule that matches sends the request on; none if the console answers it itself.
  unfoldable pub forward : List Rewrite → Text → Option Text
  forward [] path = none
  forward (r ∷ rules) path = elim (matched r.source path) [
    | some value ↦ some (filled r.destination value)
    | none ↦ forward rules path
  ]
