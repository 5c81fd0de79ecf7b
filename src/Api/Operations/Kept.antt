-- ===== src/Api/Operations/Kept.antt =====
-- Device identifiers that an address carries as they are: the browser's URL parser neither cuts an address
-- at them, nor encodes or normalises them.
use edge_guardian.Base.{
  ℕ, ◌≡◌, ◌≢◌, refl, sym, ap, ◌∙◌, Bool, true, false, ◌&&◌, ◌||◌, ◌==◌, leb, [], ◌∷◌, Text, codes,
  All,
}
use edge_guardian.Endpoints.{
  Endpoint, me, devices_by_id, devices_manifest, devices_labels, devices_logs, devices_telemetry,
  devices_telemetry_hourly, shell_sessions,
}
use edge_guardian.Endpoints.Routing.{IsRoutable}
use edge_guardian.Api.Operations.Laws.{IsAddressable}

-- A letter, a digit, or one of some signs.
abbrev pub is_kept_code : ℕ → Bool
is_kept_code c =
    (leb b'a' c && leb c b'z')
    || (leb b'A' c && leb c b'Z')
    || (leb b'0' c && leb c b'9')
    || (c == b'-')
    || (c == b'_')
    || (c == b'.')
    || (c == b':')
    || (c == b'~')

-- Not empty, of such codes, and not one of the two names that stand for a folder.
pub record IsKeptId (id : Text) : Type 0 where
  pub named : id ≢ []
  pub kept : All (λ c. is_kept_code c ≡ true) id
  pub not_here : id ≢ codes "."
  pub not_above : id ≢ codes ".."

abbrev pub IsKept : Endpoint → Type 0
IsKept (devices_by_id id) = IsKeptId id × (id ≢ codes "count")
IsKept (devices_manifest id) = IsKeptId id
IsKept (devices_labels id) = IsKeptId id
IsKept (devices_logs id) = IsKeptId id
IsKept (devices_telemetry id) = IsKeptId id
IsKept (devices_telemetry_hourly id) = IsKeptId id
IsKept (shell_sessions id) = IsKeptId id
IsKept _ = Unit

Without-kept :
    (sep : ℕ) (id : Text)
    → is_kept_code sep ≡ false
    → All (λ c. is_kept_code c ≡ true) id
    → All (λ c. c ≢ sep) id
Without-kept sep [] n h = tt
Without-kept sep (c ∷ id) n (h, hs) =
    (λ e. let z : true ≡ false = sym h ∙ ap is_kept_code e ∙ n in cc, Without-kept sep id n hs)

no_query : (id : Text) → IsKeptId id → All (λ c. c ≢ b'?') id
no_query id h = Without-kept b'?' id refl h.kept

pub no_slash : (id : Text) → IsKeptId id → All (λ c. c ≢ b'/') id
no_slash id h = Without-kept b'/' id refl h.kept

pub IsKept-IsAddressable : (e : Endpoint) → IsKept e → IsAddressable e
IsKept-IsAddressable (devices_by_id id) (h, n) = no_query id h
IsKept-IsAddressable (devices_manifest id) h = no_query id h
IsKept-IsAddressable (devices_labels id) h = no_query id h
IsKept-IsAddressable (devices_logs id) h = no_query id h
IsKept-IsAddressable (devices_telemetry id) h = no_query id h
IsKept-IsAddressable (devices_telemetry_hourly id) h = no_query id h
IsKept-IsAddressable (shell_sessions id) h = no_query id h
IsKept-IsAddressable me h = tt
IsKept-IsAddressable e h = tt

pub IsKept-IsRoutable : (e : Endpoint) → IsKept e → IsRoutable e
IsKept-IsRoutable (devices_by_id id) (h, n) = (no_slash id h, n)
IsKept-IsRoutable (devices_manifest id) h = no_slash id h
IsKept-IsRoutable (devices_labels id) h = no_slash id h
IsKept-IsRoutable (devices_logs id) h = no_slash id h
IsKept-IsRoutable (devices_telemetry id) h = no_slash id h
IsKept-IsRoutable (devices_telemetry_hourly id) h = no_slash id h
IsKept-IsRoutable (shell_sessions id) h = no_slash id h
IsKept-IsRoutable me h = tt
IsKept-IsRoutable e h = tt
