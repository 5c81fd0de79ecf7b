-- ===== src/Endpoints/Routing.antt =====
-- A server that splits a path at its slashes finds the endpoint that was meant.
use edge_guardian.Base.{
  split_from, split_from_last, split_from_part, Without, String, ℕ, ◌≡◌, ◌≢◌, refl, Bool, true,
  Option, none, some, List, [], ◌∷◌, ◌++◌, Text, codes, text_eq, text_eq_iff, if◌then◌else◌, All,
  arith, ◌&&◌,
}
use edge_guardian.Decimal.{to_string, parse_int, is_digit}
use edge_guardian.Decimal.RoundTrip.{to_string-All, parse_int-to_string}
use edge_guardian.Endpoints.{
  Endpoint, me, organization_get, organization_update, organization_audit_log, members_list,
  members_create, members_by_id, invitations_list, invitations_by_id, api_keys_list,
  api_keys_create, api_keys_by_id, enrollment_tokens_list, enrollment_tokens_create,
  enrollment_tokens_by_id, devices_list, devices_count, devices_by_id, devices_manifest,
  devices_labels, devices_logs, devices_telemetry, devices_telemetry_hourly, shell_sessions,
  shell_ws, certificates_list, certificates_ca, certificates_revoke, requests_list,
  requests_approve, requests_reject, agent_installer, url,
}

-- The parts of a path between its slashes.
unfoldable pub split_path : Text → List Text
unfolding split_from
split_path s = split_from b'/' [] s

-- The paths that serve two methods have one endpoint.
unfoldable pub canonical : Endpoint → Endpoint
canonical organization_update = organization_get
canonical members_create = members_list
canonical api_keys_create = api_keys_list
canonical enrollment_tokens_create = enrollment_tokens_list
canonical e = e

-- A part that has to be a number.
pub numbered : (ℕ → Endpoint) → Option ℕ → Option Endpoint
numbered e none = none
numbered e (some n) = some (e n)

-- The first entry whose word is the part.
pub choose : Text → List (String × Endpoint) → Option Endpoint
choose part [] = none
choose part ((word, e) ∷ rest) = if text_eq part (codes word) then some e else choose part rest

abbrev pub is_text : Text → String → Bool
is_text part word = text_eq part (codes word)

pub route_one : Text → Option Endpoint
unfolding choose
route_one c = choose c (
    ("me", me)
    ∷ ("organization", organization_get)
    ∷ ("api-keys", api_keys_list)
    ∷ ("enrollment-tokens", enrollment_tokens_list)
    ∷ ("devices", devices_list)
    ∷ ("certificates", certificates_list)
    ∷ [])

pub route_two : Text → Text → Option Endpoint
unfolding choose numbered
route_two c p =
    if is_text c "organization"
    then choose p (
        ("audit-log", organization_audit_log)
        ∷ ("members", members_list)
        ∷ ("invitations", invitations_list)
        ∷ [])
    else if is_text c "api-keys"
    then numbered api_keys_by_id (parse_int p)
    else if is_text c "enrollment-tokens"
    then numbered enrollment_tokens_by_id (parse_int p)
    else if is_text c "devices"
    then (if is_text p "count" then some devices_count else some (devices_by_id p))
    else if is_text c "certificates"
    then choose p (("ca", certificates_ca) ∷ ("requests", requests_list) ∷ [])
    else if is_text c "agent" && is_text p "installer"
    then some agent_installer
    else none

pub route_three : Text → Text → Text → Option Endpoint
unfolding choose numbered
route_three c p q =
    if is_text c "organization"
    then (if is_text p "members"
        then numbered members_by_id (parse_int q)
        else if is_text p "invitations"
        then numbered invitations_by_id (parse_int q)
        else none)
    else if is_text c "certificates" && is_text q "revoke"
    then numbered certificates_revoke (parse_int p)
    else if is_text c "devices"
    then (if is_text q "ws" && is_text p "shell"
        then some shell_ws
        else choose q (
            ("manifest", devices_manifest p)
            ∷ ("labels", devices_labels p)
            ∷ ("logs", devices_logs p)
            ∷ ("telemetry", devices_telemetry p)
            ∷ []))
    else none

pub route_four : Text → Text → Text → Text → Option Endpoint
unfolding numbered
route_four c p q r =
    if is_text c "devices"
    then (if is_text q "telemetry" && is_text r "hourly"
        then some (devices_telemetry_hourly p)
        else if is_text q "shell" && is_text r "sessions"
        then some (shell_sessions p)
        else none)
    else if is_text c "certificates" && is_text p "requests"
    then (if is_text r "approve"
        then numbered requests_approve (parse_int q)
        else if is_text r "reject"
        then numbered requests_reject (parse_int q)
        else none)
    else none

pub route_parts : List Text → Option Endpoint
unfolding route_one route_two route_three route_four
route_parts (c ∷ []) = route_one c
route_parts (c ∷ p ∷ []) = route_two c p
route_parts (c ∷ p ∷ q ∷ []) = route_three c p q
route_parts (c ∷ p ∷ q ∷ r ∷ []) = route_four c p q r
route_parts _ = none

-- A server's table for the paths below `/api/v1`.
pub route : List Text → Option Endpoint
unfolding route_parts
route (a ∷ b ∷ v ∷ parts) =
    if is_text a "" && is_text b "api" && is_text v "v1" then route_parts parts else none
route _ = none

abbrev pub NoSlash : Text → Type 0
NoSlash = Without b'/'

-- The device identifiers that the paths can carry: no slash, and not the word `count` where the
-- identifier is the last part.
abbrev pub IsRoutable : Endpoint → Type 0
IsRoutable (devices_by_id id) = NoSlash id × (id ≢ codes "count")
IsRoutable (devices_manifest id) = NoSlash id
IsRoutable (devices_labels id) = NoSlash id
IsRoutable (devices_logs id) = NoSlash id
IsRoutable (devices_telemetry id) = NoSlash id
IsRoutable (devices_telemetry_hourly id) = NoSlash id
IsRoutable (shell_sessions id) = NoSlash id
IsRoutable _ = Unit

NoSlash-of_digits : (s : Text) → All (λ c. is_digit c ≡ true) s → NoSlash s
NoSlash-of_digits [] h = tt
NoSlash-of_digits (c ∷ s) (h, hs) = (ground arith, NoSlash-of_digits s hs)

to_string-NoSlash : (n : ℕ) → NoSlash (to_string n)
to_string-NoSlash n = NoSlash-of_digits (to_string n) (to_string-All n)

split_from-number : (n : ℕ) → split_from b'/' [] (to_string n) ≡ to_string n ∷ []
split_from-number n = split_from_last b'/' [] (to_string n) (to_string-NoSlash n)

split_from-number_part :
    (n : ℕ) (rest : Text)
    → split_from b'/' [] (to_string n ++ b'/' ∷ rest) ≡ to_string n ∷ split_from b'/' [] rest
split_from-number_part n rest = split_from_part b'/' [] (to_string n) rest (to_string-NoSlash n)

-- Every path that the user interface builds leads a server that splits it at its slashes to the
-- endpoint that was meant and to the same number or device identifier, as long as a device
-- identifier holds no slash and is not `count` in the path of the device itself.
pub route-url : (e : Endpoint) → IsRoutable e → route (split_path (url e)) ≡ some (canonical e)
unfolding route split_path url canonical text_eq
route-url (devices_by_id id) (h, ne) =
    rw (split_from_last b'/' [] id h) (ground (arith, text_eq_iff id (codes "count")))
route-url (devices_manifest id) h = rw (split_from_part b'/' [] id (codes "manifest") h) refl
route-url (devices_labels id) h = rw (split_from_part b'/' [] id (codes "labels") h) refl
route-url (devices_logs id) h = rw (split_from_part b'/' [] id (codes "logs") h) refl
route-url (devices_telemetry id) h = rw (split_from_part b'/' [] id (codes "telemetry") h) refl
route-url (devices_telemetry_hourly id) h =
    rw (split_from_part b'/' [] id (codes "telemetry/hourly") h) refl
route-url (shell_sessions id) h = rw (split_from_part b'/' [] id (codes "shell/sessions") h) refl
route-url (members_by_id n) h = rw (split_from-number, parse_int-to_string) refl
route-url (invitations_by_id n) h = rw (split_from-number, parse_int-to_string) refl
route-url (api_keys_by_id n) h = rw (split_from-number, parse_int-to_string) refl
route-url (enrollment_tokens_by_id n) h = rw (split_from-number, parse_int-to_string) refl
route-url (certificates_revoke n) h = rw (split_from-number_part, parse_int-to_string) refl
route-url (requests_approve n) h = rw (split_from-number_part, parse_int-to_string) refl
route-url (requests_reject n) h = rw (split_from-number_part, parse_int-to_string) refl
route-url me h = refl
route-url e h = refl
