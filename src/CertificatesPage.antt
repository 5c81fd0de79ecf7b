-- ===== src/CertificatesPage.antt =====
-- ui/app/(dashboard)/certificates/page.tsx: the queue of certificate requests and the issued
-- certificates, with what the screen makes of their states.
pub mod States
pub mod Queue
pub mod Download
pub mod Browsing
pub mod Screen
pub mod Dialogs
use edge_guardian.Base.{
  ℕ, ◌+◌, ◌-◌, ◌*◌, ◌/◌, Bool, true, false, not, ◌&&◌, ◌||◌, Option, none, List, [], ◌∷◌, ◌++◌,
  Text, codes, text_eq, ◌==◌, ltb, if◌then◌else◌, get_or, filter, any, length, lookup, insert, min,
  max,
}
use edge_guardian.Decimal.{to_string}
use edge_guardian.Api.Certificates.{Certificate, CertificateRequest}
use edge_guardian.Paging.{total_pages, page_of}

-- A `Badge` with the colour of its class, or the outlined one that shows the text as it is.
pub data Badge : Type 0 where
  coloured : Text → Text → Badge
  outline : Text → Badge

unfoldable pub status_badge : Text → Badge
status_badge status =
    if text_eq status (codes "valid")
    then coloured (codes "emerald") (codes "Valid")
    else if text_eq status (codes "expiring")
    then coloured (codes "amber") (codes "Expiring Soon")
    else if text_eq status (codes "expired")
    then coloured (codes "red") (codes "Expired")
    else if text_eq status (codes "revoked")
    then coloured (codes "zinc") (codes "Revoked")
    else outline status

unfoldable pub request_state_badge : Text → Badge
request_state_badge state =
    if text_eq state (codes "pending")
    then coloured (codes "amber") (codes "Pending")
    else if text_eq state (codes "approved")
    then coloured (codes "emerald") (codes "Approved")
    else if text_eq state (codes "rejected")
    then coloured (codes "red") (codes "Rejected")
    else if text_eq state (codes "revoked")
    then coloured (codes "zinc") (codes "Revoked")
    else if text_eq state (codes "blocked")
    then coloured (codes "red-600") (codes "Blocked - Compromise")
    else outline state

abbrev pub day : ℕ
day = 1000 * 60 * 60 * 24

-- `Math.floor((until - now) / day)` is negative if `until` is before `now`; both are in milliseconds.
unfoldable pub time_until : ℕ → ℕ → Text
time_until now until =
    if ltb until now
    then to_string ((now - until + day - 1) / day) ++ codes "d ago"
    else if (until - now) / day == 0
    then codes "today"
    else codes "in " ++ to_string ((until - now) / day) ++ codes "d"

-- `${deviceId}|${name}`
unfoldable pub device_name_key : Text → Text → Text
device_name_key device_id name = device_id ++ b'|' ∷ name

-- The loop of `certsByDeviceName`, over a `Map`.
unfoldable pub group_from :
    List (Text × List Certificate) → List Certificate → List (Text × List Certificate)
unfolding device_name_key
group_from m [] = m
group_from m (c ∷ cs) =
    let key = device_name_key c.device_id c.name in
    group_from (insert key (get_or (lookup key m) [] ++ c ∷ []) m) cs

unfoldable pub certs_by_device_name : List Certificate → List (Text × List Certificate)
unfolding group_from
certs_by_device_name certs = group_from [] certs

abbrev pub state_of : List Certificate → Text → Text
state_of matches state =
    if length matches == 0
    then state
    else if not (any (λ (c : Certificate). not c.revoked) matches)
        && any (λ (c : Certificate). c.revoked) matches
    then codes "revoked"
    else state

-- `requestEffectiveState`
unfoldable pub request_effective_state : List Certificate → CertificateRequest → Text
unfolding certs_by_device_name any
request_effective_state certs req =
    if not (text_eq req.state (codes "approved"))
    then req.state
    else state_of
        (get_or (lookup (device_name_key req.device_id req.name) (certs_by_device_name certs)) [])
        req.state

unfoldable pub is_actionable : CertificateRequest → Bool
is_actionable r = text_eq r.state (codes "pending") || text_eq r.state (codes "blocked")

unfoldable pub pending_count : List CertificateRequest → ℕ
unfolding filter
pending_count requests = length (filter (λ r. text_eq r.state (codes "pending")) requests)

unfoldable pub resolved_count : List CertificateRequest → ℕ
unfolding filter is_actionable
resolved_count requests = length (filter (λ r. not (is_actionable r)) requests)

unfoldable pub visible_requests : Bool → List CertificateRequest → List CertificateRequest
unfolding filter is_actionable
visible_requests show_resolved requests = filter (λ r. show_resolved || is_actionable r) requests

abbrev pub page_size : ℕ
page_size = 20

-- `Math.max(1, Math.ceil(list.length / pageSize))` and `Math.min(page, totalPages - 1)`
unfoldable pub safe_page {ℓ} : {A : Type ℓ} → ℕ → List A → ℕ
safe_page page list = min page (max 1 (total_pages (length list) page_size) - 1)

-- `pagedRequests` and `pagedCerts`
unfoldable pub paged {ℓ} : {A : Type ℓ} → ℕ → List A → List A
unfolding safe_page
paged page list = page_of (safe_page page list) page_size list

-- The component's state, and the three mutations: what they do when they settle.
pub record PageState : Type 0 where
  pub revoke_target : Option Certificate
  pub reject_target : Option CertificateRequest
  pub show_resolved : Bool
  pub req_page : ℕ
  pub cert_page : ℕ

pub data Mutation : Type 0 where
  approve reject revoke : Mutation

-- The queries that are read anew, and the toast.
pub record Effects : Type 0 where
  pub requests_invalidated : Bool
  pub certificates_invalidated : Bool
  pub error_toast : Bool
  pub toast : Text

unfoldable pub settle : Mutation → Bool → PageState → PageState × Effects
settle approve true s = (
  s,
  record {
    requests_invalidated = true;
    certificates_invalidated = true;
    error_toast = false;
    toast = codes "Certificate approved and issued";
  },
)
settle approve false s = (
  s,
  record {
    requests_invalidated = false;
    certificates_invalidated = false;
    error_toast = true;
    toast = codes "Failed to approve certificate";
  },
)
settle reject true s = (
  record s { reject_target = none },
  record {
    requests_invalidated = true;
    certificates_invalidated = false;
    error_toast = false;
    toast = codes "Certificate request rejected";
  },
)
settle reject false s = (
  s,
  record {
    requests_invalidated = false;
    certificates_invalidated = false;
    error_toast = true;
    toast = codes "Failed to reject request";
  },
)
settle revoke true s = (
  record s { revoke_target = none },
  record {
    requests_invalidated = false;
    certificates_invalidated = true;
    error_toast = false;
    toast = codes "Certificate revoked";
  },
)
settle revoke false s = (
  s,
  record {
    requests_invalidated = false;
    certificates_invalidated = false;
    error_toast = true;
    toast = codes "Failed to revoke certificate";
  },
)

-- The button that shows or hides the resolved requests.
unfoldable pub toggle_resolved : PageState → PageState
toggle_resolved s = record s { show_resolved = not s.show_resolved; req_page = 0 }
