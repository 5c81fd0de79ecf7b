-- ===== src/CertificatesPage/Screen.antt =====
-- ui/app/(dashboard)/certificates/page.tsx: the queries, the buttons with the requests that they send,
-- and the rows of the two tables. `toLocaleDateString` is a parameter.
use edge_guardian.Base.{
  ℕ, ◌+◌, ◌-◌, ◌*◌, min, Bool, not, ◌&&◌, Option, none, some, List, [], ◌++◌, map, Text, codes,
  truthy, text_eq, ◌==◌, leb, ltb, max, if◌then◌else◌, get_or, length, take,
}
use edge_guardian.Decimal.{to_string}
use edge_guardian.Api.Request.{Call}
use edge_guardian.Api.Certificates.{
  Certificate, CertificateRequest, list_certificate_requests, list_certificates,
  approve_cert_request, reject_cert_request, revoke_certificate, get_ca_cert,
}
use edge_guardian.Organization.{unset}
use edge_guardian.Paging.{total_pages}
use edge_guardian.Table.{TableView, skeleton, nothing, table_rows}
use edge_guardian.ConfirmDialog.{confirm_clicked}
use edge_guardian.CertificatesPage.{
  PageState, Badge, status_badge, request_state_badge, request_effective_state, time_until,
  resolved_count, pending_count, visible_requests, page_size, safe_page, paged,
}

-- The queries and the download wait for the token and the current organization.
abbrev when_ready : Text → Option ℕ → Call → Option Call
when_ready token org_id c = if truthy token && not (unset org_id) then some c else none

unfoldable pub requests_query : Text → Option ℕ → Option Call
unfolding list_certificate_requests
requests_query token org_id = when_ready token org_id (list_certificate_requests token)

unfoldable pub certificates_query : Text → Option ℕ → Option Call
unfolding list_certificates
certificates_query token org_id = when_ready token org_id (list_certificates token)

unfoldable pub download_ca_cert : Text → Option ℕ → Option Call
unfolding get_ca_cert
download_ca_cert token org_id = when_ready token org_id (get_ca_cert token)

-- The buttons below the two tables; a button that is disabled does nothing.
abbrev pub last_page {ℓ} : {A : Type ℓ} → List A → ℕ
last_page list = max 1 (total_pages (length list) page_size) - 1

abbrev page_before {ℓ} : {A : Type ℓ} → List A → ℕ → ℕ
page_before list page = if safe_page page list == 0 then page else page - 1

abbrev pub page_after {ℓ} : {A : Type ℓ} → List A → ℕ → ℕ
page_after list page = if leb (last_page list) (safe_page page list) then page else page + 1

unfoldable pub previous_requests : List CertificateRequest → PageState → PageState
unfolding safe_page visible_requests
previous_requests requests s = record s {
  req_page = page_before (visible_requests s.show_resolved requests) s.req_page;
}

unfoldable pub next_requests : List CertificateRequest → PageState → PageState
unfolding safe_page visible_requests
next_requests requests s = record s {
  req_page = page_after (visible_requests s.show_resolved requests) s.req_page;
}

unfoldable pub previous_certificates : List Certificate → PageState → PageState
unfolding safe_page
previous_certificates certs s = record s { cert_page = page_before certs s.cert_page }

unfoldable pub next_certificates : List Certificate → PageState → PageState
unfolding safe_page
next_certificates certs s = record s { cert_page = page_after certs s.cert_page }

-- `Showing a-b of n`, if there is more than one page
unfoldable pub showing {ℓ} : {A : Type ℓ} → ℕ → List A → Option Text
unfolding safe_page to_string
showing page list =
    if ltb page_size (length list)
    then some (
        codes "Showing "
        ++ to_string (safe_page page list * page_size + 1)
        ++ codes "-"
        ++ to_string (min ((safe_page page list + 1) * page_size) (length list))
        ++ codes " of "
        ++ to_string (length list))
    else none

-- The buttons of a row: a request can be decided only while it is pending, and a certificate revoked
-- only once.
unfoldable pub can_decide : CertificateRequest → Bool
unfolding text_eq
can_decide r = text_eq r.state (codes "pending")

unfoldable pub approve_clicked : Text → Bool → CertificateRequest → Option Call
unfolding can_decide approve_cert_request
approve_clicked token is_pending r =
    if can_decide r && not is_pending then some (approve_cert_request token r.id) else none

unfoldable pub ask_reject : CertificateRequest → PageState → PageState
unfolding can_decide
ask_reject r s = if can_decide r then record s { reject_target = some r } else s

unfoldable pub ask_revoke : Certificate → PageState → PageState
ask_revoke c s = if c.revoked then s else record s { revoke_target = some c }

-- `onOpenChange` of the two dialogs
unfoldable pub reject_dialog_changed : Bool → PageState → PageState
reject_dialog_changed v s = if v then s else record s { reject_target = none }

unfoldable pub revoke_dialog_changed : Bool → PageState → PageState
revoke_dialog_changed v s = if v then s else record s { revoke_target = none }

-- What the dialogs send; the page gives no reason for a rejection.
unfoldable pub reject_confirmed : Text → Bool → PageState → Option Call
unfolding confirm_clicked reject_cert_request
reject_confirmed token loading s =
    confirm_clicked loading
      (elim (s.reject_target) [ none ↦ none | some r ↦ some (reject_cert_request token r.id none) ])

unfoldable pub revoke_confirmed : Text → Bool → PageState → Option Call
unfolding confirm_clicked revoke_certificate
revoke_confirmed token loading s =
    confirm_clicked loading
      (elim (s.revoke_target) [ none ↦ none | some c ↦ some (revoke_certificate token c.id) ])

-- `serialNumber.substring(0, 16)` with the dots
unfoldable pub short_serial : Text → Text
unfolding take
short_serial serial = take 16 serial ++ codes "..."

-- The count beside the first tab, if there is one.
unfoldable pub pending_badge : Option (List CertificateRequest) → Option ℕ
unfolding pending_count
pending_badge requests =
    if ltb 0 (pending_count (get_or requests []))
    then some (pending_count (get_or requests []))
    else none

unfoldable pub resolved_button : Bool → List CertificateRequest → Option Text
unfolding resolved_count to_string
resolved_button show_resolved requests =
    if ltb 0 (resolved_count requests)
    then some (
        if show_resolved
        then codes "Hide resolved"
        else codes "Show resolved (" ++ to_string (resolved_count requests) ++ codes ")")
    else none

pub record RequestRow : Type 0 where
  pub is_blocked : Bool
  pub device : Text
  pub name : Text
  pub common_name : Text
  pub type : Text
  pub state : Badge
  pub requested : Text
  pub has_buttons : Bool

pub record CertificateRow : Type 0 where
  pub device : Text
  pub name : Text
  pub common_name : Text
  pub serial : Text
  pub status : Badge
  pub expires : Text
  pub has_revoke : Bool

-- What an empty table of requests says.
abbrev no_requests : ℕ → TableView RequestRow
no_requests resolved =
    if ltb 0 resolved
    then nothing (codes "No pending requests") (
        codes "All requests are resolved. Use \"Show resolved\" to view "
        ++ to_string resolved
        ++ codes " past request"
        ++ (if resolved == 1 then codes "." else codes "s."))
    else nothing (codes "No certificate requests")
        (codes "Certificate requests from devices will appear here.")

module _ (format_date : Text → Text) (to_ms : Text → ℕ) (now : ℕ) where
  unfoldable pub request_row : List Certificate → CertificateRequest → RequestRow
  unfolding request_state_badge request_effective_state can_decide text_eq
  request_row certs r = record {
    is_blocked = text_eq r.state (codes "blocked");
    device = r.device_id;
    name = r.name;
    common_name = r.common_name;
    type = r.type;
    state = request_state_badge (request_effective_state certs r);
    requested = format_date r.created_at;
    has_buttons = can_decide r;
  }

  unfoldable pub certificate_row : Certificate → CertificateRow
  unfolding status_badge time_until short_serial
  certificate_row c = record {
    device = c.device_id;
    name = c.name;
    common_name = c.common_name;
    serial = short_serial c.serial_number;
    status = status_badge c.status;
    expires =
        format_date c.not_after ++ codes " (" ++ time_until now (to_ms c.not_after) ++ codes ")";
    has_revoke = not c.revoked;
  }

  unfoldable pub requests_table :
      Bool → List Certificate → List CertificateRequest → PageState → TableView RequestRow
  unfolding request_row paged visible_requests resolved_count to_string
  requests_table is_loading certs requests s =
      if is_loading
      then skeleton 3 7
      else if length (visible_requests s.show_resolved requests) == 0
      then no_requests (resolved_count requests)
      else table_rows
          (map (request_row certs) (paged s.req_page (visible_requests s.show_resolved requests)))

  unfoldable pub certificates_table : Bool → List Certificate → PageState → TableView CertificateRow
  unfolding certificate_row paged
  certificates_table is_loading certs s =
      if is_loading
      then skeleton 3 7
      else if length certs == 0
      then nothing (codes "No certificates issued")
          (codes "Approved certificates will appear here.")
      else table_rows (map certificate_row (paged s.cert_page certs))
