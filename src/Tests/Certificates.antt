-- ===== src/Tests/Certificates.antt =====
-- The paging of the lists and ui/app/(dashboard)/certificates/page.tsx at concrete inputs.
use edge_guardian.Base.{
  ◌≢◌, ℕ, ◌≤◌, ◌<◌, ◌↔◌, ◌-◌, ◌*◌, ◌≡◌, refl, true, not, ◌&&◌, ◌==◌, if◌then◌else◌, none, List, [],
  ◌∷◌, ◌++◌, Text, codes, text_eq, arith, length, all, min, slice, false, some,
}
use edge_guardian.Api.Certificates.{Certificate, CertificateRequest}
use edge_guardian.Paging.{total_pages, page_of}
use edge_guardian.Paging.Laws.{pages_from, pages_from-all}
use edge_guardian.CertificatesPage.{request_effective_state, safe_page, paged, page_size}
use edge_guardian.CertificatesPage.States.{issued, request_effective_state-issued}
use edge_guardian.CertificatesPage.Screen.{last_page, next_requests}
use edge_guardian.CertificatesPage.Browsing.{listed, browsed, clicked, next_requests-all}
use edge_guardian.CertificatesPage.Dialogs.{
  CertificateEvent, reject_button, revoke_button, resolved_toggle, after_events, first_shown,
}
use edge_guardian.CertificatesPage.Dialogs.Targets.{
  IsRejection, IsRevocation, after_events-confirmed,
}
use edge_guardian.CertificatesPage.Screen.{reject_confirmed, revoke_confirmed}
use edge_guardian.Api.Certificates.{reject_cert_request}
use edge_guardian.CertificatesPage
use edge_guardian.Http
use edge_guardian.Http.{
  HttpRequest, Fetched, Response, response, api_fetch_text, raw_fetch, check_status,
}
use edge_guardian.LogsPage.Screen.{File}
use edge_guardian.CertificatesPage.Screen.{download_ca_cert}
use edge_guardian.Api.Certificates.{get_ca_cert}
use edge_guardian.CertificatesPage.Download.{
  ca_downloaded, file_offered, ca_downloaded-file_offered_iff,
}

abbrev values : List ℕ
values = 4 ∷ 5 ∷ 6 ∷ []

-- Two pages hold three values.
both_pages :
    (pages_from (total_pages 3 2) 0 2 values ≡ values)
    × (length (page_of 1 2 values) ≡ min 2 (3 - 1 * 2))
both_pages = pages_from-all 2 1 values (omega arith)

abbrev request : Text → CertificateRequest
request state = record {
  id = 1;
  device_id = codes "pi-1";
  name = codes "web";
  common_name = codes "pi-1.local";
  sans = [];
  type = codes "INITIAL";
  state = state;
  reject_reason = none;
  reviewed_at = none;
  created_at = [];
}

abbrev certificate : Certificate
certificate = record {
  id = 1;
  device_id = codes "pi-1";
  name = codes "web";
  common_name = codes "pi-1.local";
  serial_number = codes "0a";
  status = codes "revoked";
  not_before = [];
  not_after = [];
  revoked = true;
  revoke_reason = none;
  created_at = [];
}

request_effective_state-issued_example :
    request_effective_state (certificate ∷ []) (request (codes "approved")) ≡ (
      if text_eq (codes "approved") (codes "approved")
        && not (length (issued (certificate ∷ []) (request (codes "approved"))) == 0)
        && all
            (λ (c : Certificate). c.revoked)
            (issued (certificate ∷ []) (request (codes "approved")))
      then codes "revoked"
      else codes "approved")
request_effective_state-issued_example =
    request_effective_state-issued (certificate ∷ []) (request (codes "approved")) (omega arith, tt)
      (omega arith)

-- Of four entries the page shows the last that there is.
last_shown : paged 4 values ≡ values
unfolding paged page_of slice
last_shown = refl

-- A queue of 24 requests, on two pages.
abbrev eight : List CertificateRequest
eight =
    request (codes "pending")
    ∷ request (codes "approved")
    ∷ request (codes "rejected")
    ∷ request (codes "pending")
    ∷ request (codes "pending")
    ∷ request (codes "approved")
    ∷ request (codes "pending")
    ∷ request (codes "pending")
    ∷ []

abbrev queue : List CertificateRequest
queue = eight ++ eight ++ eight

abbrev first_page : CertificatesPage.PageState
first_page = record {
  revoke_target = none;
  reject_target = none;
  show_resolved = true;
  req_page = 0;
  cert_page = 0;
}

two_pages : last_page queue ≡ 1
two_pages = refl

next_requests-all_example :
    (browsed queue (last_page (listed queue first_page)) first_page ≡ listed queue first_page)
    × (next_requests queue (clicked queue (last_page (listed queue first_page)) first_page)
        ≡ clicked queue (last_page (listed queue first_page)) first_page)
next_requests-all_example = next_requests-all queue first_page refl

-- The user clicks the button of a request that is resolved, and of one that is pending.
abbrev clicks : List CertificateEvent
clicks =
    resolved_toggle
    ∷ reject_button (request (codes "approved"))
    ∷ reject_button (request (codes "pending"))
    ∷ revoke_button certificate
    ∷ []

abbrev IsListed : CertificateRequest → Type 0
IsListed r = r.device_id ≡ codes "pi-1"

abbrev IsNumbered : Certificate → Type 0
IsNumbered c = c.serial_number ≡ codes "0a"

after_events-confirmed_example :
    IsRejection IsListed IsNumbered
      (codes "t")
      (reject_confirmed (codes "t") false (after_events clicks first_shown))
    × IsRevocation IsListed IsNumbered
        (codes "t")
        (revoke_confirmed (codes "t") false (after_events clicks first_shown))
after_events-confirmed_example =
    after_events-confirmed IsListed IsNumbered (codes "t") false clicks
      (tt, (refl, (refl, (refl, tt))))

-- Only the pending one is rejected, and a certificate that is revoked is not revoked again.
pending_rejected :
    (reject_confirmed (codes "t") false (after_events clicks first_shown)
      ≡ some (reject_cert_request (codes "t") 1 none))
    × (revoke_confirmed (codes "t") false (after_events clicks first_shown) ≡ none)
unfolding reject_confirmed revoke_confirmed after_events text_eq
pending_rejected = (refl, refl)

abbrev with_pem : HttpRequest → Fetched
with_pem r = response record { status = 200; status_text = codes "OK"; text = some (codes "PEM") }

abbrev pem_file : File
pem_file = record { name = codes "edgeguardian-ca.crt"; content = codes "PEM" }

ca_downloaded-file_offered_iff_example :
    (ca_downloaded (codes "https://c") with_pem (codes "t") (some 7) ≡ file_offered pem_file) ↔ (
      (n : ℕ) × (r : Response) × (codes "t" ≢ [])
      × (some 7 ≡ some n)
      × (n ≢ 0)
      × (with_pem (
            Http.request
              (codes "https://c")
              with_pem
              (get_ca_cert (codes "t")).path
              (get_ca_cert (codes "t")).options)
          ≡ response r)
      × (200 ≤ r.status)
      × (r.status < 300)
      × (r.text ≡ some (codes "PEM"))
      × (codes "edgeguardian-ca.crt" ≡ codes "edgeguardian-ca.crt"))
ca_downloaded-file_offered_iff_example =
    ca_downloaded-file_offered_iff (codes "https://c") with_pem (codes "t") (some 7) pem_file

-- The file is offered.
pem_offered :
    ca_downloaded (codes "https://c") with_pem (codes "t") (some 7) ≡ file_offered pem_file
unfolding ca_downloaded download_ca_cert api_fetch_text raw_fetch check_status
pem_offered = refl
