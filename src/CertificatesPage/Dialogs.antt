-- ===== src/CertificatesPage/Dialogs.antt =====
-- ui/app/(dashboard)/certificates/page.tsx: what can happen on the page, as one type of events.
pub mod Targets
use edge_guardian.Base.{Bool, false, Option, none, List, [], ◌∷◌}
use edge_guardian.Api.Certificates.{Certificate, CertificateRequest}
use edge_guardian.CertificatesPage.{PageState, Mutation, settle, toggle_resolved}
use edge_guardian.CertificatesPage.Screen.{
  ask_reject, ask_revoke, reject_dialog_changed, revoke_dialog_changed, previous_requests,
  next_requests, previous_certificates, next_certificates,
}

-- The `useState` values.
abbrev pub first_shown : PageState
first_shown = record {
  revoke_target = none;
  reject_target = none;
  show_resolved = false;
  req_page = 0;
  cert_page = 0;
}

-- The buttons of the rows and of the pages with what is loaded then, the two dialogs, the button of
-- the resolved requests, and the end of a mutation.
pub data CertificateEvent : Type 0 where
  reject_button : CertificateRequest → CertificateEvent
  revoke_button : Certificate → CertificateEvent
  reject_dialog revoke_dialog : Bool → CertificateEvent
  resolved_toggle : CertificateEvent
  requests_before requests_after : List CertificateRequest → CertificateEvent
  certificates_before certificates_after : List Certificate → CertificateEvent
  ended : Mutation → Bool → CertificateEvent

unfoldable pub on_event : CertificateEvent → PageState → PageState
unfolding ask_reject ask_revoke reject_dialog_changed revoke_dialog_changed toggle_resolved
    previous_requests next_requests previous_certificates next_certificates settle
on_event (reject_button r) s = ask_reject r s
on_event (revoke_button c) s = ask_revoke c s
on_event (reject_dialog b) s = reject_dialog_changed b s
on_event (revoke_dialog b) s = revoke_dialog_changed b s
on_event resolved_toggle s = toggle_resolved s
on_event (requests_before rs) s = previous_requests rs s
on_event (requests_after rs) s = next_requests rs s
on_event (certificates_before cs) s = previous_certificates cs s
on_event (certificates_after cs) s = next_certificates cs s
on_event (ended m succeeded) s = (settle m succeeded s).0

unfoldable pub after_events : List CertificateEvent → PageState → PageState
unfolding on_event
after_events [] s = s
after_events (e ∷ es) s = after_events es (on_event e s)
