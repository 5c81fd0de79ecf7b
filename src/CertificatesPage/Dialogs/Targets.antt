-- ===== src/CertificatesPage/Dialogs/Targets.antt =====
-- What the two confirmations decide.
use edge_guardian.Base.{
  ◌≡◌, refl, sym, Bool, true, false, Option, none, some, List, [], ◌∷◌, Text, codes, text_eq,
  text_eq_iff, Bool-cases, inl, inr,
}
use edge_guardian.Api.Request.{Call}
use edge_guardian.Api.Certificates.{
  Certificate, CertificateRequest, reject_cert_request, revoke_certificate,
}
use edge_guardian.CertificatesPage.{PageState, approve, reject, revoke}
use edge_guardian.CertificatesPage.Screen.{
  can_decide, ask_reject, ask_revoke, reject_confirmed, revoke_confirmed,
}
use edge_guardian.CertificatesPage.Dialogs.{
  first_shown, CertificateEvent, reject_button, revoke_button, reject_dialog, revoke_dialog,
  resolved_toggle, requests_before, requests_after, certificates_before, certificates_after, ended,
  on_event, after_events,
}

-- What holds of the requests and the certificates whose rows are drawn.
module _ (Request : CertificateRequest → Type 0) (Issued : Certificate → Type 0) where
  abbrev pub IsRow : CertificateEvent → Type 0
  IsRow (reject_button r) = Request r
  IsRow (revoke_button c) = Issued c
  IsRow _ = Unit

  abbrev pub AreRows : List CertificateEvent → Type 0
  AreRows [] = Unit
  AreRows (e ∷ es) = IsRow e × AreRows es

  abbrev IsRejectTarget : Option CertificateRequest → Type 0
  IsRejectTarget none = Unit
  IsRejectTarget (some r) = Request r × (r.state ≡ codes "pending")

  abbrev IsRevokeTarget : Option Certificate → Type 0
  IsRevokeTarget none = Unit
  IsRevokeTarget (some c) = Issued c × (c.revoked ≡ false)

  abbrev IsTargeted : PageState → Type 0
  IsTargeted s = IsRejectTarget s.reject_target × IsRevokeTarget s.revoke_target

  ask_reject-IsTargeted :
      (r : CertificateRequest) (s : PageState)
      → Request r
      → IsTargeted s
      → IsTargeted (ask_reject r s)
  unfolding ask_reject can_decide
  ask_reject-IsTargeted r s row (t, u) = elim (Bool-cases (text_eq r.state (codes "pending"))) [
    | inl e ↦ rw e ((row, (text_eq_iff r.state (codes "pending")).0 e), u)
    | inr e ↦ rw e (t, u)
  ]

  ask_revoke-IsTargeted :
      (c : Certificate) (s : PageState) → Issued c → IsTargeted s → IsTargeted (ask_revoke c s)
  unfolding ask_revoke
  ask_revoke-IsTargeted c s row (t, u) = elim (Bool-cases c.revoked) [
    | inl e ↦ simp e (t, u)
    | inr e ↦ simp e (t, (row, refl))
  ]

  on_event-IsTargeted :
      (e : CertificateEvent) (s : PageState) → IsRow e → IsTargeted s → IsTargeted (on_event e s)
  unfolding on_event
  on_event-IsTargeted (reject_button r) s row h = ask_reject-IsTargeted r s row h
  on_event-IsTargeted (revoke_button c) s row h = ask_revoke-IsTargeted c s row h
  on_event-IsTargeted (reject_dialog true) s row h = h
  on_event-IsTargeted (reject_dialog false) s row (t, u) = (tt, u)
  on_event-IsTargeted (revoke_dialog true) s row h = h
  on_event-IsTargeted (revoke_dialog false) s row (t, u) = (t, tt)
  on_event-IsTargeted resolved_toggle s row h = h
  on_event-IsTargeted (requests_before rs) s row h = h
  on_event-IsTargeted (requests_after rs) s row h = h
  on_event-IsTargeted (certificates_before cs) s row h = h
  on_event-IsTargeted (certificates_after cs) s row h = h
  on_event-IsTargeted (ended approve true) s row h = h
  on_event-IsTargeted (ended approve false) s row h = h
  on_event-IsTargeted (ended reject true) s row (t, u) = (tt, u)
  on_event-IsTargeted (ended reject false) s row h = h
  on_event-IsTargeted (ended revoke true) s row (t, u) = (t, tt)
  on_event-IsTargeted (ended revoke false) s row h = h

  after_events-IsTargeted :
      (es : List CertificateEvent) (s : PageState)
      → AreRows es
      → IsTargeted s
      → IsTargeted (after_events es s)
  unfolding after_events
  after_events-IsTargeted [] s rows h = h
  after_events-IsTargeted (e ∷ es) s (row, rows) h =
      after_events-IsTargeted es (on_event e s) rows (on_event-IsTargeted e s row h)

  module _ (token : Text) where
    -- What is sent, if anything, rejects a request whose row was there and that was pending; revokes
    -- a certificate whose row was there and that was not revoked.
    abbrev pub IsRejection : Option Call → Type 0
    IsRejection none = Unit
    IsRejection (some c) =
        (r : CertificateRequest) × Request r
        × (r.state ≡ codes "pending")
        × (c ≡ reject_cert_request token r.id none)

    abbrev pub IsRevocation : Option Call → Type 0
    IsRevocation none = Unit
    IsRevocation (some c) =
        (x : Certificate) × Issued x × (x.revoked ≡ false) × (c ≡ revoke_certificate token x.id)

    reject_confirmed-IsRejection :
        (loading : Bool) (s : PageState) (target : Option CertificateRequest)
        → target ≡ s.reject_target
        → IsRejectTarget target
        → IsRejection (reject_confirmed token loading s)
    unfolding reject_confirmed
    reject_confirmed-IsRejection true s target e h = tt
    reject_confirmed-IsRejection false s none e h = rw (sym e) tt
    reject_confirmed-IsRejection false s (some r) e (row, p) = rw (sym e) (r, row, p, refl)

    revoke_confirmed-IsRevocation :
        (loading : Bool) (s : PageState) (target : Option Certificate)
        → target ≡ s.revoke_target
        → IsRevokeTarget target
        → IsRevocation (revoke_confirmed token loading s)
    unfolding revoke_confirmed
    revoke_confirmed-IsRevocation true s target e h = tt
    revoke_confirmed-IsRevocation false s none e h = rw (sym e) tt
    revoke_confirmed-IsRevocation false s (some c) e (row, p) = rw (sym e) (c, row, p, refl)

    -- After any events on the page, where a button of a row is clicked only in a row that is there:
    -- confirming sends a request, if any, that rejects such a request, which was pending, or revokes
    -- such a certificate, which was not revoked, when the dialog was opened.
    pub after_events-confirmed :
        (loading : Bool) (es : List CertificateEvent)
        → AreRows es
        → IsRejection (reject_confirmed token loading (after_events es first_shown))
          × IsRevocation (revoke_confirmed token loading (after_events es first_shown))
    after_events-confirmed loading es rows =
        let s = after_events es first_shown in
        let (t, u) = after_events-IsTargeted es first_shown rows (tt, tt) in
        (
          reject_confirmed-IsRejection loading s s.reject_target refl t,
          revoke_confirmed-IsRevocation loading s s.revoke_target refl u,
        )
