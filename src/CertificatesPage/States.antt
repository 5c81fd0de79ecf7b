-- ===== src/CertificatesPage/States.antt =====
-- What state the screen shows for a request.
use edge_guardian.Base.{
  ◌≡◌, ◌≢◌, refl, sym, Bool, not, ◌&&◌, List, [], ◌∷◌, ◌++◌, append-nil, append_assoc, Text, codes,
  text_eq, text_eq_iff, ◌==◌, ==_iff, if◌then◌else◌, get_or, filter, any, all, length, lookup,
  insert, lookup-insert, arith, Bool-cases, All, inl, inr,
}
use edge_guardian.Api.Certificates.{Certificate, CertificateRequest}
use edge_guardian.CertificatesPage.{
  device_name_key, group_from, certs_by_device_name, state_of, request_effective_state,
}

abbrev pub has_key : Text → Certificate → Bool
has_key key c = text_eq (device_name_key c.device_id c.name) key

group-lookup :
    (m : List (Text × List Certificate)) (cs : List Certificate) (key : Text)
    → get_or (lookup key (group_from m cs)) [] ≡ get_or (lookup key m) [] ++ filter (has_key key) cs
unfolding group_from filter
group-lookup m [] key = sym (append-nil _)
group-lookup m (c ∷ cs) key =
    let k : Text = device_name_key c.device_id c.name in
    let v : List Certificate = get_or (lookup k m) [] ++ c ∷ [] in
    let step = group-lookup (insert k v m) cs key in
    elim (Bool-cases (text_eq k key)) [
      | inl e ↦ rw (step, lookup-insert k key v m, e, (text_eq_iff k key).0 e, append_assoc)
      | inr e ↦ rw (step, lookup-insert k key v m, e)
    ]

-- No bar, so that the key of a device and a name can be taken apart.
abbrev pub NoBar : Text → Type 0
NoBar = All (λ c. c ≢ b'|')

text_eq-key :
    (d n e m : Text)
    → NoBar d
    → NoBar e
    → text_eq (device_name_key d n) (device_name_key e m) ≡ (text_eq d e && text_eq n m)
unfolding device_name_key text_eq
text_eq-key [] n [] m hd he = ground arith
text_eq-key [] n (y ∷ e) m hd (hy, he) = ground (arith, ==_iff b'|' y)
text_eq-key (x ∷ d) n [] m (hx, hd) he = ground (arith, ==_iff x b'|')
text_eq-key (x ∷ d) n (y ∷ e) m (hx, hd) (hy, he) = ground (arith, text_eq-key d n e m hd he)

-- The certificates that the request's device has under the requested name.
abbrev pub issued : List Certificate → CertificateRequest → List Certificate
issued certs req =
    filter (λ (c : Certificate). text_eq c.device_id req.device_id && text_eq c.name req.name) certs

filter-has_key :
    (certs : List Certificate) (req : CertificateRequest)
    → All (λ (c : Certificate). NoBar c.device_id) certs
    → NoBar req.device_id
    → filter (has_key (device_name_key req.device_id req.name)) certs ≡ issued certs req
unfolding filter
filter-has_key [] req h hr = refl
filter-has_key (c ∷ cs) req (hc, h) hr =
    rw (text_eq-key c.device_id c.name req.device_id req.name hc hr, filter-has_key cs req h hr)

any-not :
    (certs : List Certificate)
    → not (any (λ (c : Certificate). not c.revoked) certs)
      ≡ all (λ (c : Certificate). c.revoked) certs
unfolding any all
any-not [] = refl
any-not (c ∷ cs) = ground (arith, any-not cs)

state_of_lem :
    (certs : List Certificate) (state : Text)
    → state_of certs state ≡ (
        if not (length certs == 0) && all (λ (c : Certificate). c.revoked) certs
        then codes "revoked"
        else state)
unfolding any all
state_of_lem [] state = refl
state_of_lem (c ∷ cs) state = ground (arith, any-not (c ∷ cs))

-- The state that is shown for an approved request is looked up under a key that joins the device
-- and the name with a bar. If no device id holds a bar, it is the one that the certificates of
-- that device and name give: revoked if there are any and all are revoked, else the stored state.
pub request_effective_state-issued :
    (certs : List Certificate) (req : CertificateRequest)
    → All (λ (c : Certificate). NoBar c.device_id) certs
    → NoBar req.device_id
    → request_effective_state certs req ≡ (
        if text_eq req.state (codes "approved")
          && not (length (issued certs req) == 0)
          && all (λ (c : Certificate). c.revoked) (issued certs req)
        then codes "revoked"
        else req.state)
unfolding request_effective_state certs_by_device_name lookup filter
request_effective_state-issued certs req h hr =
    let found = filter-has_key certs req h hr in
    let look = group-lookup [] certs (device_name_key req.device_id req.name) in
    elim (Bool-cases (text_eq req.state (codes "approved"))) [
      | inl e ↦ rw (e, look, found, state_of_lem (issued certs req) req.state)
      | inr e ↦ rw e refl
    ]
