-- ===== src/CertificatesPage/Download.antt =====
-- ui/app/(dashboard)/certificates/page.tsx: the download of the CA certificate.
use edge_guardian.Base.{
  ℕ, ◌≤◌, ◌<◌, ◌≡◌, ◌≢◌, ◌↔◌, refl, inl, inr, Option, none, some, [], ◌∷◌, ◌==◌, Bool-cases, false,
  Text, codes, arith, Option-cases,
}
use edge_guardian.Http.{
  HttpRequest, Fetched, Response, response, Result, ok, err, request, api_fetch_text,
}
use edge_guardian.Http.Laws.{api_fetch_text-ok_iff}
use edge_guardian.Api.Request.{Call}
use edge_guardian.Api.Certificates.{get_ca_cert}
use edge_guardian.LogsPage.Screen.{File}
use edge_guardian.CertificatesPage.Screen.{download_ca_cert}

-- Nothing without a token and an organization, the file, or a toast.
pub data CaDownload : Type 0 where
  not_started : CaDownload
  file_offered : File → CaDownload
  file_refused : Text → CaDownload

abbrev pub ca_outcome : Result Text → CaDownload
ca_outcome (ok pem) = file_offered record { name = codes "edgeguardian-ca.crt"; content = pem }
ca_outcome (err failure) = file_refused (codes "Failed to download CA certificate")

module _ (base : Text) (fetch : HttpRequest → Fetched) where
  abbrev pub ca_request : Option Call → CaDownload
  ca_request none = not_started
  ca_request (some c) = ca_outcome (api_fetch_text base fetch c.path c.options)

  unfoldable pub ca_downloaded : Text → Option ℕ → CaDownload
  unfolding download_ca_cert api_fetch_text
  ca_downloaded token org_id = ca_request (download_ca_cert token org_id)

  ca_outcome-file_offered :
      (x : Result Text) (f : File)
      → ca_outcome x ≡ file_offered f
      → (x ≡ ok f.content) × (f.name ≡ codes "edgeguardian-ca.crt")
  ca_outcome-file_offered (ok pem) f h = (ground arith, ground arith)
  ca_outcome-file_offered (err e) f h = cc

  file_offered-ca_outcome :
      (x : Result Text) (f : File)
      → x ≡ ok f.content
      → f.name ≡ codes "edgeguardian-ca.crt"
      → ca_outcome x ≡ file_offered f
  file_offered-ca_outcome x f h n = rw (h, ← n) refl

  -- The page goes ahead with a token, and an organization whose number is not zero.
  IsReady : Text → Option ℕ → Type 0
  IsReady token org_id = (token ≢ []) × ((n : ℕ) × (org_id ≡ some n) × (n ≢ 0))

  download_ca_cert-some :
      (token : Text) (org_id : Option ℕ) (c : Call)
      → download_ca_cert token org_id ≡ some c
      → IsReady token org_id × (c ≡ get_ca_cert token)
  unfolding download_ca_cert IsReady
  download_ca_cert-some [] org_id c h = cc
  download_ca_cert-some (t ∷ ts) none c h = cc
  download_ca_cert-some (t ∷ ts) (some n) c h = elim (Bool-cases (n == 0)) [
    | inl z ↦ absurd (let w : none ≡ some c = rw z at h in cc)
    | inr z ↦
        let w : some (get_ca_cert (t ∷ ts)) ≡ some c = rw z at h in
        ((cc, (n, refl, ground arith)), cc)
  ]

  some-download_ca_cert :
      (token : Text) (org_id : Option ℕ)
      → IsReady token org_id
      → download_ca_cert token org_id ≡ some (get_ca_cert token)
  unfolding download_ca_cert IsReady
  some-download_ca_cert [] org_id (h, (n, o, ne)) = absurd (h refl)
  some-download_ca_cert (t ∷ ts) none (h, (n, o, ne)) = absurd cc
  some-download_ca_cert (t ∷ ts) (some m) (h, (n, o, ne)) =
      let z : (m == 0) ≡ false = ground arith in rw z refl

  -- A file is offered exactly if there is a token, an organization has been chosen, whose number is not
  -- zero, the request for the certificate was answered with a status from 200 to 299, and the file has
  -- the body of this answer and the name edgeguardian-ca.crt.
  pub ca_downloaded-file_offered_iff :
      (token : Text) (org_id : Option ℕ) (f : File)
      → (ca_downloaded token org_id ≡ file_offered f) ↔ (
          (n : ℕ) × (r : Response) × (token ≢ [])
          × (org_id ≡ some n)
          × (n ≢ 0)
          × (fetch (request base fetch (get_ca_cert token).path (get_ca_cert token).options)
              ≡ response r)
          × (200 ≤ r.status)
          × (r.status < 300)
          × (r.text ≡ some f.content)
          × (f.name ≡ codes "edgeguardian-ca.crt"))
  unfolding ca_downloaded IsReady
  ca_downloaded-file_offered_iff token org_id f = (
    λ h. elim (Option-cases (download_ca_cert token org_id)) [
      | inl q ↦ absurd (let z : not_started ≡ file_offered f = rw q at h in cc)
      | inr (c, q) ↦
          let ((ready, (n, o, ne)), same) = download_ca_cert-some token org_id c q in
          let (x, m) =
            ca_outcome-file_offered (api_fetch_text base fetch c.path c.options) f (rw q at h) in
          let (r, e, lo, hi, t) =
            (api_fetch_text-ok_iff base fetch c.path c.options f.content).0 x in
          (n, r, ready, o, ne, rw same at e, lo, hi, t, m)
    ],
    λ (n, r, ready, o, ne, e, lo, hi, t, m).
        let c = get_ca_cert token in
        rw (some-download_ca_cert token org_id (ready, (n, o, ne))) (
          file_offered-ca_outcome (api_fetch_text base fetch c.path c.options) f
            ((api_fetch_text-ok_iff base fetch c.path c.options f.content).1 (r, e, lo, hi, t)) m),
  )
