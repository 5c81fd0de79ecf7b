-- ===== src/CertificatesPage/Browsing.antt =====
-- What a user sees who clicks Next from the first page of the queue to the last.
use edge_guardian.Base.{
  ℕ, zero, suc, ◌+◌, ◌*◌, ◌≤◌, ◌<◌, ◌≡◌, refl, ap, ap₂, sym, ◌∙◌, false, true, List, ◌++◌, leb,
  length, arith, append-nil, drop,
}
use edge_guardian.Api.Certificates.{CertificateRequest}
use edge_guardian.Paging.{page_of}
use edge_guardian.Paging.Laws.{pages_from, pages_from-drop, total_pages-enough}
use edge_guardian.CertificatesPage.{PageState, visible_requests, page_size, safe_page, paged}
use edge_guardian.CertificatesPage.Screen.{last_page, page_after, next_requests}

module _ (requests : List CertificateRequest) where
  -- The requests that the queue lists, over all its pages.
  pub listed : PageState → List CertificateRequest
  listed s = visible_requests s.show_resolved requests

  -- After that many clicks of Next.
  pub clicked : ℕ → PageState → PageState
  clicked zero s = s
  clicked (suc n) s = clicked n (next_requests requests s)

  -- The tables that are shown before, between and after that many clicks, one after the other.
  pub browsed : ℕ → PageState → List CertificateRequest
  browsed zero s = paged s.req_page (listed s)
  browsed (suc n) s = paged s.req_page (listed s) ++ browsed n (next_requests requests s)

module _ {ℓ} {A : Type ℓ} where
  safe_page-inside : (page : ℕ) (list : List A) → page ≤ last_page list → safe_page page list ≡ page
  unfolding safe_page
  safe_page-inside page list h = omega arith

  paged-inside :
      (page : ℕ) (list : List A)
      → page ≤ last_page list
      → paged page list ≡ page_of page page_size list
  unfolding paged
  paged-inside page list h = ap (λ p. page_of p page_size list) (safe_page-inside page list h)

  page_after-inside :
      (page : ℕ) (list : List A) → page < last_page list → page_after list page ≡ page + 1
  page_after-inside page list h =
      let same = safe_page-inside page list (omega arith) in
      let open_ : leb (last_page list) (safe_page page list) ≡ false = rw same (ground arith) in
      rw open_ refl

  page_after-last : (page : ℕ) (list : List A) → page ≡ last_page list → page_after list page ≡ page
  page_after-last page list h =
      let same = safe_page-inside page list (omega arith) in
      let closed : leb (last_page list) (safe_page page list) ≡ true = rw same (ground arith) in
      rw closed refl

enough : {A : Type 0} (list : List A) → length list ≤ (0 + suc (last_page list)) * page_size
enough list = omega (arith, total_pages-enough (length list) page_size (omega arith))

-- Next on a page before the last.
next_page :
    (requests : List CertificateRequest) (s : PageState)
    → s.req_page < last_page (listed requests s)
    → (next_requests requests s).req_page ≡ s.req_page + 1
unfolding next_requests listed
next_page requests s h = page_after-inside s.req_page (listed requests s) h

next_left :
    (requests : List CertificateRequest) (n : ℕ) (s : PageState)
    → s.req_page + suc n ≡ last_page (listed requests s)
    → (next_requests requests s).req_page + n
      ≡ last_page (listed requests (next_requests requests s))
unfolding next_requests listed
next_left requests n s h =
    let e = page_after-inside s.req_page (listed requests s) (omega (arith, h)) in
    ap (λ p. p + n) e ∙ omega (arith, h)

browsed-pages_from :
    (requests : List CertificateRequest) (n : ℕ) (s : PageState)
    → s.req_page + n ≡ last_page (listed requests s)
    → browsed requests n s ≡ pages_from (suc n) s.req_page page_size (listed requests s)
unfolding browsed pages_from next_requests listed
browsed-pages_from requests zero s h =
    paged-inside s.req_page (listed requests s) (omega arith)
    ∙ sym (append-nil (page_of s.req_page page_size (listed requests s)))
browsed-pages_from requests (suc n) s h =
    let e = next_page requests s (omega arith) in
    ap₂ (◌++◌) (paged-inside s.req_page (listed requests s) (omega arith)) (
      browsed-pages_from requests n (next_requests requests s) (next_left requests n s h)
      ∙ ap (λ p. pages_from (suc n) p page_size (listed requests s)) e)

browsed-all :
    (requests : List CertificateRequest) (s : PageState)
    → s.req_page ≡ 0
    → browsed requests (last_page (listed requests s)) s ≡ listed requests s
browsed-all requests s h =
    let v = listed requests s in
    browsed-pages_from requests (last_page v) s (omega (arith, h))
    ∙ ap (λ p. pages_from (suc (last_page v)) p page_size v) h
    ∙ pages_from-drop (suc (last_page v)) 0 page_size v (enough v)
    ∙ unfold drop in refl

-- On the last page the button does nothing.
next_last :
    (requests : List CertificateRequest) (s : PageState)
    → s.req_page ≡ last_page (listed requests s)
    → next_requests requests s ≡ s
unfolding next_requests listed
next_last requests s h =
    ap (λ p. record s { req_page = p }) (page_after-last s.req_page (listed requests s) h)

clicked-last :
    (requests : List CertificateRequest) (n : ℕ) (s : PageState)
    → s.req_page + n ≡ last_page (listed requests s)
    → next_requests requests (clicked requests n s) ≡ clicked requests n s
unfolding clicked
clicked-last requests zero s h = next_last requests s (omega (arith, h))
clicked-last requests (suc n) s h =
    clicked-last requests n (next_requests requests s) (next_left requests n s h)

-- From the first page, as many clicks of Next as there are further pages show every request that the
-- queue lists, in its order and once, and then Next leads nowhere.
pub next_requests-all :
    (requests : List CertificateRequest) (s : PageState)
    → s.req_page ≡ 0
    → (browsed requests (last_page (listed requests s)) s ≡ listed requests s)
      × (next_requests requests (clicked requests (last_page (listed requests s)) s)
          ≡ clicked requests (last_page (listed requests s)) s)
next_requests-all requests s h = (
  browsed-all requests s h,
  clicked-last requests (last_page (listed requests s)) s (omega (arith, h)),
)
