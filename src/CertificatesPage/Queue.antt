-- ===== src/CertificatesPage/Queue.antt =====
-- Which requests the queue lists, and which page of a list is shown.
use edge_guardian.Base.{
  ℕ, ◌+◌, ◌*◌, ◌<◌, ◌≡◌, refl, ap, true, false, List, [], ◌∷◌, filter, length, arith,
}
use edge_guardian.Api.Certificates.{CertificateRequest}
use edge_guardian.Paging.{page_of}
use edge_guardian.Paging.Laws.{page_start, length-page_of}
use native.Mathlib.Nat.{div-mul-le_self}
use edge_guardian.CertificatesPage.{resolved_count, visible_requests, page_size, safe_page, paged}

-- The button that hides the resolved requests hides as many as its label counts: the requests
-- listed without them and the resolved ones make up all that are listed with them, which are all
-- requests.
pub visible_requests-resolved_count :
    (requests : List CertificateRequest)
    → (length (visible_requests false requests) + resolved_count requests
        ≡ length (visible_requests true requests))
      × (visible_requests true requests ≡ requests)
unfolding visible_requests resolved_count filter
visible_requests-resolved_count [] = (refl, refl)
visible_requests-resolved_count (r ∷ rs) =
    let (counts, whole) = visible_requests-resolved_count rs in
    (ground (arith, counts), ap (◌∷◌ r) whole)

-- Whatever page is set, what is shown of a list that is not empty is not empty.
pub safe_page-paged {ℓ} :
    {A : Type ℓ} (page : ℕ) (list : List A)
    → 0 < length list
    → (safe_page page list * page_size < length list) × (0 < length (paged page list))
unfolding safe_page paged page_of
safe_page-paged page list h = omega (
  arith,
  page_start (length list) page_size (safe_page page list),
  length-page_of (safe_page page list) page_size list,
  div-mul-le_self (length list + 19) 20,
)
