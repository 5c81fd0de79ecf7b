-- ===== src/Http/Laws.antt =====
-- Which credentials a request carries, and what a caller sees of each response.
use edge_guardian.Base.{
  ℕ, ◌≤◌, ◌<◌, ◌≡◌, ◌≢◌, refl, ◌↔◌, ◌⊎◌, inl, inr, true, Option, none, some, [], ◌∷◌, Text, codes,
  truthy, or_else, lookup, lookup-insert, spread, arith, Bool-cases, Option-cases, ◌==◌,
  text_eq_refl,
}
use edge_guardian.Http.{
  FetchOptions, HttpRequest, Response, Fetched, response, rejected, api_error, ok, err,
  api_fetch_text, ◌>>=◌, authorization, content_type, bearer, request_headers, request,
  check_status, decode_body, api_fetch,
}

-- Whatever headers the caller gives, a request with a non-empty token carries exactly that token
-- as its bearer credential.
pub lookup-request_headers_token :
    (o : FetchOptions) (t : Text)
    → o.token ≡ some t
    → truthy t ≡ true
    → lookup authorization (request_headers o) ≡ some (bearer t)
unfolding request_headers
lookup-request_headers_token o t e h = ground (
  arith,
  lookup-insert authorization authorization (bearer t)
      (spread ((content_type, codes "application/json") ∷ []) o.headers),
  text_eq_refl authorization,
)

pub Fetched-cases : (f : Fetched) → (f ≡ rejected) ⊎ ((r : Response) × (f ≡ response r))
Fetched-cases rejected = inl refl
Fetched-cases (response r) = inr (r, refl)

module _ {ℓ} {J : Type ℓ} (parse_json : Text → Option J) where
  -- The response that a successful call came from, and how its result was read.
  abbrev pub IsSuccess : Option J → Response → Type ℓ
  IsSuccess v r =
      (200 ≤ r.status)
      × (r.status < 300)
      × (((r.status ≡ 204) × (v ≡ none))
          ⊎ ((r.status ≢ 204)
              × ((s : Text) × (j : J) × (r.text ≡ some s)
                  × (parse_json s ≡ some j)
                  × (v ≡ some j))))

  -- A response that is no success, with the error that the caller is given.
  abbrev pub IsRefusal : ℕ → Text → Response → Type 0
  IsRefusal code message r =
      ((r.status < 200) ⊎ (300 ≤ r.status))
      × (code ≡ r.status)
      × ((s : Text) × (r.text ≡ some s) × (message ≡ or_else s r.status_text))

  read-ok :
      (r : Response) (v : Option J)
      → (check_status r >>= decode_body parse_json) ≡ ok v
      → IsSuccess v r
  unfolding check_status decode_body
  read-ok r v h = (
    ground arith,
    ground arith,
    elim (Bool-cases (r.status == 204)) [
      | inl e ↦ inl (ground arith, ground arith)
      | inr e ↦ inr (
        ground arith,
        elim (Option-cases r.text) [
          | inl q ↦ absurd (ground arith)
          | inr (s, q) ↦ elim (Option-cases (parse_json s)) [
            | inl z ↦ absurd (ground arith)
            | inr (j, z) ↦ (s, j, q, z, ground arith)
          ]
        ],
      )
    ],
  )

  read-IsRefusal :
      (r : Response) (code : ℕ) (message : Text)
      → (check_status r >>= decode_body parse_json) ≡ err (api_error code message)
      → IsRefusal code message r
  unfolding check_status decode_body
  read-IsRefusal r code message h = (
    ground arith,
    ground arith,
    elim (Option-cases r.text) [
      | inl q ↦ absurd (ground arith)
      | inr (s, q) ↦ (s, q, ground arith)
    ],
  )

  ok-read :
      (r : Response) (v : Option J)
      → IsSuccess v r
      → (check_status r >>= decode_body parse_json) ≡ ok v
  unfolding check_status decode_body
  ok-read r v h = ground arith

  IsRefusal-read :
      (r : Response) (code : ℕ) (message : Text)
      → IsRefusal code message r
      → (check_status r >>= decode_body parse_json) ≡ err (api_error code message)
  unfolding check_status decode_body
  IsRefusal-read r code message h = ground arith

  module _ (base : Text) (fetch : HttpRequest → Fetched) where
    -- A call returns `v` exactly if a response with a status from 200 to 299 came to the request
    -- that `rawFetch` builds, and either the status is 204 and `v` is undefined, or its body is
    -- the JSON text of `v`.
    pub api_fetch-ok_iff :
        (path : Text) (o : FetchOptions) (v : Option J)
        → (api_fetch base fetch parse_json path o ≡ ok v)
          ↔ ((r : Response) × (fetch (request base fetch path o) ≡ response r) × IsSuccess v r)
    unfolding api_fetch
    api_fetch-ok_iff path o v = (
      λ h. elim (Fetched-cases (fetch (request base fetch path o))) [
        | inl e ↦ absurd (ground arith)
        | inr (r, e) ↦ (r, e, read-ok r v (ground arith))
      ],
      λ h. rw h.1 (ok-read h.0 v h.2),
    )

    -- A call throws an `ApiError` with a status and a message exactly if a response came whose
    -- status is outside 200 to 299 and is that status, its body could be read, and the message is
    -- the body, or the status text if the body is empty.
    pub api_fetch-IsRefusal_iff :
        (path : Text) (o : FetchOptions) (code : ℕ) (message : Text)
        → (api_fetch base fetch parse_json path o ≡ err (api_error code message)) ↔ (
            (r : Response) × (fetch (request base fetch path o) ≡ response r)
            × IsRefusal code message r)
    unfolding api_fetch
    api_fetch-IsRefusal_iff path o code message = (
      λ h. elim (Fetched-cases (fetch (request base fetch path o))) [
        | inl e ↦ absurd (ground arith)
        | inr (r, e) ↦ (r, e, read-IsRefusal r code message (ground arith))
      ],
      λ h. rw h.1 (IsRefusal-read h.0 code message h.2),
    )

-- A call for a text returns it exactly if a response with a status from 200 to 299 came and it is the
-- body of this response.
pub api_fetch_text-ok_iff :
    (base : Text) (fetch : HttpRequest → Fetched) (path : Text) (o : FetchOptions) (text : Text)
    → (api_fetch_text base fetch path o ≡ ok text) ↔ (
        (r : Response) × (fetch (request base fetch path o) ≡ response r)
        × (200 ≤ r.status)
        × (r.status < 300)
        × (r.text ≡ some text))
unfolding api_fetch_text check_status
api_fetch_text-ok_iff base fetch path o text = (
  λ h. elim (Fetched-cases (fetch (request base fetch path o))) [
    | inl e ↦ absurd (ground arith)
    | inr (r, e) ↦ (
      r,
      e,
      ground arith,
      ground arith,
      elim (Option-cases r.text) [ inl q ↦ absurd (ground arith) | inr (s, q) ↦ ground arith ],
    )
  ],
  λ h. ground (arith, h.1),
)
