-- ===== src/Ec2Metadata/Tokens.antt =====
-- What a request carries once its token was refused.
use aws_node_termination_han.Common.{
  ℕ, zero, suc, ◌*◌, ◌≡◌, refl, String, true, false, List, [], ◌∷◌, str_eq, str_eq_refl, Bool-cases,
  inl, inr,
}
use aws_node_termination_han.Common.Int.{ℤ, pos_part, leb_ℤ}
use aws_node_termination_han.Kube.{Request, http_get, http_put, ok}
use aws_node_termination_han.Store.{second}
use aws_node_termination_han.Ec2Metadata.{
  HttpResponse, Wire, Service, token_refresh_path, needs_token, seconds_before_ttl_refresh,
  is_success, is_status, ttl_header_to_int, retry, get_v2_token, refresh, attempts_left, request,
}

module _ (wire : Wire) where
  retry-ok :
      (n pause : ℕ) (q : Request) (h : List Request) (resp : HttpResponse)
      → wire.http (q ∷ h) ≡ ok resp
      → retry wire n pause q h ≡ (ok (ok resp), q ∷ h)
  unfolding retry
  retry-ok zero pause q h resp e = rw e refl
  retry-ok (suc n) pause q h resp e = rw e refl

  -- The service gives a token when it is asked.
  pub record Grants (url : String) (h : List Request) (token : String) (ttl : ℤ) : Type 0 where
    pub can_ask : wire.is_url url token_refresh_path ≡ true
    pub resp : HttpResponse
    pub answer : wire.http (http_put token_refresh_path ∷ h) ≡ ok resp
    pub succeeds : is_success resp ≡ true
    pub readable : resp.body ≡ ok token
    pub lives : ttl_header_to_int wire resp ≡ ok ttl

  refresh-Grants :
      (s : Service) (h : List Request) (token : String) (ttl : ℤ)
      → str_eq s.v2_token "" ≡ true
      → Grants s.metadata_url h token ttl
      → refresh wire s h
        ≡ (ok (record s { v2_token = token; token_ttl = ttl }), http_put token_refresh_path ∷ h)
  unfolding refresh get_v2_token ttl_header_to_int
  refresh-Grants s h token ttl e g =
      rw
        (
          e,
          g.can_ask,
          retry-ok 1 (2 * second) (http_put token_refresh_path) h g.resp g.answer,
          g.succeeds,
          g.readable,
          g.lives,
        )
        refl

  refresh-kept :
      (s : Service) (h : List Request) → needs_token wire s ≡ false → refresh wire s h ≡ (ok s, h)
  unfolding refresh
  refresh-kept s h e = rw e refl

-- After a first answer of 401 to a token, and with a new one, `Request` asks once more with both
-- tokens in the header, the refused one in front of the new one, whatever the service answered before.
pub request_refused :
    (wire : Wire) (path token : String) (ttl : ℤ) (s : Service) (h : List Request)
    (refused last : HttpResponse)
    → wire.is_url s.metadata_url path ≡ true
    → str_eq s.v2_token "" ≡ false
    → leb_ℤ s.token_ttl seconds_before_ttl_refresh ≡ false
    → wire.http (http_get path (s.v2_token ∷ []) ∷ h) ≡ ok refused
    → is_status 401 refused ≡ true
    → Grants wire s.metadata_url (http_get path (s.v2_token ∷ []) ∷ h) token ttl
    → str_eq token "" ≡ false
    → wire.http (
        http_get path (s.v2_token ∷ token ∷ [])
        ∷ http_put token_refresh_path
        ∷ http_get path (s.v2_token ∷ [])
        ∷ h)
      ≡ ok last
    → (request wire path s h).1
      ≡ http_get path (s.v2_token ∷ token ∷ [])
        ∷ http_put token_refresh_path
        ∷ http_get path (s.v2_token ∷ [])
        ∷ h
unfolding request attempts_left
request_refused wire path token ttl s h refused last u there fresh e1 r g n e3 =
    let t = s.v2_token in
    rw
      (
        u,
        refresh-kept wire s h (rw (there, fresh) refl),
        there,
        retry-ok wire (pos_part s.tries) (2 * second) (http_get path (t ∷ [])) h refused e1,
        r,
        refresh-Grants wire (record s { v2_token = ""; token_ttl = ℤ.pos 0 })
            (http_get path (t ∷ []) ∷ h) token ttl (str_eq_refl "") g,
        n,
        retry-ok wire (pos_part s.tries) (2 * second) (http_get path (t ∷ token ∷ []))
            (http_put token_refresh_path ∷ http_get path (t ∷ []) ∷ h) last e3,
      )
      (elim (Bool-cases (is_status 401 last)) [ inl e ↦ rw e refl | inr e ↦ rw e refl ])
