-- ===== src/Ec2Metadata.antt =====
-- pkg/ec2metadata/ec2metadata.go: the requests to the instance metadata service, with the token of its
-- second version and with retries. The state of the service goes through the methods; a method never
-- fails as a run, since the state outlives its error.
pub mod Reads
pub mod Bounds
pub mod Tokens
pub mod Sources
use aws_node_termination_han.Common.{
  ℕ, zero, suc, ◌+◌, ◌*◌, ◌/◌, ◌≤◌, String, Bool, true, false, ◌||◌, ◌&&◌, not, Option, none, some,
  List, [], ◌∷◌, ◌++◌, if◌then◌else◌, ltb, str_eq,
}
use aws_node_termination_han.Common.Int.{ℤ, pos_part, leb_ℤ, ltb_ℤ}
use aws_node_termination_han.Kube.{
  Request, http_get, http_put, sleep, Error, Result, ok, err, new, wrap, M, return, ◌>>=◌, ◌>>◌,
  attempt, ask, tell,
}
use aws_node_termination_han.Store.{second}

-- A response: the header is the one with the token's time to live, and the body may fail to be read.
pub record HttpResponse : Type 0 where
  pub status_code : ℤ
  pub ttl_header : String
  pub body : Result String

-- What is outside: whether the address and the path make a URL, `strconv.Atoi`, a random number
-- below a pause, and the answers.
pub record Wire : Type 0 where
  pub is_url : String → String → Bool
  pub atoi : String → Result ℤ
  pub jitter : List Request → ℕ → ℕ
  pub http : List Request → Result HttpResponse

pub record Service : Type 0 where
  pub tries : ℤ
  pub metadata_url : String
  pub v2_token : String
  pub token_ttl : ℤ

abbrev pub token_refresh_path : String
token_refresh_path = "/latest/api/token"

abbrev pub seconds_before_ttl_refresh : ℤ
seconds_before_ttl_refresh = ℤ.pos 15

-- `New`.
unfoldable pub new_service : String → ℤ → Service
new_service metadata_url tries = record {
  tries = tries;
  metadata_url = metadata_url;
  v2_token = "";
  token_ttl = ℤ.pos 0;
}

abbrev pub is_success : HttpResponse → Bool
is_success resp = not (ltb_ℤ resp.status_code (ℤ.pos 200) || leb_ℤ (ℤ.pos 300) resp.status_code)

abbrev pub is_status : ℕ → HttpResponse → Bool
is_status code resp = leb_ℤ resp.status_code (ℤ.pos code) && leb_ℤ (ℤ.pos code) resp.status_code

module _ (wire : Wire) where
  unfoldable pub ttl_header_to_int : HttpResponse → Result ℤ
  ttl_header_to_int resp =
      if str_eq resp.ttl_header ""
      then err (new "No token TTL header found")
      else wire.atoi resp.ttl_header

  -- A pause grows by half of a random number below it, and the next one starts from its double.
  abbrev pub pause_after : ℕ → List Request → ℕ
  pause_after pause h = pause + wire.jitter h pause / 2

  -- After a failure, with so many attempts left.
  abbrev pub after_try :
      (ℕ → M (Result HttpResponse)) → ℕ → ℕ → Result HttpResponse → M (Result HttpResponse)
  after_try again left pause (ok resp) h = (ok (ok resp), h)
  after_try again left pause (err e) h =
      if ltb 0 left
      then again (2 * pause_after pause h) (sleep (pause_after pause h) ∷ h)
      else (ok (err e), h)

  unfoldable pub retry : ℕ → ℕ → Request → M (Result HttpResponse)
  retry zero pause q = attempt (ask q wire.http)
  retry (suc left) pause q =
      attempt (ask q wire.http) >>= after_try (λ pause'. retry left pause' q) left pause

  abbrev pub token_with_ttl : String → Result ℤ → Result (String × ℤ)
  token_with_ttl token (err e) = err (wrap "IMDS v2 Token TTL header not sent in response" e)
  token_with_ttl token (ok ttl) = ok (token, ttl)

  abbrev pub token_of_body : HttpResponse → Result String → Result (String × ℤ)
  token_of_body resp (err e) = err (wrap "Unable to read token response from IMDSv2" e)
  token_of_body resp (ok token) = token_with_ttl token (ttl_header_to_int resp)

  abbrev pub token_of : Result HttpResponse → Result (String × ℤ)
  token_of (err e) = err e
  token_of (ok resp) =
      if not (is_success resp)
      then err (new "Received an http status code")
      else token_of_body resp resp.body

  unfoldable pub get_v2_token : Service → M (Result (String × ℤ))
  get_v2_token s =
      if not (wire.is_url s.metadata_url token_refresh_path)
      then return (err (new "Unable to construct http put request to retrieve imdsv2 token"))
      else retry 1 (2 * second) (http_put token_refresh_path) >>= λ answer. return (token_of answer)

  -- Without a token the first version of the service is used.
  abbrev pub with_token : Service → Result (String × ℤ) → Service
  with_token s (err e) = record s { v2_token = ""; token_ttl = ℤ.negsuc 0 }
  with_token s (ok (token, ttl)) = record s { v2_token = token; token_ttl = ttl }

  abbrev pub needs_token : Service → Bool
  needs_token s = str_eq s.v2_token "" || leb_ℤ s.token_ttl seconds_before_ttl_refresh

  unfoldable pub refresh : Service → M Service
  refresh s =
      if needs_token s then get_v2_token s >>= (λ token. return (with_token s token)) else return s

  -- `req.Header.Add`, which keeps the values that the header has.
  abbrev pub add_token : List String → Service → List String
  add_token headers s = if str_eq s.v2_token "" then headers else headers ++ (s.v2_token ∷ [])

  abbrev pub noted_ttl : Service → Result ℤ → Service
  noted_ttl s (err e) = s
  noted_ttl s (ok ttl) = record s { token_ttl = ttl }

  abbrev pub answered : HttpResponse → Service → Result HttpResponse × Service
  answered resp s = (ok resp, noted_ttl s (ttl_header_to_int resp))

  abbrev pub after_response :
      (HttpResponse → Service → M (Result HttpResponse × Service))
      → Service
      → Result HttpResponse
      → M (Result HttpResponse × Service)
  after_response again s (err e) = return (err (wrap "Unable to get a response from IMDS" e), s)
  after_response again s (ok resp) =
      if is_status 401 resp
      then again resp (record s { v2_token = ""; token_ttl = ℤ.pos 0 })
      else return (answered resp s)

  -- One attempt of the loop of `Request`, with what follows a refused token.
  abbrev pub token_attempt :
      (HttpResponse → List String → Service → M (Result HttpResponse × Service))
      → String
      → List String
      → Service
      → M (Result HttpResponse × Service)
  token_attempt again path headers s = refresh s >>= λ s'.
      retry (pos_part s'.tries) (2 * second) (http_get path (add_token headers s'))
      >>= after_response (λ resp. again resp (add_token headers s')) s'

  -- The attempts that are left after a response that refused the token.
  unfoldable pub attempts_left :
      ℕ → String → HttpResponse → List String → Service → M (Result HttpResponse × Service)
  attempts_left zero path resp headers s = return (answered resp s)
  attempts_left (suc n) path resp headers s = token_attempt (attempts_left n path) path headers s

  -- `Request`, with two attempts.
  unfoldable pub request : String → Service → M (Result HttpResponse × Service)
  request path s =
      if not (wire.is_url s.metadata_url path)
      then return (err (new "Unable to construct an http get request to IDMS"), s)
      else token_attempt (attempts_left 1 path) path [] s
