-- ===== src/Ec2Metadata/Bounds.antt =====
-- How many HTTP requests a call of the metadata service makes.
use mathlib.Core.Path.{subst}
use aws_node_termination_han.Common.{
  ℕ, zero, suc, ◌+◌, ◌*◌, ◌≤◌, ◌≡◌, refl, ◌∙◌, String, Bool, true, false, not, List, [], ◌∷◌,
  if◌then◌else◌, arith, ltb,
}
use aws_node_termination_han.Common.Int.{ℤ, pos_part}
use aws_node_termination_han.Kube.{
  Request, http_get, http_put, sleep, Result, ok, err, M, and_then, return, ◌>>=◌,
}
use aws_node_termination_han.Kube.Runs.{Satisfies}
use aws_node_termination_han.Kube.Total.{Anything}
use aws_node_termination_han.Store.{second}
use aws_node_termination_han.Ec2Metadata.{
  HttpResponse, Wire, Service, after_try, pause_after, retry, token_of, token_refresh_path,
  get_v2_token, with_token, needs_token, refresh, add_token, is_status, after_response,
  token_attempt, answered, attempts_left, request,
}

-- The HTTP requests of a history.
unfoldable pub calls : List Request → ℕ
calls [] = 0
calls (http_get path tokens ∷ h) = suc (calls h)
calls (http_put path ∷ h) = suc (calls h)
calls (q ∷ h) = calls h

-- The run makes at most so many HTTP requests, and its result satisfies `Q`.
record Spends {A : Type 0} (k : ℕ) (Q : A → Type 0) (m : M A) : Type 0 where
  spends : (h : List Request) → calls (m h).1 ≤ k + calls h
  gives : (h : List Request) → Satisfies Q (m h).0

both_counted :
    {A B : Type 0} {Q : A → Type 0} {R : B → Type 0} (j k l : ℕ) (r : Result A × List Request)
    (f : A → M B)
    → calls r.1 ≤ j + l
    → Satisfies Q r.0
    → ((a : A) → Q a → Spends k R (f a))
    → calls (and_then r f).1 ≤ j + k + l
both_counted j k l (ok a, h) f b q w = omega (arith, (w a q).spends h, b)
both_counted j k l (err e, h) f b q w = omega (arith, b)

both_known :
    {A B : Type 0} {Q : A → Type 0} {R : B → Type 0} (k : ℕ) (r : Result A × List Request)
    (f : A → M B)
    → Satisfies Q r.0
    → ((a : A) → Q a → Spends k R (f a))
    → Satisfies R (and_then r f).0
both_known k (ok a, h) f q w = (w a q).gives h
both_known k (err e, h) f q w = tt

>>=-Spends :
    {A B : Type 0} {Q : A → Type 0} {R : B → Type 0} (j k : ℕ) (m : M A) (f : A → M B)
    → Spends j Q m
    → ((a : A) → Q a → Spends k R (f a))
    → Spends (j + k) R (m >>= f)
>>=-Spends j k m f v w = record {
  spends = λ h. both_counted j k (calls h) (m h) f (v.spends h) (v.gives h) w;
  gives = λ h. both_known k (m h) f (v.gives h) w;
}

return-Spends : {A : Type 0} {Q : A → Type 0} (k : ℕ) (a : A) → Q a → Spends k Q (return a)
return-Spends k a q = record { spends = λ h. omega arith; gives = λ h. q }

if-Spends :
    {A : Type 0} {Q : A → Type 0} (k : ℕ) (b : Bool) (m n : M A)
    → Spends k Q m
    → Spends k Q n
    → Spends k Q (if b then m else n)
if-Spends k true m n v w = v
if-Spends k false m n v w = w

wider : {A : Type 0} {Q : A → Type 0} {j k : ℕ} {m : M A} → j ≤ k → Spends j Q m → Spends k Q m
wider e w = record { spends = λ h. omega (arith, w.spends h, e); gives = w.gives }

-- The tries of `retry`, which makes one in any case.
abbrev pub tries_of : ℕ → ℕ
tries_of n = if ltb 1 n then n else 1

module _ (wire : Wire) where
  one_call : (q : Request) (h : List Request) → calls (q ∷ h) ≤ suc (calls h)
  unfolding calls
  one_call (http_get path tokens) h = omega arith
  one_call (http_put path) h = omega arith
  one_call q h = omega arith

  tried_within :
      (left pause : ℕ) (q : Request) (r : Result HttpResponse) (h : List Request)
      → ((pause' : ℕ) (g : List Request)
          → calls (retry wire left pause' q g).1 ≤ tries_of left + calls g)
      → calls (after_try wire (λ pause'. retry wire left pause' q) left pause r h).1
        ≤ left + calls h
  unfolding calls
  tried_within left pause q (ok resp) h again = omega arith
  tried_within left pause q (err e) h again =
      ground (arith, again (2 * pause_after wire pause h) (sleep (pause_after wire pause h) ∷ h))

  retry_within :
      (n pause : ℕ) (q : Request) (h : List Request)
      → calls (retry wire n pause q h).1 ≤ tries_of n + calls h
  unfolding retry
  retry_within zero pause q h = omega (arith, one_call q h)
  retry_within (suc left) pause q h = ground (
    arith,
    one_call q h,
    tried_within left pause q (wire.http (q ∷ h)) (q ∷ h)
        (λ pause' g. retry_within left pause' q g),
  )

  anything : {A : Type 0} (r : Result A) → Satisfies Anything r
  anything (ok a) = tt
  anything (err e) = tt

  retry-Spends : (n pause : ℕ) (q : Request) → Spends (tries_of n) Anything (retry wire n pause q)
  retry-Spends n pause q = record {
    spends = λ h. retry_within n pause q h;
    gives = λ h. anything (retry wire n pause q h).0;
  }

  get_v2_token-Spends : (s : Service) → Spends 1 Anything (get_v2_token wire s)
  unfolding get_v2_token
  get_v2_token-Spends s =
      if-Spends 1 (not (wire.is_url s.metadata_url token_refresh_path)) _ _ (return-Spends 1 _ tt) (
        >>=-Spends 1 0 (retry wire 1 (2 * second) (http_put token_refresh_path)) _
          (retry-Spends 1 (2 * second) (http_put token_refresh_path))
          λ answer _. return-Spends 0 (token_of wire answer) tt)

  -- The number of tries is a setting, and stays.
  abbrev Keeps : ℤ → Service → Type 0
  Keeps t s = s.tries ≡ t

  with_token-Keeps :
      (s : Service) (token : Result (String × ℤ)) → Keeps s.tries (with_token wire s token)
  with_token-Keeps s (ok (token, ttl)) = refl
  with_token-Keeps s (err e) = refl

  refresh-Spends : (s : Service) → Spends 1 (Keeps s.tries) (refresh wire s)
  unfolding refresh
  refresh-Spends s =
      if-Spends 1 (needs_token wire s) _ _
        (>>=-Spends 1 0 (get_v2_token wire s) _ (get_v2_token-Spends s)
          λ token _. return-Spends 0 (with_token wire s token) (with_token-Keeps s token))
        (return-Spends 1 s refl)

  module _ (t : ℤ) (path : String) where
    get-Spends :
        (s : Service) (q : Request)
        → Keeps t s
        → Spends (tries_of (pos_part t)) Anything (retry wire (pos_part s.tries) (2 * second) q)
    get-Spends s q e =
        subst
          (λ x.
            Spends (tries_of (pos_part x)) Anything (retry wire (pos_part s.tries) (2 * second) q))
          e (retry-Spends (pos_part s.tries) (2 * second) q)

    response-Spends :
        (k : ℕ) (again : HttpResponse → Service → M (Result HttpResponse × Service)) (s : Service)
        (r : Result HttpResponse)
        → Keeps t s
        → ((resp : HttpResponse) (s' : Service) → Keeps t s' → Spends k Anything (again resp s'))
        → Spends k Anything (after_response wire again s r)
    response-Spends k again s (err e) kept w = return-Spends k _ tt
    response-Spends k again s (ok resp) kept w =
        if-Spends k (is_status 401 resp) _ _
          (w resp (record s { v2_token = ""; token_ttl = ℤ.pos 0 }) kept)
          (return-Spends k (answered wire resp s) tt)

    -- A round, with a continuation that makes at most `k` requests.
    attempt-Spends :
        (k : ℕ) (again : HttpResponse → List String → Service → M (Result HttpResponse × Service))
        (headers : List String) (s : Service)
        → Keeps t s
        → ((resp : HttpResponse) (headers' : List String) (s' : Service)
            → Keeps t s'
            → Spends k Anything (again resp headers' s'))
        → Spends
            (1 + (tries_of (pos_part t) + k))
            Anything
            (token_attempt wire again path headers s)
    attempt-Spends k again headers s e w =
        >>=-Spends 1 (tries_of (pos_part t) + k) (refresh wire s) _ (refresh-Spends s) λ s' same.
          >>=-Spends (tries_of (pos_part t)) k
            (retry wire (pos_part s'.tries) (2 * second)
              (http_get path (add_token wire headers s')))
            _ (get-Spends s' (http_get path (add_token wire headers s')) (same ∙ e))
            λ r _.
              response-Spends k (λ resp. again resp (add_token wire headers s')) s' r (same ∙ e)
                (λ resp s'' kept. w resp (add_token wire headers s') s'' kept)

    left-Spends :
        (n : ℕ) (resp : HttpResponse) (headers : List String) (s : Service)
        → Keeps t s
        → Spends
            (n * (1 + tries_of (pos_part t)))
            Anything
            (attempts_left wire n path resp headers s)
    unfolding attempts_left
    left-Spends zero resp headers s e =
        return-Spends (0 * (1 + tries_of (pos_part t))) (answered wire resp s) tt
    left-Spends (suc n) resp headers s e = wider (omega arith) (
        attempt-Spends (n * (1 + tries_of (pos_part t))) (attempts_left wire n path) headers s e
          (λ resp' headers' s' kept. left-Spends n resp' headers' s' kept))

-- `Request` makes at most two rounds, each of one request for a token and of the tries that the
-- service is set to, or one if it is set to fewer, however its requests are answered.
pub calls-request :
    (wire : Wire) (path : String) (s : Service) (h : List Request)
    → calls (request wire path s h).1 ≤ 2 * (1 + tries_of (pos_part s.tries)) + calls h
unfolding request
calls-request wire path s h =
    (if-Spends (2 * (1 + tries_of (pos_part s.tries))) (not (wire.is_url s.metadata_url path)) _ _
        (return-Spends (2 * (1 + tries_of (pos_part s.tries))) _ tt)
        (wider (omega arith) (
          attempt-Spends wire s.tries path (1 * (1 + tries_of (pos_part s.tries)))
            (attempts_left wire 1 path) [] s refl
            (λ resp headers s' kept. left-Spends wire s.tries path 1 resp headers s' kept)))).spends
      h
