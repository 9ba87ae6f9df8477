-- ===== src/Ec2Metadata/Sources.antt =====
-- Where the answers of the metadata service's methods come from.
use aws_node_termination_han.Common.{
  ℕ, zero, suc, ◌*◌, ◌≡◌, ◌⊎◌, inl, inr, refl, String, true, not, Option, none, List, [], ◌∷◌, ltb,
  Bool-cases,
}
use aws_node_termination_han.Common.Int.{pos_part}
use aws_node_termination_han.Kube.{
  Request, http_get, http_put, sleep, InstanceAction, Result, ok, err, M, return,
}
use aws_node_termination_han.Kube.Gives.{given}
use aws_node_termination_han.Kube.Total.{Yields, Anything, >>=-Yields, if-Yields}
use aws_node_termination_han.Store.{second}
use aws_node_termination_han.Ec2Metadata.{
  HttpResponse, Wire, Service, after_try, pause_after, retry, token_of, token_refresh_path,
  get_v2_token, with_token, needs_token, refresh, add_token, is_status, is_success, after_response,
  token_attempt, answered, attempts_left, request,
}
use aws_node_termination_han.Ec2Metadata.Reads.{
  Decoder, reworded, spot_instance_action_path, spot_answer, get_spot_itn_event,
}

return-Yields : {A : Type 0} {Q : A → Type 0} (a : A) → Q a → Yields Q (return a)
return-Yields a q h = (a, refl, q)

module _ (wire : Wire) where
  -- A response that the service gave to a request for the path.
  abbrev pub Given : String → HttpResponse → Type 0
  Given path resp =
      (tokens : List String) × ((h : List Request) × (wire.http (http_get path tokens ∷ h)
          ≡ ok resp))

  abbrev IsAnswer : Request → Result HttpResponse → Type 0
  IsAnswer q r =
      (resp : HttpResponse) → r ≡ ok resp → (h : List Request) × (wire.http (q ∷ h) ≡ ok resp)

  tried-IsAnswer :
      (left pause : ℕ) (q : Request) (r : Result HttpResponse) (g : List Request)
      → wire.http (q ∷ g) ≡ r
      → ((pause' : ℕ) → Yields (IsAnswer q) (retry wire left pause' q))
      → (a : Result HttpResponse) × ((after_try wire
            (λ pause'. retry wire left pause' q)
            left
            pause
            r
            (q ∷ g)).0
          ≡ ok a)
        × IsAnswer q a
  tried-IsAnswer left pause q (ok resp) g e again = (ok resp, refl, λ resp' e'. (g, cc (e, e')))
  tried-IsAnswer left pause q (err x) g e again =
      let pause' = pause_after wire pause (q ∷ g) in
      elim (Bool-cases (ltb 0 left)) [
        | inl some_left ↦ rw some_left (again (2 * pause') (sleep pause' ∷ q ∷ g))
        | inr out ↦ rw out (err x, refl, λ resp e'. cc e')
      ]

  retry-IsAnswer : (n pause : ℕ) (q : Request) → Yields (IsAnswer q) (retry wire n pause q)
  unfolding retry
  retry-IsAnswer zero pause q h = (wire.http (q ∷ h), refl, λ resp e. (h, e))
  retry-IsAnswer (suc left) pause q h =
      tried-IsAnswer left pause q (wire.http (q ∷ h)) h refl
        (λ pause'. retry-IsAnswer left pause' q)

  refresh-Yields : (s : Service) → Yields Anything (refresh wire s)
  unfolding refresh get_v2_token
  refresh-Yields s =
      if-Yields (needs_token wire s) _ _
        (>>=-Yields (get_v2_token wire s) _
          (if-Yields (not (wire.is_url s.metadata_url token_refresh_path)) _ _ (λ h. (_, refl, tt))
            (>>=-Yields (retry wire 1 (2 * second) (http_put token_refresh_path)) _
              (retry-IsAnswer 1 (2 * second) (http_put token_refresh_path))
              λ answer _. return-Yields {Q = Anything} (token_of wire answer) tt))
          λ token _. return-Yields (with_token wire s token) tt)
        (return-Yields s tt)

  module _ (path : String) where
    abbrev IsGiven : Result HttpResponse × Service → Type 0
    IsGiven x = (resp : HttpResponse) → x.0 ≡ ok resp → Given path resp

    response-IsGiven :
        (again : HttpResponse → Service → M (Result HttpResponse × Service)) (s : Service)
        (r : Result HttpResponse)
        → ((resp : HttpResponse) → r ≡ ok resp → Given path resp)
        → ((resp : HttpResponse) (s' : Service) → Given path resp → Yields IsGiven (again resp s'))
        → Yields IsGiven (after_response wire again s r)
    response-IsGiven again s (err e) k w = return-Yields _ (λ resp e'. cc e')
    response-IsGiven again s (ok resp) k w =
        if-Yields (is_status 401 resp) _ _ (w resp _ (k resp refl))
          (return-Yields (answered wire resp s) k)

    attempt-IsGiven :
        (again : HttpResponse → List String → Service → M (Result HttpResponse × Service))
        (headers : List String) (s : Service)
        → ((resp : HttpResponse) (headers' : List String) (s' : Service)
            → Given path resp
            → Yields IsGiven (again resp headers' s'))
        → Yields IsGiven (token_attempt wire again path headers s)
    attempt-IsGiven again headers s w = >>=-Yields (refresh wire s) _ (refresh-Yields s) λ s' _.
        let carried = add_token wire headers s' in
        >>=-Yields (retry wire (pos_part s'.tries) (2 * second) (http_get path carried)) _
          (retry-IsAnswer (pos_part s'.tries) (2 * second) (http_get path carried))
          λ r a.
            response-IsGiven (λ resp. again resp carried) s' r (λ resp e. (carried, a resp e))
              (λ resp s'' g. w resp carried s'' g)

    left-IsGiven :
        (n : ℕ) (resp : HttpResponse) (headers : List String) (s : Service)
        → Given path resp
        → Yields IsGiven (attempts_left wire n path resp headers s)
    unfolding attempts_left
    left-IsGiven zero resp headers s g =
        return-Yields (answered wire resp s) (λ resp' e. given (Given path) (ok resp) resp' e g)
    left-IsGiven (suc n) resp headers s g =
        attempt-IsGiven (attempts_left wire n path) headers s
          (λ resp' headers' s' g'. left-IsGiven n resp' headers' s' g')

    request-IsGiven : (s : Service) → Yields IsGiven (request wire path s)
    unfolding request
    request-IsGiven s =
        if-Yields (not (wire.is_url s.metadata_url path)) _ _ (return-Yields _ (λ resp e. cc e)) (
          attempt-IsGiven (attempts_left wire 1 path) [] s
            (λ resp headers s' g. left-IsGiven 1 resp headers s' g))

  module _ (decoder : Decoder) where
    -- What a report rests on; of an error nothing is said.
    abbrev pub Rests : Result (Option InstanceAction) → Type 0
    Rests (err e) = Unit {0}
    Rests (ok report) =
        (resp : HttpResponse) × Given spot_instance_action_path resp
        × (((is_status 404 resp ≡ true) × (report ≡ none))
            ⊎ ((is_success resp ≡ true) × (decoder.instance_action resp.body ≡ ok report)))

    decoded-Rests :
        (resp : HttpResponse) (r : Result (Option InstanceAction))
        → Given spot_instance_action_path resp
        → is_success resp ≡ true
        → decoder.instance_action resp.body ≡ r
        → Rests (reworded "Could not decode instance action response" r)
    decoded-Rests resp (ok report) g s e = (resp, g, inr (s, e))
    decoded-Rests resp (err x) g s e = tt

    answer-Rests :
        (r : Result HttpResponse)
        → ((resp : HttpResponse) → r ≡ ok resp → Given spot_instance_action_path resp)
        → Rests (spot_answer wire decoder r)
    answer-Rests (err e) k = tt
    answer-Rests (ok resp) k = elim (Bool-cases (is_status 404 resp)) [
      | inl missing ↦ rw missing (resp, k resp refl, inl (missing, refl))
      | inr there ↦ elim (Bool-cases (is_success resp)) [
        | inl fine ↦
            rw (there, fine)
              (decoded-Rests resp (decoder.instance_action resp.body) (k resp refl) fine refl)
        | inr bad ↦ rw (there, bad) tt
      ]
    ]

-- `GetSpotITNEvent` always ends, with an error or with a report that rests on a response of the
-- service to a request for the path: a response of 404 with no notice, or a successful one whose
-- body was decoded to the report. A response of any other kind is no notice and not the absence of
-- one.
pub get_spot_itn_event-Rests :
    (wire : Wire) (decoder : Decoder) (s : Service) (h : List Request)
    → (x : Result (Option InstanceAction) × Service) × ((get_spot_itn_event wire decoder s h).0
        ≡ ok x)
      × Rests wire decoder x.0
unfolding get_spot_itn_event
get_spot_itn_event-Rests wire decoder s h =
    >>=-Yields {R = λ x. Rests wire decoder x.0} (request wire spot_instance_action_path s) _
      (request-IsGiven wire spot_instance_action_path s)
      (λ x k. return-Yields (spot_answer wire decoder x.0, x.1) (answer-Rests wire decoder x.0 k)) h
