-- ===== src/Examples/Metadata.antt =====
-- The theorems on the instance metadata service at concrete inputs: a service that refuses one token,
-- grants another, and has no notice of an interruption.
use aws_node_termination_han.Common.{
  ℕ, ◌+◌, ◌*◌, ◌≤◌, ◌≡◌, refl, String, true, Option, none, List, [], ◌∷◌, str_eq,
}
use aws_node_termination_han.Common.Int.{ℤ, pos_part}
use aws_node_termination_han.Kube.{
  Request, Result, InstanceAction, ok, err, new, http_get, http_put,
}
use aws_node_termination_han.Ec2Metadata.{
  HttpResponse, Wire, Service, token_refresh_path, ttl_header_to_int, request,
}
use aws_node_termination_han.Ec2Metadata.Bounds.{calls, tries_of, calls-request}
use aws_node_termination_han.Ec2Metadata.Reads.{
  Decoder, no_metadata, spot_instance_action_path, get_spot_itn_event,
}
use aws_node_termination_han.Ec2Metadata.Sources.{Rests, get_spot_itn_event-Rests}
use aws_node_termination_han.Ec2Metadata.Tokens.{Grants, request_refused}

abbrev response : ℕ → String → HttpResponse
response code body = record { status_code = ℤ.pos code; ttl_header = "3600"; body = ok body }

abbrev answer_to : List Request → HttpResponse
answer_to (http_put path ∷ h) = response 200 "new"
answer_to (http_get path (token ∷ []) ∷ h) = response 401 ""
answer_to h = response 404 ""

abbrev wire : Wire
wire = record {
  is_url = λ url path. true;
  atoi = λ text. ok (ℤ.pos 3600);
  jitter = λ h pause. 0;
  http = λ h. ok (answer_to h);
}

abbrev service : Service
service = record {
  tries = ℤ.pos 3;
  metadata_url = "http://169.254.169.254";
  v2_token = "old";
  token_ttl = ℤ.pos 100;
}

abbrev decoder : Decoder
decoder = record {
  scheduled_events = λ body. ok [];
  instance_action = λ body. err (new "no JSON");
  rebalance_recommendation = λ body. err (new "no JSON");
  identity_document = λ text. (no_metadata, none);
}

calls-request_example :
    calls (request wire spot_instance_action_path service []).1
    ≤ 2 * (1 + tries_of (pos_part service.tries)) + calls []
calls-request_example = calls-request wire spot_instance_action_path service []

get_spot_itn_event-Rests_example :
    (x : Result (Option InstanceAction) × Service) × ((get_spot_itn_event wire decoder service []).0
      ≡ ok x)
    × Rests wire decoder x.0
get_spot_itn_event-Rests_example = get_spot_itn_event-Rests wire decoder service []

granted :
    Grants wire service.metadata_url
      (http_get spot_instance_action_path ("old" ∷ []) ∷ [])
      "new"
      (ℤ.pos 3600)
unfolding ttl_header_to_int str_eq
granted = record {
  can_ask = refl;
  resp = response 200 "new";
  answer = refl;
  succeeds = refl;
  readable = refl;
  lives = refl;
}

request_refused_example :
    (request wire spot_instance_action_path service []).1
    ≡ http_get spot_instance_action_path ("old" ∷ "new" ∷ [])
      ∷ http_put token_refresh_path
      ∷ http_get spot_instance_action_path ("old" ∷ [])
      ∷ []
unfolding str_eq
request_refused_example =
    request_refused wire spot_instance_action_path "new" (ℤ.pos 3600) service [] (response 401 "")
      (response 404 "") refl refl refl refl refl granted refl refl
