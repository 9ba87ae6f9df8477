-- ===== src/Ec2Metadata/Reads.antt =====
-- pkg/ec2metadata/ec2metadata.go: the methods that read events, states and facts of the instance.
use aws_node_termination_han.Common.{
  String, Bool, true, false, ◌||◌, not, Option, none, some, List, if◌then◌else◌,
}
use aws_node_termination_han.Kube.{
  Error, Result, ok, err, new, wrap, ScheduledEvent, InstanceAction, M, return, ◌>>=◌,
}
use aws_node_termination_han.Ec2Metadata.{
  HttpResponse, Wire, Service, is_success, is_status, request,
}

pub record NodeMetadata : Type 0 where
  pub account_id : String
  pub instance_id : String
  pub instance_life_cycle : String
  pub instance_type : String
  pub public_hostname : String
  pub public_ip : String
  pub local_hostname : String
  pub local_ip : String
  pub availability_zone : String
  pub region : String

abbrev pub no_metadata : NodeMetadata
no_metadata = record {
  account_id = "";
  instance_id = "";
  instance_life_cycle = "";
  instance_type = "";
  public_hostname = "";
  public_ip = "";
  local_hostname = "";
  local_ip = "";
  availability_zone = "";
  region = "";
}

-- What a JSON decoder makes of a body that it reads; the identity document is filled in as far as
-- decoding came.
pub record Decoder : Type 0 where
  pub scheduled_events : Result String → Result (List ScheduledEvent)
  pub instance_action : Result String → Result (Option InstanceAction)
  pub rebalance_recommendation : Result String → Result (Option String)
  pub identity_document : String → NodeMetadata × Option Error

abbrev pub scheduled_event_path : String
scheduled_event_path = "/latest/meta-data/events/maintenance/scheduled"

abbrev pub spot_instance_action_path : String
spot_instance_action_path = "/latest/meta-data/spot/instance-action"

abbrev pub rebalance_recommendation_path : String
rebalance_recommendation_path = "/latest/meta-data/events/recommendations/rebalance"

abbrev pub asg_target_lifecycle_state_path : String
asg_target_lifecycle_state_path = "/latest/meta-data/autoscaling/target-lifecycle-state"

-- `fmt.Errorf` around an error.
abbrev pub reworded : {A : Type 0} → String → Result A → Result A
reworded text (err e) = err (wrap text e)
reworded text (ok a) = ok a

-- A zone's region, which is the zone without its last letter, if there are two. The names of zones are
-- ASCII: a letter is a byte.
unfoldable pub but_last : String → String
but_last String.[] = String.[]
but_last (String.◌∷◌ c String.[]) = String.[]
but_last (String.◌∷◌ c (String.◌∷◌ d s)) = String.◌∷◌ c (but_last (String.◌∷◌ d s))

abbrev pub region_of : String → String → String
region_of old String.[] = old
region_of old (String.◌∷◌ c String.[]) = old
region_of old (String.◌∷◌ c (String.◌∷◌ d s)) = but_last (String.◌∷◌ c (String.◌∷◌ d s))

module _ (wire : Wire) (decoder : Decoder) where
  abbrev pub scheduled_answer : Result HttpResponse → Result (List ScheduledEvent)
  scheduled_answer (err e) = err (wrap "Unable to parse metadata response" e)
  scheduled_answer (ok resp) =
      if not (is_success resp)
      then err (new "Metadata request received http status code")
      else reworded "Could not decode json retrieved from imds" (decoder.scheduled_events resp.body)

  unfoldable pub get_scheduled_maintenance_events :
      Service → M (Result (List ScheduledEvent) × Service)
  get_scheduled_maintenance_events s =
      request wire scheduled_event_path s >>= λ (r, s'). return (scheduled_answer r, s')

  -- An answer of 404 stands for nothing to report.
  abbrev pub spot_answer : Result HttpResponse → Result (Option InstanceAction)
  spot_answer (err e) = err (wrap "Unable to parse metadata response" e)
  spot_answer (ok resp) =
      if is_status 404 resp
      then ok none
      else if not (is_success resp)
      then err (new "Metadata request received http status code")
      else reworded "Could not decode instance action response" (decoder.instance_action resp.body)

  unfoldable pub get_spot_itn_event : Service → M (Result (Option InstanceAction) × Service)
  get_spot_itn_event s =
      request wire spot_instance_action_path s >>= λ (r, s'). return (spot_answer r, s')

  abbrev pub rebalance_answer : Result HttpResponse → Result (Option String)
  rebalance_answer (err e) = err (wrap "Unable to parse metadata response" e)
  rebalance_answer (ok resp) =
      if is_status 404 resp
      then ok none
      else if not (is_success resp)
      then err (new "Metadata request received http status code")
      else reworded "Could not decode rebalance recommendation response"
          (decoder.rebalance_recommendation resp.body)

  unfoldable pub get_rebalance_recommendation_event : Service → M (Result (Option String) × Service)
  get_rebalance_recommendation_event s =
      request wire rebalance_recommendation_path s >>= λ (r, s'). return (rebalance_answer r, s')

  abbrev pub lifecycle_answer : Result HttpResponse → Result String
  lifecycle_answer (err e) = err (wrap "Unable to parse metadata response" e)
  lifecycle_answer (ok resp) =
      if is_status 404 resp
      then ok ""
      else if not (is_success resp)
      then err (new "Metadata request received http status code")
      else reworded "Unable to parse http response" resp.body

  unfoldable pub get_asg_target_lifecycle_state : Service → M (Result String × Service)
  get_asg_target_lifecycle_state s =
      request wire asg_target_lifecycle_state_path s >>= λ (r, s'). return (lifecycle_answer r, s')

  abbrev pub info_of_body : Bool → HttpResponse → Result String → Result String
  info_of_body allow_missing resp (err e) = err (wrap "Unable to parse http response" e)
  info_of_body allow_missing resp (ok body) =
      if is_success resp
      then ok body
      else if not (is_status 404 resp) || not allow_missing
      then err (new "Metadata request received http status code")
      else ok ""

  abbrev pub info_answer : Bool → Result HttpResponse → Result String
  info_answer allow_missing (err e) = err (wrap "Unable to parse metadata response" e)
  info_answer allow_missing (ok resp) = info_of_body allow_missing resp resp.body

  unfoldable pub get_metadata_info : String → Bool → Service → M (Result String × Service)
  get_metadata_info path allow_missing s =
      request wire path s >>= λ (r, s'). return (info_answer allow_missing r, s')

  -- `info, _ := e.GetMetadataInfo(...)`, which is empty beside an error.
  abbrev pub or_nothing : Result String → String
  or_nothing (ok info) = info
  or_nothing (err e) = ""

  unfoldable pub read_info : String → Bool → Service → M (String × Service)
  read_info path allow_missing s =
      get_metadata_info path allow_missing s >>= λ (r, s'). return (or_nothing r, s')

  -- Without the identity document its facts are read one by one.
  unfoldable pub without_document : NodeMetadata → Service → M (NodeMetadata × Service)
  without_document metadata s =
      read_info "/latest/meta-data/instance-id" false s >>= λ (instance_id, s1).
      read_info "/latest/meta-data/instance-type" false s1 >>= λ (instance_type, s2).
      read_info "/latest/meta-data/local-ipv4" false s2 >>= λ (local_ip, s3).
      read_info "/latest/meta-data/placement/availability-zone" false s3 >>= λ (zone, s4). return (
        record metadata {
          instance_id = instance_id;
          instance_type = instance_type;
          local_ip = local_ip;
          availability_zone = zone;
          region = region_of metadata.region zone;
        },
        s4,
      )

  abbrev pub after_document : Service → NodeMetadata × Option Error → M (NodeMetadata × Service)
  after_document s (metadata, none) = return (metadata, s)
  after_document s (metadata, some e) = without_document metadata s

  unfoldable pub read_rest : NodeMetadata × Service → M (NodeMetadata × Service)
  read_rest (metadata, s) =
      read_info "/latest/meta-data/instance-life-cycle" false s >>= λ (life_cycle, s1).
      read_info "/latest/meta-data/local-hostname" false s1 >>= λ (local_hostname, s2).
      read_info "/latest/meta-data/public-hostname" true s2 >>= λ (public_hostname, s3).
      read_info "/latest/meta-data/public-ipv4" true s3 >>= λ (public_ip, s4). return (
        record metadata {
          instance_life_cycle = life_cycle;
          local_hostname = local_hostname;
          public_hostname = public_hostname;
          public_ip = public_ip;
        },
        s4,
      )

  abbrev pub after_identity : Result String × Service → M (NodeMetadata × Service)
  after_identity (err e, s) = return (no_metadata, s)
  after_identity (ok doc, s) = after_document s (decoder.identity_document doc) >>= read_rest

  unfoldable pub get_node_metadata : Service → M (NodeMetadata × Service)
  get_node_metadata s =
      get_metadata_info "/latest/dynamic/instance-identity/document" false s >>= after_identity
