-- ===== src/Queue.antt =====
-- pkg/monitor/sqsevent: the monitor of the queue. This file has what it knows of an instance.
pub mod Sources
pub mod Monitor
pub mod Heartbeats
pub mod Actionable
pub mod Wrappers
pub mod Clearing
pub mod Rounds
pub mod Health
use aws_node_termination_han.Common.{
  String, Bool, true, false, not, ◌&&◌, ◌||◌, Option, none, some, List, [], ◌∷◌, if◌then◌else◌,
  str_eq, lookup, insert, is_some,
}
use aws_node_termination_han.Config.{Config}
use aws_node_termination_han.Kube.{
  Error, Result, ok, err, new, wrap, code, skip, Instance, describe_instances, Server, M, return,
  fail, ◌>>=◌, attempt, ask,
}
use aws_node_termination_han.Std.{Std}

abbrev pub sqs_monitor_kind : String
sqs_monitor_kind = "SQS_MONITOR"

abbrev pub asg_tag_name : String
asg_tag_name = "aws:autoscaling:groupName"

abbrev pub asg_terminating_lifecycle_transition : String
asg_terminating_lifecycle_transition = "autoscaling:EC2_INSTANCE_TERMINATING"

abbrev pub asg_launching_lifecycle_transition : String
asg_launching_lifecycle_transition = "autoscaling:EC2_INSTANCE_LAUNCHING"

abbrev pub test_notification : String
test_notification = "autoscaling:TEST_NOTIFICATION"

-- `errors.As(err, &s)` for a `skip`.
unfoldable pub is_skip : Error → Bool
is_skip (skip e) = true
is_skip (wrap _ e) = is_skip e
is_skip _ = false

pub record NodeInfo : Type 0 where
  pub asg_name : String
  pub instance_id : String
  pub provider_id : String
  pub instance_type : String
  pub is_managed : Bool
  pub name : String
  pub tags : List (String × String)

-- The loop over an instance's tags: the map of the tags, and the name of the group.
unfoldable pub read_tags :
    List (String × String) → List (String × String) → String → List (String × String) × String
read_tags [] tags asg_name = (tags, asg_name)
read_tags ((k, v) ∷ rest) tags asg_name =
    read_tags rest (insert k v tags) (if str_eq k asg_tag_name then v else asg_name)

-- The codes of an unknown instance, which no retry would help.
unfoldable pub is_invalid_instance : Error → Bool
is_invalid_instance (code c) =
    str_eq c "InvalidInstanceID"
    || (str_eq c "InvalidInstanceID.NotFound"
        || (str_eq c "InvalidInstanceID.Malformed" || str_eq c "InvalidInstanceID.NotLinkable"))
is_invalid_instance _ = false

abbrev pub state_or_unknown : Option String → String
state_or_unknown (some state) = state
state_or_unknown none = "unknown"

module _ (std : Std) (server : Server) (n : Config) where
  unfoldable pub node_info_of : String → Instance → NodeInfo
  node_info_of instance_id instance_ =
      let (tags, asg_name) = read_tags instance_.tags [] "" in
      record {
        asg_name = asg_name;
        instance_id = instance_id;
        provider_id =
            if str_eq instance_.availability_zone ""
            then ""
            else std.sprintf "aws:///%s/%s" (instance_.availability_zone ∷ instance_id ∷ []);
        instance_type = instance_.instance_type;
        is_managed = not (n.check_tag_before_draining && not (is_some (lookup n.managed_tag tags)));
        name = instance_.private_dns_name;
        tags = tags;
      }

  -- The first instance, which must have a name unless it is not running.
  unfoldable pub first_instance : String → List (List Instance) → M NodeInfo
  first_instance instance_id ((instance_ ∷ more) ∷ reservations) =
      if str_eq instance_.private_dns_name ""
      then (if not (str_eq (state_or_unknown instance_.state_name) "running")
          then fail (skip (new "node is not running"))
          else fail (new "unable to retrieve PrivateDnsName name"))
      else return (node_info_of instance_id instance_)
  first_instance instance_id _ = fail (skip (new "No reservation with instance-id"))

  unfoldable pub described : String → Result (List (List Instance)) → M NodeInfo
  described instance_id (err e) =
      fail (if is_invalid_instance e then skip (new "Invalid instance id provided") else e)
  described instance_id (ok reservations) = first_instance instance_id reservations

  unfoldable pub get_node_info : String → M NodeInfo
  get_node_info instance_id =
      attempt (ask (describe_instances instance_id) server.reservations) >>= described instance_id
