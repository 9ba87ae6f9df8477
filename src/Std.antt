-- ===== src/Std.antt =====
-- What the code uses of Go's standard library that is not spelled out here: encoding/json, fmt,
-- strings.ToLower, time.Parse and crypto/sha256, as parameters.
use aws_node_termination_han.Common.{String, Option, List}
use aws_node_termination_han.Common.Int.{ℤ}
use aws_node_termination_han.Event.{LifecycleDetail}
use aws_node_termination_han.Kube.{Error, Result}

-- `EventBridgeEvent` of pkg/monitor/sqsevent/event-bridge.go, as far as it is read. The detail is a
-- text in JSON.
pub record EventBridgeEvent : Type 0 where
  pub id : String
  pub detail_type : String
  pub source : String
  pub time : String
  pub detail : String

pub record Ec2StateChangeDetail : Type 0 where
  pub instance_id : String
  pub state : String

pub record ScheduledChangeEventDetail : Type 0 where
  pub event_type_category : String
  pub service : String
  pub affected_entities : List String

-- `json.Unmarshal` may fill in a part of its target before it fails: where the code reads the target
-- all the same, both are given.
pub record Std : Type 0 where
  pub event_of : String → EventBridgeEvent × Option Error
  pub message_of : String → Result (Option String)  -- the field `Message`, printed
  pub lifecycle_of : String → LifecycleDetail × Option Error
  pub lifecycle_text : LifecycleDetail → Result String  -- `json.Marshal`
  pub state_change_of : String → Result Ec2StateChangeDetail
  pub spot_of : String → Result String  -- the instance's ID
  pub rebalance_of : String → Result String  -- the instance's ID
  pub scheduled_change_of : String → Result ScheduledChangeEventDetail
  pub sprintf : String → List String → String
  pub to_lower : String → String
  pub rfc3339 : String → Result ℤ
  pub event_date : String → Result ℤ  -- `2 Jan 2006 15:04:05 GMT`
  pub time_text : ℤ → String
  pub rfc3339_text : ℤ → String
  pub sha256 : String → String
  pub error_text : Error → String
