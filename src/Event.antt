-- ===== src/Event.antt =====
-- pkg/monitor/types.go: interruption events. A time is a number of nanoseconds from the Unix
-- epoch. A drain task is a closure in the source; here it is the name of one.
use aws_node_termination_han.Common.{
  String, Bool, true, false, List, [], Option, none, if◌then◌else◌,
}
use aws_node_termination_han.Common.Int.{ℤ, ◌-ℤ◌}
use text.Mathlib.Text.{starts_with}

-- `LifecycleDetail` of pkg/monitor/sqsevent: what the hook of a scaling group says.
pub record LifecycleDetail : Type 0 where
  pub lifecycle_action_token : String
  pub asg_name : String
  pub lifecycle_hook_name : String
  pub ec2_instance_id : String
  pub lifecycle_transition : String
  pub event : String
  pub request_id : String
  pub time : String

-- The closures that the monitors hang on events, with what they capture. First those of the
-- instance metadata's monitors; `queue_...` are those of the queue's monitor, which log the error
-- of a taint. A message is named by its receipt handle.
pub data DrainTask : Type 0 where
  set_spot_itn_taint taint_asg_lifecycle taint_rebalance uncordon_after_reboot : DrainTask
  scale_up_and_taint : DrainTask
  queue_taint_spot_itn queue_taint_rebalance queue_taint_scheduled : DrainTask
  queue_delete : String → DrainTask
  begin_termination cancel_heartbeat : LifecycleDetail → DrainTask
  end_termination end_launch : LifecycleDetail → String → DrainTask

pub record InterruptionEvent : Type 0 where
  pub event_id : String
  pub kind : String
  pub monitor : String
  pub description : String
  pub state : String
  pub auto_scaling_group_name : String
  pub node_name : String
  pub node_labels : List (String × String)
  pub pods : List String
  pub instance_id : String
  pub provider_id : String
  pub instance_type : String
  pub is_managed : Bool
  pub start_time : ℤ
  pub end_time : ℤ
  pub node_processed : Bool
  pub in_progress : Bool
  pub pre_drain_task : Option DrainTask
  pub post_drain_task : Option DrainTask
  pub cancel_drain_task : Option DrainTask

-- `&monitor.InterruptionEvent{}`
abbrev pub zero_event : InterruptionEvent
zero_event = record {
  event_id = "";
  kind = "";
  monitor = "";
  description = "";
  state = "";
  auto_scaling_group_name = "";
  node_name = "";
  node_labels = [];
  pods = [];
  instance_id = "";
  provider_id = "";
  instance_type = "";
  is_managed = false;
  start_time = ℤ.pos 0;
  end_time = ℤ.pos 0;
  node_processed = false;
  in_progress = false;
  pre_drain_task = none;
  post_drain_task = none;
  cancel_drain_task = none;
}

abbrev pub spot_itn_kind : String
spot_itn_kind = "SPOT_ITN"

abbrev pub scheduled_event_kind : String
scheduled_event_kind = "SCHEDULED_EVENT"

abbrev pub rebalance_recommendation_kind : String
rebalance_recommendation_kind = "REBALANCE_RECOMMENDATION"

abbrev pub state_change_kind : String
state_change_kind = "STATE_CHANGE"

abbrev pub asg_lifecycle_kind : String
asg_lifecycle_kind = "ASG_LIFECYCLE"

abbrev pub asg_launch_lifecycle_kind : String
asg_launch_lifecycle_kind = "ASG_LAUNCH_LIFECYCLE"

abbrev pub sqs_terminate_kind : String
sqs_terminate_kind = "SQS_TERMINATE"

-- `strings.Contains`
unfoldable pub str_contains : String → String → Bool
str_contains String.[] sub = starts_with String.[] sub
str_contains (String.◌∷◌ c s) sub =
    if starts_with (String.◌∷◌ c s) sub then true else str_contains s sub

unfoldable pub is_rebalance_recommendation : InterruptionEvent → Bool
is_rebalance_recommendation e = str_contains e.event_id "rebalance-recommendation"

-- `time.Until(t)` at the clock's reading `now`. Go keeps a `time.Duration` below 292 years; the integers
-- here have no bound.
unfoldable pub time_until : ℤ → ℤ → ℤ
time_until now t = t -ℤ now
