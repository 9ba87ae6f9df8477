-- ===== src/Examples/Queue.antt =====
-- The theorems on the monitors of the queue and of the instance metadata at concrete inputs.
use Prim.Native.Char.{code}
use aws_node_termination_han.Common.{
  ℕ, zero, suc, ◌==◌, ◌≡◌, String, true, false, none, some, List, [], ◌∷◌, if◌then◌else◌, str_eq,
  length,
}
use aws_node_termination_han.Common.Int.{ℤ}
use aws_node_termination_han.Config.{default_config}
use aws_node_termination_han.Event.{
  uncordon_after_reboot, LifecycleDetail, InterruptionEvent, zero_event, queue_delete,
}
use aws_node_termination_han.Kube.{
  ok, err, new, skip, Message, ScheduledEvent, record_heartbeat, send_event, Server,
}
use aws_node_termination_han.Kube.Trace.{Extends}
use aws_node_termination_han.Std.{Std, EventBridgeEvent}
use aws_node_termination_han.Queue.{is_skip, sqs_monitor_kind, asg_terminating_lifecycle_transition}
use aws_node_termination_han.Queue.Sources.{Wrapper}
use aws_node_termination_han.Queue.Monitor.{process_interruption_events, process_message}
use aws_node_termination_han.Queue.Actionable.{
  process_interruption_events_lem, process_interruption_events_fails,
}
use aws_node_termination_han.Queue.Rounds.{IsClearing, process_message-IsClearing}
use aws_node_termination_han.Queue.Heartbeats.{tick, stopped, send_heartbeats, send_heartbeats_lem}
use aws_node_termination_han.Handler.{failed as is_failure}
use aws_node_termination_han.Metadata.{scheduled_event_monitor}
use aws_node_termination_han.Metadata.Scheduled.{announced, scheduled_event_monitor_lem}
use aws_node_termination_han.Metadata.Polling.{polling, panics, panics_lem}
use aws_node_termination_han.Examples.{server}

-- Times as texts that can be read back.
abbrev unary : ℕ → String
unary zero = String.[]
unary (suc k) = String.◌∷◌ "p" (unary k)

abbrev time_text : ℤ → String
time_text (ℤ.pos zero) = String.[]
time_text (ℤ.pos (suc k)) = String.◌∷◌ "p" (unary k)
time_text (ℤ.negsuc k) = String.◌∷◌ "n" (unary k)

abbrev size : String → ℕ
size String.[] = 0
size (String.◌∷◌ c s) = suc (size s)

abbrev time_of : String → ℤ
time_of String.[] = ℤ.pos zero
time_of (String.◌∷◌ c s) = if code c == code "n" then ℤ.negsuc (size s) else ℤ.pos (suc (size s))

abbrev last_of : List String → String
last_of [] = ""
last_of (a ∷ []) = a
last_of (a ∷ b ∷ l) = last_of (b ∷ l)

abbrev plain_event : EventBridgeEvent
plain_event = record { id = "1"; detail_type = ""; source = ""; time = ""; detail = "" }

abbrev notice : LifecycleDetail
notice = record {
  lifecycle_action_token = "token";
  asg_name = "spot";
  lifecycle_hook_name = "hook";
  ec2_instance_id = "i-0abc";
  lifecycle_transition = asg_terminating_lifecycle_transition;
  event = "";
  request_id = "7";
  time = "";
}

abbrev pub std : Std
std = record {
  event_of = λ text. (plain_event, none);
  message_of = λ text. ok none;
  lifecycle_of = λ text. (notice, none);
  lifecycle_text = λ detail. ok "notice";
  state_change_of = λ text. ok (record { instance_id = "i-0abc"; state = "stopped" });
  spot_of = λ text. ok "i-0abc";
  rebalance_of = λ text. ok "i-0abc";
  scheduled_change_of = λ text. ok (record {
    event_type_category = "scheduledChange";
    service = "EC2";
    affected_entities = "i-0abc" ∷ [];
  });
  sprintf = λ format. last_of;
  to_lower = λ text. text;
  rfc3339 = λ text. ok (ℤ.pos 5);
  event_date = λ text. ok (ℤ.pos 5);
  time_text = time_text;
  rfc3339_text = time_text;
  sha256 = λ text. text;
  error_text = λ e. "";
}

abbrev message : Message
message = record { message_id = "m-1"; receipt_handle = "r-1"; body = "notice" }

abbrev own_event : InterruptionEvent
own_event = record zero_event {
  event_id = "e-1";
  monitor = sqs_monitor_kind;
  is_managed = true;
  post_drain_task = some (queue_delete "r-1");
}

abbrev wrappers : List Wrapper
wrappers = err (skip (new "gone")) ∷ ok none ∷ ok (some own_event) ∷ []

process_interruption_events_lem_example :
    (process_interruption_events std server default_config wrappers message []).1
    ≡ send_event own_event ∷ []
unfolding is_skip str_eq
process_interruption_events_lem_example =
    process_interruption_events_lem std server default_config wrappers message []

process_interruption_events_fails_example :
    is_failure
      (process_interruption_events std server default_config (err (new "busy") ∷ []) message []).0
    ≡ true
unfolding is_skip
process_interruption_events_fails_example =
    process_interruption_events_fails std server default_config (err (new "busy") ∷ []) message []

process_message-IsClearing_example :
    Extends (IsClearing message) [] (process_message std server default_config message []).1
process_message-IsClearing_example = process_message-IsClearing std server default_config message []

send_heartbeats_lem_example :
    (send_heartbeats server notice (tick ∷ tick ∷ stopped ∷ tick ∷ []) []).1
    ≡ record_heartbeat notice ∷ record_heartbeat notice ∷ []
send_heartbeats_lem_example =
    send_heartbeats_lem server notice (tick ∷ tick ∷ stopped ∷ tick ∷ []) []

abbrev reboot : ScheduledEvent
reboot = record {
  not_before = "21 Jan 2019 09:00:43 GMT";
  not_after = "";
  code = "system-reboot";
  description = "";
  event_id = "e-1";
  state = "active";
}

abbrev metadata : Server
metadata = record server {
  scheduled_events = λ h. ok (reboot ∷ record reboot { event_id = "e-2"; state = "canceled" } ∷ []);
  spot_itn = λ h. ok (some (record { action = "terminate"; time = "2019-01-21T09:00:43Z" }));
  lifecycle_state = λ h. ok "Terminated";
  time = λ h. if length h == 2 then ℤ.pos 0 else ℤ.pos 1;
}

scheduled_event_monitor_lem_example :
    announced (scheduled_event_monitor std metadata "node-a" []).1
    ≡ (true, "e-2", none) ∷ (false, "e-1", some uncordon_after_reboot) ∷ []
unfolding announced str_eq
scheduled_event_monitor_lem_example = scheduled_event_monitor_lem std metadata "node-a" []

panics_lem_example :
    panics (some "no" ∷ some "no" ∷ none ∷ some "no" ∷ some "no" ∷ []) polling ≡ true
unfolding str_eq
panics_lem_example = panics_lem (some "no" ∷ some "no" ∷ none ∷ some "no" ∷ some "no" ∷ [])
