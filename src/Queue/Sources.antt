-- ===== src/Queue/Sources.antt =====
-- The files of pkg/monitor/sqsevent that turn an event of EventBridge into interruption events.
use aws_node_termination_han.Common.{
  String, Bool, not, ◌||◌, Option, none, some, List, [], ◌∷◌, if◌then◌else◌, str_eq,
}
use aws_node_termination_han.Common.Int.{ℤ}
use aws_node_termination_han.Config.{Config}
use aws_node_termination_han.Event.{
  LifecycleDetail, queue_taint_spot_itn, queue_taint_rebalance, queue_taint_scheduled, queue_delete,
  begin_termination, cancel_heartbeat, end_termination, end_launch, InterruptionEvent, zero_event,
  asg_lifecycle_kind, asg_launch_lifecycle_kind, spot_itn_kind, rebalance_recommendation_kind,
  state_change_kind, scheduled_event_kind, str_contains,
}
use aws_node_termination_han.Kube.{
  Error, Result, ok, err, new, wrap, skip, Message, Server, M, return, fail, ◌>>=◌, attempt, lift,
  now,
}
use aws_node_termination_han.Std.{Std, EventBridgeEvent, ScheduledChangeEventDetail}
use aws_node_termination_han.Queue.{NodeInfo, get_node_info, sqs_monitor_kind, test_notification}

-- `InterruptionEventWrapper`: an error, an event, or no event and no error.
abbrev pub Wrapper : Type 0
Wrapper = Result (Option InterruptionEvent)

abbrev pub is_test : LifecycleDetail → Bool
is_test d = str_eq d.event test_notification || str_eq d.lifecycle_transition test_notification

abbrev pub instance_states_to_drain : String
instance_states_to_drain = "stopping,stopped,shutting-down,terminated"

-- The error of a decoding that may have filled in a part.
abbrev pub decoded {ℓ} : {A : Type ℓ} → (Error → Error) → A × Option Error → Result A
decoded f (a, none) = ok a
decoded f (a, some e) = err (f e)

module _ (std : Std) (server : Server) (n : Config) where
  abbrev pub time_or_now : Result ℤ → M ℤ
  time_or_now (ok t) = return t
  time_or_now (err _) = now server

  -- `getTime`: an unreadable time is the current time.
  unfoldable pub get_time : EventBridgeEvent → M ℤ
  get_time event = time_or_now (std.rfc3339 event.time)

  -- The fields that all events of the queue have.
  abbrev pub queue_event : String → String → ℤ → NodeInfo → String → InterruptionEvent
  queue_event event_id kind start_time info description = record zero_event {
    event_id = event_id;
    kind = kind;
    monitor = sqs_monitor_kind;
    auto_scaling_group_name = info.asg_name;
    start_time = start_time;
    node_name = info.name;
    is_managed = info.is_managed;
    instance_id = info.instance_id;
    provider_id = info.provider_id;
    instance_type = info.instance_type;
    description = description;
  }

  unfoldable pub asg_termination_to_interruption_event :
      EventBridgeEvent → Message → M (Option InterruptionEvent)
  asg_termination_to_interruption_event event message = do
    detail ← lift (decoded (λ e. e) (std.lifecycle_of event.detail))
    if is_test detail then fail (skip (new "message is an ASG test notification")) else (do
      info ← get_node_info std server n detail.ec2_instance_id
      start_time ← get_time event
      described_time ← get_time event
      return (
          some
            (record (queue_event (std.sprintf "asg-lifecycle-term-%x" (event.id ∷ []))
              asg_lifecycle_kind start_time info
              (std.sprintf
                "ASG Lifecycle Termination event received. Instance will be interrupted at %s \n"
                (std.time_text described_time ∷ []))) {
                  auto_scaling_group_name = detail.asg_name;
                  instance_id = detail.ec2_instance_id;
                  pre_drain_task = some (begin_termination detail);
                  cancel_drain_task = some (cancel_heartbeat detail);
                  post_drain_task = some (end_termination detail message.receipt_handle);
                })))

  -- The node's instance type stays empty.
  unfoldable pub create_asg_instance_launch_event :
      EventBridgeEvent → Message → M (Option InterruptionEvent)
  create_asg_instance_launch_event event message = do
    detail ← lift (
        decoded (wrap "unmarshaling message from ASG launch lifecycle event")
          (std.lifecycle_of event.detail))
    if is_test detail then fail (skip (new "message is an ASG test notification")) else (do
      info ← get_node_info std server n detail.ec2_instance_id
      start_time ← get_time event
      described_time ← get_time event
      return (
          some
            (record (queue_event (std.sprintf "asg-lifecycle-term-%x" (event.id ∷ []))
              asg_launch_lifecycle_kind start_time info
              (std.sprintf "ASG Lifecycle Launch event received. Instance was started at %s \n"
                (std.time_text described_time ∷ []))) {
                  auto_scaling_group_name = detail.asg_name;
                  instance_id = detail.ec2_instance_id;
                  instance_type = "";
                  post_drain_task = some (end_launch detail message.receipt_handle);
                })))

  unfoldable pub spot_itn_termination_to_interruption_event :
      EventBridgeEvent → Message → M (Option InterruptionEvent)
  spot_itn_termination_to_interruption_event event message = do
    instance_id ← lift (std.spot_of event.detail)
    info ← get_node_info std server n instance_id
    start_time ← get_time event
    described_time ← get_time event
    return (
        some
          (record (queue_event (std.sprintf "spot-itn-event-%x" (event.id ∷ [])) spot_itn_kind
            start_time info
            (std.sprintf "Spot Interruption notice for instance %s was sent at %s \n"
              (instance_id ∷ std.time_text described_time ∷ []))) {
                instance_id = instance_id;
                pre_drain_task = some queue_taint_spot_itn;
                post_drain_task = some (queue_delete message.receipt_handle);
              }))

  unfoldable pub rebalance_recommendation_to_interruption_event :
      EventBridgeEvent → Message → M (Option InterruptionEvent)
  rebalance_recommendation_to_interruption_event event message = do
    instance_id ← lift (std.rebalance_of event.detail)
    info ← get_node_info std server n instance_id
    start_time ← get_time event
    described_time ← get_time event
    return (
        some
          (record (queue_event (std.sprintf "rebalance-recommendation-event-%x" (event.id ∷ []))
            rebalance_recommendation_kind start_time info
            (std.sprintf
              "Rebalance recommendation event received. Instance %s will be cordoned at %s \n"
              (instance_id ∷ std.time_text described_time ∷ []))) {
                pre_drain_task = some queue_taint_rebalance;
                post_drain_task = some (queue_delete message.receipt_handle);
              }))

  -- Only the states that end an instance make an event.
  unfoldable pub ec2_state_change_to_interruption_event :
      EventBridgeEvent → Message → M (Option InterruptionEvent)
  ec2_state_change_to_interruption_event event message = do
    detail ← lift (std.state_change_of event.detail)
    if not (str_contains instance_states_to_drain (std.to_lower detail.state))
        then return none
        else (do
          info ← get_node_info std server n detail.instance_id
          start_time ← get_time event
          described_time ← get_time event
          return (
              some
                (record (queue_event (std.sprintf "ec2-state-change-event-%x" (event.id ∷ []))
                  state_change_kind start_time info
                  (std.sprintf "EC2 State Change event received. Instance %s went into %s at %s \n"
                    (detail.instance_id ∷ detail.state ∷ std.time_text described_time ∷ []))) {
                      instance_id = detail.instance_id;
                      post_drain_task = some (queue_delete message.receipt_handle);
                    })))

  -- One affected instance.
  unfoldable pub affected_at :
      EventBridgeEvent → Message → NodeInfo → ℤ → M (Option InterruptionEvent)
  affected_at event message info start_time = do
    described_time ← get_time event
    return (
        some
          (record (queue_event (std.sprintf "aws-health-scheduled-change-event-%x" (event.id ∷ []))
            scheduled_event_kind start_time info
            (std.sprintf
              "AWS Health scheduled change event received. Instance %s will be interrupted at %s \n"
              (info.instance_id ∷ std.time_text described_time ∷ []))) {
                pre_drain_task = some queue_taint_scheduled;
                post_drain_task = some (queue_delete message.receipt_handle);
              }))

  -- The event starts at once, whatever time it announces.
  unfoldable pub affected : EventBridgeEvent → Message → NodeInfo → M (Option InterruptionEvent)
  affected event message info = now server >>= affected_at event message info

  unfoldable pub affected_entities : EventBridgeEvent → Message → List String → M (List Wrapper)
  affected_entities event message [] = return []
  affected_entities event message (entity ∷ entities) = do
    wrapper ← attempt (get_node_info std server n entity >>= affected event message)
    wrappers ← affected_entities event message entities
    return (wrapper ∷ wrappers)

  unfoldable pub scheduled_change :
      EventBridgeEvent → Message → Result ScheduledChangeEventDetail → M (List Wrapper)
  scheduled_change event message (err e) = return (err e ∷ [])
  scheduled_change event message (ok detail) =
      if not (str_eq detail.service "EC2")
      then return (err (skip (new "events for the service are not supported")) ∷ [])
      else if not (str_eq detail.event_type_category "scheduledChange")
      then return (err (skip (new "events with the EventTypeCategory are not supported")) ∷ [])
      else affected_entities event message detail.affected_entities

  unfoldable pub scheduled_event_to_interruption_events :
      EventBridgeEvent → Message → M (List Wrapper)
  scheduled_event_to_interruption_events event message =
      scheduled_change event message (std.scheduled_change_of event.detail)
