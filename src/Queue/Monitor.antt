-- ===== src/Queue/Monitor.antt =====
-- sqs-monitor.go: a round of the monitor of the queue, from the receipt of messages to the events
-- that it sends and the messages that it deletes.
use aws_node_termination_han.Common.{
  ℕ, suc, ◌==◌, String, Bool, not, ◌&&◌, Option, none, some, List, [], ◌∷◌, ◌++◌, if◌then◌else◌,
  str_eq, length,
}
use aws_node_termination_han.Config.{Config}
use aws_node_termination_han.Event.{LifecycleDetail, InterruptionEvent, zero_event}
use aws_node_termination_han.Kube.{
  Error, Result, ok, err, new, wrap, skip, Message, delete_message, receive_messages, send_event,
  Server, M, return, fail, ◌>>=◌, ◌>>◌, attempt, lift, ask, tell,
}
use aws_node_termination_han.Handler.{failed as is_failure}
use aws_node_termination_han.Std.{Std, EventBridgeEvent}
use aws_node_termination_han.Queue.{
  is_skip, sqs_monitor_kind, asg_terminating_lifecycle_transition,
  asg_launching_lifecycle_transition,
}
use aws_node_termination_han.Queue.Sources.{
  Wrapper, is_test, decoded, asg_termination_to_interruption_event,
  create_asg_instance_launch_event, spot_itn_termination_to_interruption_event,
  rebalance_recommendation_to_interruption_event, ec2_state_change_to_interruption_event,
  scheduled_event_to_interruption_events,
}

-- What a round does with an event: it drops it, it fails, or it sends it.
pub data Route : Type 0 where
  dropped failed : Route
  sent : InterruptionEvent → Route

-- The cases of the loop over the events of a message.
unfoldable pub route : Config → Wrapper → Route
route n (err e) = if is_skip e then dropped else failed
route n (ok none) = dropped
route n (ok (some event)) =
    if n.check_tag_before_draining && not event.is_managed
    then dropped
    else if str_eq event.monitor sqs_monitor_kind
    then sent event
    else dropped

abbrev pub parsed : Std → String → Result (Option String) → Result LifecycleDetail
parsed std message (err e) = err (wrap "unmarshalling SQS message" e)
parsed std message (ok (some text)) =
    decoded (wrap "unmarshalling message body from '.Message'") (std.lifecycle_of text)
parsed std message (ok none) =
    decoded (wrap "unmarshalling message body") (std.lifecycle_of message)

unfoldable pub parse_lifecycle_event : Std → String → Result LifecycleDetail
parse_lifecycle_event std message = parsed std message (std.message_of message)

-- A count of the events that were dropped, and one of those that failed.
abbrev pub Counts : Type 0
Counts = ℕ × ℕ

abbrev pub account : Route → Counts → M Counts
account dropped (drops, failures) = return (suc drops, failures)
account failed (drops, failures) = return (drops, suc failures)
account (sent event) counts = tell (send_event event) >> return counts

module _ (std : Std) (server : Server) (n : Config) where
  unfoldable pub event_of_lifecycle : Message → LifecycleDetail → M EventBridgeEvent
  event_of_lifecycle message detail =
      if is_test detail
      then (do
        deleted ← attempt (ask (delete_message message.receipt_handle) server.done)
        fail (skip (new "message is a test notification")))
      else if not (str_eq detail.lifecycle_transition asg_terminating_lifecycle_transition)
          && not (str_eq detail.lifecycle_transition asg_launching_lifecycle_transition)
      then fail (new "lifecycle transition must be one of an end or of a launch")
      else (do
        text ← lift (std.lifecycle_text detail)
        return (record {
          id = detail.request_id;
          detail_type = "";
          source = "aws.autoscaling";
          time = detail.time;
          detail = text;
        }))

  abbrev pub with_lifecycle : Message → Result LifecycleDetail → M EventBridgeEvent
  with_lifecycle message (err e) = fail (wrap "parsing lifecycle event messsage from ASG" e)
  with_lifecycle message (ok detail) = event_of_lifecycle message detail

  unfoldable pub process_lifecycle_event_from_asg : Message → M EventBridgeEvent
  process_lifecycle_event_from_asg message =
      with_lifecycle message (parse_lifecycle_event std message.body)

  -- A message without a detail type comes from the scaling group itself.
  unfoldable pub process_sqs_message : Message → M EventBridgeEvent
  process_sqs_message message = do
    event ← lift (decoded (λ e. e) (std.event_of message.body))
    if str_eq event.detail_type "" then process_lifecycle_event_from_asg message else return event

  abbrev pub one : Result (Option InterruptionEvent) → M (List Wrapper)
  one wrapper = return (wrapper ∷ [])

  abbrev pub failure_of : Option Error → List Wrapper
  failure_of none = []
  failure_of (some e) = err (wrap "unmarshaling message from ASG lifecycle event" e) ∷ []

  -- The transition is read from a detail whose decoding may have failed.
  unfoldable pub asg_wrappers : EventBridgeEvent → Message → M (List Wrapper)
  asg_wrappers event message =
      let (detail, failure) = std.lifecycle_of event.detail in
      if str_eq detail.lifecycle_transition asg_launching_lifecycle_transition
      then (do
        wrapper ← attempt (create_asg_instance_launch_event std server n event message)
        return (failure_of failure ++ wrapper ∷ []))
      else if str_eq detail.lifecycle_transition asg_terminating_lifecycle_transition
      then (do
        wrapper ← attempt (asg_termination_to_interruption_event std server n event message)
        return (failure_of failure ++ wrapper ∷ []))
      else return (failure_of failure)

  -- Another type of detail leaves the event that was made at the start, with no field set.
  unfoldable pub ec2_event : EventBridgeEvent → Message → M (Option InterruptionEvent)
  ec2_event event message =
      if str_eq event.detail_type "EC2 Instance State-change Notification"
      then ec2_state_change_to_interruption_event std server n event message
      else if str_eq event.detail_type "EC2 Spot Instance Interruption Warning"
      then spot_itn_termination_to_interruption_event std server n event message
      else if str_eq event.detail_type "EC2 Instance Rebalance Recommendation"
      then rebalance_recommendation_to_interruption_event std server n event message
      else return (some zero_event)

  unfoldable pub process_event_bridge_event : EventBridgeEvent → Message → M (List Wrapper)
  process_event_bridge_event event message =
      if str_eq event.source "aws.autoscaling"
      then asg_wrappers event message
      else if str_eq event.source "aws.ec2"
      then attempt (ec2_event event message) >>= one
      else if str_eq event.source "aws.health" && str_eq event.detail_type "AWS Health Event"
      then scheduled_event_to_interruption_events std server n event message
      else one (err (new "event source is not supported"))

  unfoldable pub send_events : List Wrapper → Counts → M Counts
  send_events [] counts = return counts
  send_events (wrapper ∷ wrappers) counts =
      account (route n wrapper) counts >>= send_events wrappers

  -- A failed deletion counts as a failed event.
  abbrev pub count_deletion : ℕ → Result (Unit {0}) → M ℕ
  count_deletion failures (ok _) = return failures
  count_deletion failures (err e) = return (suc failures)

  abbrev pub delete_dropped : List Wrapper → Message → Counts → M ℕ
  delete_dropped wrappers message (drops, failures) =
      if drops == length wrappers
      then attempt (ask (delete_message message.receipt_handle) server.done)
        >>= count_deletion failures
      else return failures

  abbrev pub report : ℕ → M (Unit {0})
  report failures =
      if failures == 0
      then return tt
      else fail (new "some interruption events for the message could not be processed")

  unfoldable pub process_interruption_events : List Wrapper → Message → M (Unit {0})
  process_interruption_events wrappers message =
      send_events wrappers (0, 0) >>= delete_dropped wrappers message >>= report

  abbrev pub process_event : Message → EventBridgeEvent → M (Unit {0})
  process_event message event = process_event_bridge_event event message >>= λ wrappers.
      process_interruption_events wrappers message

  -- Whether the message counts as failed.
  abbrev pub outcome : Message → Result EventBridgeEvent → M Bool
  outcome message (err e) = return (not (is_skip e))
  outcome message (ok event) =
      attempt (process_event message event) >>= λ done. return (is_failure done)

  unfoldable pub process_message : Message → M Bool
  process_message message = attempt (process_sqs_message message) >>= outcome message

  unfoldable pub process_messages : List Message → M ℕ
  process_messages [] = return 0
  process_messages (message ∷ messages) = do
    failure ← process_message message
    failures ← process_messages messages
    return (if failure then suc failures else failures)

  -- `Monitor`: the error of a round is that all its messages failed, or none could be received.
  unfoldable pub sqs_monitor : M (Unit {0})
  sqs_monitor = do
    messages ← ask receive_messages server.messages
    failures ← process_messages messages
    if not (length messages == 0) && failures == length messages
        then fail (new "none of the waiting queue events could be processed")
        else return tt
