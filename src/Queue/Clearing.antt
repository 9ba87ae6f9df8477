-- ===== src/Queue/Clearing.antt =====
-- The requests of a round of the monitor of the queue, message by message.
use aws_node_termination_han.Common.{
  refl, Bool-cases, inl, inr, ℕ, suc, ◌==◌, length, not, ◌&&◌, Option, none, some, List, [], ◌∷◌,
  ◌++◌, str_eq,
}
use aws_node_termination_han.Config.{Config}
use aws_node_termination_han.Event.{InterruptionEvent, zero_event, LifecycleDetail}
use aws_node_termination_han.Kube.{
  Error, Result, ok, err, Message, delete_message, send_event, Server, M, ◌>>=◌, return, fail,
  attempt, ask, lift, new, skip,
}
use aws_node_termination_han.Kube.Runs.{
  Satisfies, Runs, >>=-Runs, attempt-Runs, return-Runs, fail-Runs, lift-Runs, if-Runs, tell-Runs,
  ask-Runs,
}
use aws_node_termination_han.Kube.Total.{Anything}
use aws_node_termination_han.Std.{Std, EventBridgeEvent}
use aws_node_termination_han.Queue.Monitor.{
  route, Counts, account, send_events, count_deletion, delete_dropped, report,
  process_interruption_events, event_of_lifecycle, with_lifecycle, parse_lifecycle_event,
  process_lifecycle_event_from_asg, process_sqs_message, outcome, process_event, process_message,
  failure_of, asg_wrappers, ec2_event, one, process_event_bridge_event,
}
use aws_node_termination_han.Queue.{
  is_skip, asg_launching_lifecycle_transition, asg_terminating_lifecycle_transition,
  sqs_monitor_kind,
}
use aws_node_termination_han.Queue.Sources.{Wrapper, is_test, decoded}
use aws_node_termination_han.Queue.Wrappers.{
  IsTagged, HasTask, Wrapped, launch-Makes, termination-Makes, state_change-Makes, spot-Makes,
  rebalance-Makes, scheduled-Runs,
}
use aws_node_termination_han.Handler.{failed as is_failure}

module _ (std : Std) (server : Server) (n : Config) (message : Message) where
  abbrev Makes : M (Option InterruptionEvent) → Type 0
  Makes m = Runs (IsTagged message) (HasTask message) m

  failure-Wrapped :
      (failure : Option Error) (wrapper : Wrapper)
      → Satisfies (HasTask message) wrapper
      → Wrapped message (failure_of std server n failure ++ wrapper ∷ [])
  failure-Wrapped none wrapper w = (w, tt)
  failure-Wrapped (some e) wrapper w = (tt, (w, tt))

  failed-Wrapped : (failure : Option Error) → Wrapped message (failure_of std server n failure)
  failed-Wrapped none = tt
  failed-Wrapped (some e) = (tt, tt)

  -- The wrappers of an auto scaling event, whose own event is made by `m`.
  beside-Runs :
      (failure : Option Error) (m : M (Option InterruptionEvent))
      → Makes m
      → Runs
          (IsTagged message)
          (Wrapped message)
          (attempt m >>= λ wrapper. return (failure_of std server n failure ++ wrapper ∷ []))
  beside-Runs failure m r =
      >>=-Runs (attempt m) (λ wrapper. return (failure_of std server n failure ++ wrapper ∷ []))
        (attempt-Runs m r) λ wrapper w. return-Runs _ (failure-Wrapped failure wrapper w)

  asg-Runs :
      (event : EventBridgeEvent)
      → Runs (IsTagged message) (Wrapped message) (asg_wrappers std server n event message)
  unfolding asg_wrappers
  asg-Runs event =
      let (detail, failure) = std.lifecycle_of event.detail in
      if-Runs (str_eq detail.lifecycle_transition asg_launching_lifecycle_transition) _ _
        (λ _. beside-Runs failure _ (launch-Makes std server n message event))
        (λ _.
          if-Runs (str_eq detail.lifecycle_transition asg_terminating_lifecycle_transition) _ _
            (λ _. beside-Runs failure _ (termination-Makes std server n message event))
            (λ _. return-Runs _ (failed-Wrapped failure)))

  ec2-Makes : (event : EventBridgeEvent) → Makes (ec2_event std server n event message)
  unfolding ec2_event str_eq
  ec2-Makes event =
      if-Runs (str_eq event.detail_type "EC2 Instance State-change Notification") _ _
        (λ _. state_change-Makes std server n message event)
        (λ _.
          if-Runs (str_eq event.detail_type "EC2 Spot Instance Interruption Warning") _ _
            (λ _. spot-Makes std server n message event)
            (λ _.
              if-Runs (str_eq event.detail_type "EC2 Instance Rebalance Recommendation") _ _
                (λ _. rebalance-Makes std server n message event)
                (λ _. return-Runs (some zero_event) (λ e. e))))

  bridge-Runs :
      (event : EventBridgeEvent)
      → Runs
          (IsTagged message)
          (Wrapped message)
          (process_event_bridge_event std server n event message)
  unfolding process_event_bridge_event
  bridge-Runs event =
      if-Runs (str_eq event.source "aws.autoscaling") _ _ (λ _. asg-Runs event)
        (λ _.
          if-Runs (str_eq event.source "aws.ec2") _ _
            (λ _.
              >>=-Runs (attempt (ec2_event std server n event message)) (one std server n)
                (attempt-Runs _ (ec2-Makes event)) λ wrapper w. return-Runs _ (w, tt))
            (λ _.
              if-Runs
                (str_eq event.source "aws.health" && str_eq event.detail_type "AWS Health Event") _
                _ (λ _. scheduled-Runs std server n message event) (λ _. return-Runs _ (tt, tt))))

  account-Runs :
      (wrapper : Wrapper) (counts : Counts)
      → Satisfies (HasTask message) wrapper
      → Runs (IsTagged message) Anything (account (route n wrapper) counts)
  unfolding route
  account-Runs (err e) (drops, k) w = elim (Bool-cases (is_skip e)) [
    | inl s ↦ rw s (return-Runs (suc drops, k) tt)
    | inr s ↦ rw s (return-Runs (drops, suc k) tt)
  ]
  account-Runs (ok none) (drops, k) w = return-Runs (suc drops, k) tt
  account-Runs (ok (some event)) (drops, k) w =
      elim (Bool-cases (n.check_tag_before_draining && not event.is_managed)) [
        | inl s ↦ rw s (return-Runs (suc drops, k) tt)
        | inr s ↦ elim (Bool-cases (str_eq event.monitor sqs_monitor_kind)) [
          | inl o ↦
              rw (s, o)
                (tell-Runs (send_event event) (return (drops, k)) (w o) (return-Runs (drops, k) tt))
          | inr o ↦ rw (s, o) (return-Runs (suc drops, k) tt)
        ]
      ]

  send-Runs :
      (wrappers : List Wrapper) (counts : Counts)
      → Wrapped message wrappers
      → Runs (IsTagged message) Anything (send_events std server n wrappers counts)
  unfolding send_events
  send-Runs [] counts w = return-Runs counts tt
  send-Runs (wrapper ∷ wrappers) counts (w, ws) =
      >>=-Runs (account (route n wrapper) counts) (send_events std server n wrappers)
        (account-Runs wrapper counts w) λ next _. send-Runs wrappers next ws

  count-Runs :
      (k : ℕ) (answer : Result (Unit {0}))
      → Runs (IsTagged message) Anything (count_deletion std server n k answer)
  count-Runs k (ok _) = return-Runs k tt
  count-Runs k (err e) = return-Runs (suc k) tt

  delete-Runs :
      (wrappers : List Wrapper) (drops k : ℕ)
      → Runs (IsTagged message) Anything (delete_dropped std server n wrappers message (drops, k))
  delete-Runs wrappers drops k =
      if-Runs (drops == length wrappers) _ _
        (λ _.
          >>=-Runs (attempt (ask (delete_message message.receipt_handle) server.done))
            (count_deletion std server n k)
            (attempt-Runs (ask (delete_message message.receipt_handle) server.done)
              (ask-Runs (delete_message message.receipt_handle) server.done refl))
            λ answer _. count-Runs k answer)
        (λ _. return-Runs k tt)

  report-Runs : (k : ℕ) → Runs (IsTagged message) Anything (report std server n k)
  report-Runs k = if-Runs (k == 0) _ _ (λ _. return-Runs tt tt) (λ _. fail-Runs _)

  process-Runs :
      (wrappers : List Wrapper)
      → Wrapped message wrappers
      → Runs (IsTagged message) Anything (process_interruption_events std server n wrappers message)
  unfolding process_interruption_events
  process-Runs wrappers ws =
      >>=-Runs
        (send_events std server n wrappers (0, 0) >>= delete_dropped std server n wrappers message)
        (report std server n)
        (>>=-Runs (send_events std server n wrappers (0, 0))
          (delete_dropped std server n wrappers message) (send-Runs wrappers (0, 0) ws)
          λ counts _. delete-Runs wrappers counts.0 counts.1)
        λ k _. report-Runs k

  lifecycle-Runs :
      (detail : LifecycleDetail)
      → Runs (IsTagged message) Anything (event_of_lifecycle std server n message detail)
  unfolding event_of_lifecycle
  lifecycle-Runs detail =
      if-Runs (is_test detail) _ _
        (λ _.
          >>=-Runs (attempt (ask (delete_message message.receipt_handle) server.done))
            (λ deleted. fail (skip (new "message is a test notification")))
            (attempt-Runs (ask (delete_message message.receipt_handle) server.done)
              (ask-Runs (delete_message message.receipt_handle) server.done refl))
            λ _ _. fail-Runs (skip (new "message is a test notification")))
        (λ _.
          if-Runs
            (not (str_eq detail.lifecycle_transition asg_terminating_lifecycle_transition)
              && not (str_eq detail.lifecycle_transition asg_launching_lifecycle_transition))
            _ _ (λ _. fail-Runs _)
            (λ _.
              >>=-Runs (lift (std.lifecycle_text detail)) _ (lift-Runs _)
                λ text _. return-Runs _ tt))

  from_asg-Runs :
      (r : Result LifecycleDetail)
      → Runs (IsTagged message) Anything (with_lifecycle std server n message r)
  from_asg-Runs (ok detail) = lifecycle-Runs detail
  from_asg-Runs (err e) = fail-Runs _

  sqs-Runs : Runs (IsTagged message) Anything (process_sqs_message std server n message)
  unfolding process_sqs_message process_lifecycle_event_from_asg
  sqs-Runs =
      >>=-Runs (lift (decoded (λ e. e) (std.event_of message.body))) _ (lift-Runs _) λ event _.
        if-Runs (str_eq event.detail_type "") _ _
          (λ _. from_asg-Runs (parse_lifecycle_event std message.body)) (λ _. return-Runs event tt)

  outcome-Runs :
      (r : Result EventBridgeEvent)
      → Runs (IsTagged message) Anything (outcome std server n message r)
  outcome-Runs (err e) = return-Runs (not (is_skip e)) tt
  outcome-Runs (ok event) =
      >>=-Runs (attempt (process_event std server n message event))
        (λ done. return (is_failure done))
        (attempt-Runs (process_event std server n message event) (
          >>=-Runs (process_event_bridge_event std server n event message)
            (λ wrappers. process_interruption_events std server n wrappers message)
            (bridge-Runs event) process-Runs))
        λ done _. return-Runs (is_failure done) tt

  pub process_message-Runs : Runs (IsTagged message) Anything (process_message std server n message)
  unfolding process_message
  process_message-Runs =
      >>=-Runs (attempt (process_sqs_message std server n message)) (outcome std server n message)
        (attempt-Runs (process_sqs_message std server n message) sqs-Runs) λ r _. outcome-Runs r
