-- ===== src/Queue/Wrappers.antt =====
-- How a message leaves the queue: what the files of pkg/monitor/sqsevent ask for it, and the drain
-- tasks of the events that they send for it.
use aws_node_termination_han.Common.{
  ◌≡◌, String, Bool, true, false, not, Option, none, some, List, [], ◌∷◌, str_eq, str_eq_refl,
}
use aws_node_termination_han.Common.Int.{ℤ}
use aws_node_termination_han.Config.{Config}
use aws_node_termination_han.Event.{
  DrainTask, queue_delete, end_termination, end_launch, InterruptionEvent, str_contains,
}
use aws_node_termination_han.Kube.{
  Result, ok, err, Instance, Message, Request, describe_instances, delete_message, send_event,
  Server, M, ◌>>=◌, return, attempt, ask, lift, now, wrap,
}
use aws_node_termination_han.Kube.Trace.{same, more}
use aws_node_termination_han.Kube.Runs.{
  Satisfies, Runs, >>=-Runs, attempt-Runs, return-Runs, fail-Runs, lift-Runs, if-Runs, ask-Runs,
}
use aws_node_termination_han.Kube.Total.{Anything}
use aws_node_termination_han.Std.{Std, EventBridgeEvent, ScheduledChangeEventDetail}
use aws_node_termination_han.Queue.{
  NodeInfo, first_instance, described, get_node_info, sqs_monitor_kind, state_or_unknown,
}
use aws_node_termination_han.Queue.Sources.{
  Wrapper, is_test, decoded, instance_states_to_drain, time_or_now, get_time,
  asg_termination_to_interruption_event, create_asg_instance_launch_event,
  spot_itn_termination_to_interruption_event, rebalance_recommendation_to_interruption_event,
  ec2_state_change_to_interruption_event, affected, affected_at, affected_entities,
  scheduled_change, scheduled_event_to_interruption_events,
}

-- The task is one of those for after a drain, and has the handle.
abbrev pub clears : String → Option DrainTask → Bool
clears handle (some (queue_delete own)) = str_eq own handle
clears handle (some (end_termination detail own)) = str_eq own handle
clears handle (some (end_launch detail own)) = str_eq own handle
clears handle _ = false

-- A request on behalf of a message: an event is sent with a task of that message for after the drain, and
-- no other message is deleted.
abbrev pub IsTagged : Message → Request → Type 0
IsTagged message (send_event event) = clears message.receipt_handle event.post_drain_task ≡ true
IsTagged message (delete_message handle) = handle ≡ message.receipt_handle
IsTagged message _ = Unit {0}

-- An event of this monitor has such a task.
abbrev pub HasTask : Message → Option InterruptionEvent → Type 0
HasTask message none = Unit {0}
HasTask message (some event) =
    str_eq event.monitor sqs_monitor_kind ≡ true
    → clears message.receipt_handle event.post_drain_task ≡ true

abbrev pub Wrapped : Message → List Wrapper → Type 0
Wrapped message [] = Unit {0}
Wrapped message (wrapper ∷ wrappers) =
    Satisfies (HasTask message) wrapper × Wrapped message wrappers

module _ (std : Std) (server : Server) (n : Config) (message : Message) where
  abbrev pub Plain : {A : Type 0} → M A → Type 0
  Plain m = Runs (IsTagged message) Anything m

  abbrev Makes : M (Option InterruptionEvent) → Type 0
  Makes m = Runs (IsTagged message) (HasTask message) m

  first_instance-Runs :
      (instance_id : String) (reservations : List (List Instance))
      → Plain (first_instance std server n instance_id reservations)
  unfolding first_instance
  first_instance-Runs instance_id [] = fail-Runs _
  first_instance-Runs instance_id ([] ∷ reservations) = fail-Runs _
  first_instance-Runs instance_id ((instance_ ∷ instances) ∷ reservations) =
      if-Runs (str_eq instance_.private_dns_name "") _ _
        (λ _.
          if-Runs (not (str_eq (state_or_unknown instance_.state_name) "running")) _ _
            (λ _. fail-Runs _) (λ _. fail-Runs _))
        (λ _. return-Runs _ tt)

  described-Runs :
      (instance_id : String) (answer : Result (List (List Instance)))
      → Plain (described std server n instance_id answer)
  unfolding described
  described-Runs instance_id (ok reservations) = first_instance-Runs instance_id reservations
  described-Runs instance_id (err e) = fail-Runs _

  pub get_node_info-Runs : (instance_id : String) → Plain (get_node_info std server n instance_id)
  unfolding get_node_info
  get_node_info-Runs instance_id =
      >>=-Runs (attempt (ask (describe_instances instance_id) server.reservations))
        (described std server n instance_id)
        (attempt-Runs (ask (describe_instances instance_id) server.reservations)
          (ask-Runs (describe_instances instance_id) server.reservations tt))
        λ answer _. described-Runs instance_id answer

  pub now-Plain : Plain (now server)
  now-Plain = record { sends = λ h. more tt same; gives = λ h. tt }

  time_or_now-Runs : (r : Result ℤ) → Plain (time_or_now std server n r)
  time_or_now-Runs (ok t) = return-Runs t tt
  time_or_now-Runs (err e) = now-Plain

  pub get_time-Runs : (event : EventBridgeEvent) → Plain (get_time std server n event)
  unfolding get_time
  get_time-Runs event = time_or_now-Runs (std.rfc3339 event.time)

  -- The end of the functions that make an event.
  timed-Makes :
      (event : EventBridgeEvent) (make : ℤ → ℤ → InterruptionEvent)
      → ((a b : ℤ) → HasTask message (some (make a b)))
      → Makes (
          get_time std server n event >>= λ a.
          get_time std server n event >>= λ b. return (some (make a b)))
  timed-Makes event make t =
      >>=-Runs (get_time std server n event) _ (get_time-Runs _) λ a _.
        >>=-Runs (get_time std server n event) _ (get_time-Runs _) λ b _. return-Runs _ (t a b)

  informed-Makes :
      (instance_id : String) (event : EventBridgeEvent)
      (make : NodeInfo → ℤ → ℤ → InterruptionEvent)
      → ((info : NodeInfo) (a b : ℤ) → HasTask message (some (make info a b)))
      → Makes (
          get_node_info std server n instance_id >>= λ info. get_time std server n event >>= λ a.
          get_time std server n event >>= λ b. return (some (make info a b)))
  informed-Makes instance_id event make t =
      >>=-Runs (get_node_info std server n instance_id) _ (get_node_info-Runs _)
        λ info _. timed-Makes event (make info) (t info)

  pub spot-Makes :
      (event : EventBridgeEvent)
      → Makes (spot_itn_termination_to_interruption_event std server n event message)
  unfolding spot_itn_termination_to_interruption_event
  spot-Makes event = >>=-Runs (lift (std.spot_of event.detail)) _ (lift-Runs _) λ instance_id _.
      informed-Makes instance_id event _ (λ _ _ _ _. str_eq_refl message.receipt_handle)

  pub rebalance-Makes :
      (event : EventBridgeEvent)
      → Makes (rebalance_recommendation_to_interruption_event std server n event message)
  unfolding rebalance_recommendation_to_interruption_event
  rebalance-Makes event =
      >>=-Runs (lift (std.rebalance_of event.detail)) _ (lift-Runs _) λ instance_id _.
        informed-Makes instance_id event _ (λ _ _ _ _. str_eq_refl message.receipt_handle)

  pub state_change-Makes :
      (event : EventBridgeEvent)
      → Makes (ec2_state_change_to_interruption_event std server n event message)
  unfolding ec2_state_change_to_interruption_event
  state_change-Makes event =
      >>=-Runs (lift (std.state_change_of event.detail)) _ (lift-Runs _) λ detail _.
        if-Runs (not (str_contains instance_states_to_drain (std.to_lower detail.state))) _ _
          (λ _. return-Runs none tt)
          (λ _.
            informed-Makes detail.instance_id event _
              (λ _ _ _ _. str_eq_refl message.receipt_handle))

  pub termination-Makes :
      (event : EventBridgeEvent)
      → Makes (asg_termination_to_interruption_event std server n event message)
  unfolding asg_termination_to_interruption_event
  termination-Makes event =
      >>=-Runs (lift (decoded (λ e. e) (std.lifecycle_of event.detail))) _ (lift-Runs _) λ detail _.
        if-Runs (is_test detail) _ _ (λ _. fail-Runs _)
          (λ _.
            informed-Makes detail.ec2_instance_id event _
              (λ _ _ _ _. str_eq_refl message.receipt_handle))

  pub launch-Makes :
      (event : EventBridgeEvent)
      → Makes (create_asg_instance_launch_event std server n event message)
  unfolding create_asg_instance_launch_event
  launch-Makes event =
      >>=-Runs (lift (decoded (wrap _) (std.lifecycle_of event.detail))) _ (lift-Runs _) λ detail _.
        if-Runs (is_test detail) _ _ (λ _. fail-Runs _)
          (λ _.
            informed-Makes detail.ec2_instance_id event _
              (λ _ _ _ _. str_eq_refl message.receipt_handle))

  affected-Makes :
      (event : EventBridgeEvent) (info : NodeInfo)
      → Makes (affected std server n event message info)
  unfolding affected affected_at
  affected-Makes event info =
      >>=-Runs (now server) (affected_at std server n event message info) now-Plain λ start_time _.
        >>=-Runs (get_time std server n event) _ (get_time-Runs _)
          λ described_time _. return-Runs _ (λ _. str_eq_refl message.receipt_handle)

  entities-Runs :
      (event : EventBridgeEvent) (entities : List String)
      → Runs
          (IsTagged message)
          (Wrapped message)
          (affected_entities std server n event message entities)
  unfolding affected_entities
  entities-Runs event [] = return-Runs [] tt
  entities-Runs event (entity ∷ entities) =
      >>=-Runs (attempt (get_node_info std server n entity >>= affected std server n event message))
        (λ wrapper. affected_entities std server n event message entities >>= λ wrappers.
          return (wrapper ∷ wrappers))
        (attempt-Runs (get_node_info std server n entity >>= affected std server n event message) (
          >>=-Runs (get_node_info std server n entity) (affected std server n event message)
            (get_node_info-Runs entity) (λ info _. affected-Makes event info)))
        λ wrapper w.
          >>=-Runs (affected_entities std server n event message entities) _
            (entities-Runs event entities) λ wrappers ws. return-Runs (wrapper ∷ wrappers) (w, ws)

  scheduled_change-Runs :
      (event : EventBridgeEvent) (detail : Result ScheduledChangeEventDetail)
      → Runs
          (IsTagged message)
          (Wrapped message)
          (scheduled_change std server n event message detail)
  unfolding scheduled_change
  scheduled_change-Runs event (err e) = return-Runs _ (tt, tt)
  scheduled_change-Runs event (ok detail) =
      if-Runs (not (str_eq detail.service "EC2")) _ _ (λ _. return-Runs _ (tt, tt))
        (λ _.
          if-Runs (not (str_eq detail.event_type_category "scheduledChange")) _ _
            (λ _. return-Runs _ (tt, tt)) (λ _. entities-Runs event detail.affected_entities))

  pub scheduled-Runs :
      (event : EventBridgeEvent)
      → Runs
          (IsTagged message)
          (Wrapped message)
          (scheduled_event_to_interruption_events std server n event message)
  unfolding scheduled_event_to_interruption_events
  scheduled-Runs event = scheduled_change-Runs event (std.scheduled_change_of event.detail)
