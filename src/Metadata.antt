-- ===== src/Metadata.antt =====
-- The monitors of the instance metadata: pkg/monitor/scheduledevent, spotitn, asglifecycle and
-- rebalancerecommendation. A round of a monitor sends events into a channel; the requests to the
-- metadata service are answered by the `Server`.
pub mod Identity
pub mod Polling
pub mod Scheduled
use aws_node_termination_han.Common.{
  String, Bool, true, false, not, ◌&&◌, ◌||◌, Option, none, some, List, [], ◌∷◌, if◌then◌else◌,
  str_eq,
}
use aws_node_termination_han.Common.Int.{ℤ}
use aws_node_termination_han.Event.{
  set_spot_itn_taint, taint_asg_lifecycle, taint_rebalance, uncordon_after_reboot,
  scale_up_and_taint, InterruptionEvent, zero_event, spot_itn_kind, scheduled_event_kind,
  rebalance_recommendation_kind, asg_lifecycle_kind,
}
use aws_node_termination_han.Kube.{
  Error, Result, ok, err, wrap, ScheduledEvent, InstanceAction, read_scheduled_events,
  read_spot_itn, read_lifecycle_state, read_rebalance, send_event, send_cancel, Server, M, return,
  ◌>>=◌, ◌>>◌, on_error, ask, tell, lift, now,
}
use aws_node_termination_han.Std.{Std}

abbrev pub spot_itn_monitor_kind : String
spot_itn_monitor_kind = "SPOT_ITN_MONITOR"

abbrev pub scheduled_event_monitor_kind : String
scheduled_event_monitor_kind = "SCHEDULED_EVENT_MONITOR"

abbrev pub asg_lifecycle_monitor_kind : String
asg_lifecycle_monitor_kind = "ASG_LIFECYCLE_MONITOR"

abbrev pub rebalance_recommendation_monitor_kind : String
rebalance_recommendation_monitor_kind = "REBALANCE_RECOMMENDATION_MONITOR"

abbrev pub is_state_canceled_or_completed : String → Bool
is_state_canceled_or_completed state = str_eq state "canceled" || str_eq state "completed"

abbrev pub is_restart_event : String → Bool
is_restart_event code =
    str_eq code "instance-stop"
    || (str_eq code "instance-retirement"
        || (str_eq code "instance-reboot" || str_eq code "system-reboot"))

-- An end time that is missing or unreadable is the start time.
abbrev pub or_start : ℤ → Result ℤ → ℤ
or_start start (ok t) = t
or_start start (err e) = start

module _ (std : Std) (server : Server) (node_name : String) where
  unfoldable pub not_after_of : ℤ → ScheduledEvent → ℤ
  not_after_of not_before event =
      if str_eq event.not_after ""
      then not_before
      else or_start not_before (std.event_date event.not_after)

  unfoldable pub scheduled_event_of : ScheduledEvent → ℤ → ℤ → InterruptionEvent
  scheduled_event_of event not_before start_time = record zero_event {
    event_id = event.event_id;
    kind = scheduled_event_kind;
    monitor = scheduled_event_monitor_kind;
    description =
        std.sprintf "%s will occur between %s and %s because %s\n"
          (event.code ∷ event.not_before ∷ event.not_after ∷ event.description ∷ []);
    state = event.state;
    node_name = node_name;
    start_time = start_time;
    end_time = not_after_of not_before event;
    pre_drain_task =
        if is_restart_event event.code && not (is_state_canceled_or_completed event.state)
        then some uncordon_after_reboot
        else none;
  }

  -- The start that the service announces is only checked: the event starts now.
  unfoldable pub collect_events : List ScheduledEvent → M (List InterruptionEvent)
  collect_events [] = return []
  collect_events (event ∷ events) = do
    not_before ←
        on_error (wrap "Unable to parse scheduled event start time")
          (lift (std.event_date event.not_before))
    start_time ← now server
    rest ← collect_events events
    return (scheduled_event_of event not_before start_time ∷ rest)

  unfoldable pub check_for_scheduled_events : M (List InterruptionEvent)
  check_for_scheduled_events = do
    events ←
        on_error (wrap "Unable to parse metadata response")
          (ask read_scheduled_events server.scheduled_events)
    collect_events events

  abbrev pub announce_event : InterruptionEvent → M (Unit {0})
  announce_event event =
      if is_state_canceled_or_completed event.state
      then tell (send_cancel event)
      else tell (send_event event)

  unfoldable pub announce_all : List InterruptionEvent → M (Unit {0})
  announce_all [] = return tt
  announce_all (event ∷ events) = announce_event event >> announce_all events

  unfoldable pub scheduled_event_monitor : M (Unit {0})
  scheduled_event_monitor = check_for_scheduled_events >>= announce_all

  -- The notice has no ID: its content is hashed.
  abbrev pub spot_itn_id : InstanceAction → String
  spot_itn_id notice =
      std.sprintf "spot-itn-%x"
        (std.sha256 (std.sprintf "&{%s %s}" (notice.action ∷ notice.time ∷ [])) ∷ [])

  abbrev pub spot_itn_event : Option InstanceAction → M (Option InterruptionEvent)
  spot_itn_event none = return none
  spot_itn_event (some notice) = do
    interruption_time ←
        on_error (wrap "Could not parse time from spot interruption notice metadata json")
          (lift (std.rfc3339 notice.time))
    return (
        some (record zero_event {
          event_id = spot_itn_id notice;
          kind = spot_itn_kind;
          monitor = spot_itn_monitor_kind;
          start_time = interruption_time;
          node_name = node_name;
          description =
              std.sprintf "Spot ITN received. Instance will be interrupted at %s \n"
                (notice.time ∷ []);
          pre_drain_task = some set_spot_itn_taint;
        }))

  unfoldable pub check_for_spot_interruption_notice : M (Option InterruptionEvent)
  check_for_spot_interruption_notice = do
    notice ←
        on_error (wrap "There was a problem checking for spot ITNs")
          (ask read_spot_itn server.spot_itn)
    spot_itn_event notice

  -- An event of the monitor's own kind is sent.
  abbrev pub send_own : String → Option InterruptionEvent → M (Unit {0})
  send_own kind none = return tt
  send_own kind (some event) = if str_eq event.kind kind then tell (send_event event) else return tt

  unfoldable pub spot_itn_monitor : M (Unit {0})
  spot_itn_monitor = check_for_spot_interruption_notice >>= send_own spot_itn_kind

  -- The hash is of the state and of the time at which it was seen.
  abbrev pub asg_lifecycle_id : ℤ → String
  asg_lifecycle_id seen =
      std.sprintf "target-lifecycle-state-terminated-%x"
        (std.sha256 (std.sprintf "%s:%s" ("Terminated" ∷ std.time_text seen ∷ [])) ∷ [])

  abbrev pub asg_lifecycle_event : ℤ → InterruptionEvent
  asg_lifecycle_event seen = record zero_event {
    event_id = asg_lifecycle_id seen;
    kind = asg_lifecycle_kind;
    monitor = asg_lifecycle_monitor_kind;
    start_time = seen;
    node_name = node_name;
    description = "AST target lifecycle state received. Instance will be terminated\n";
    pre_drain_task = some taint_asg_lifecycle;
  }

  unfoldable pub check_for_asg_target_lifecycle_state_notice : M (Option InterruptionEvent)
  check_for_asg_target_lifecycle_state_notice = do
    state ←
        on_error (wrap "There was a problem checking for ASG target lifecycle state")
          (ask read_lifecycle_state server.lifecycle_state)
    if not (str_eq state "Terminated")
        then return none
        else now server >>= λ seen. return (some (asg_lifecycle_event seen))

  unfoldable pub asg_lifecycle_monitor : M (Unit {0})
  asg_lifecycle_monitor =
      check_for_asg_target_lifecycle_state_notice >>= send_own asg_lifecycle_kind

  abbrev pub rebalance_id : String → String
  rebalance_id notice_time =
      std.sprintf "rebalance-recommendation-%x"
        (std.sha256 (std.sprintf "&{%s}" (notice_time ∷ [])) ∷ [])

  -- With Spot Guard the drain task first asks for a replacement.
  abbrev pub rebalance_event : Bool → Option String → M (Option InterruptionEvent)
  rebalance_event spot_guard none = return none
  rebalance_event spot_guard (some text) = do
    notice_time ←
        on_error (wrap "Could not parse time from rebalance recommendation metadata json")
          (lift (std.rfc3339 text))
    return (
        some (record zero_event {
          event_id = rebalance_id text;
          kind = rebalance_recommendation_kind;
          monitor = rebalance_recommendation_monitor_kind;
          start_time = notice_time;
          node_name = node_name;
          description =
              std.sprintf "Rebalance recommendation received. Instance will be cordoned at %s \n"
                (text ∷ []);
          pre_drain_task = some (if spot_guard then scale_up_and_taint else taint_rebalance);
        }))

  unfoldable pub check_for_rebalance_recommendation : Bool → M (Option InterruptionEvent)
  check_for_rebalance_recommendation spot_guard = do
    notice ←
        on_error (wrap "There was a problem checking for rebalance recommendations")
          (ask read_rebalance server.rebalance)
    rebalance_event spot_guard notice

  unfoldable pub rebalance_monitor : Bool → M (Unit {0})
  rebalance_monitor spot_guard =
      check_for_rebalance_recommendation spot_guard >>= send_own rebalance_recommendation_kind
