-- ===== src/Queue/Health.antt =====
-- scheduled-change-event.go: the events of one announcement of AWS Health.
use aws_node_termination_han.Common.{
  ◌≡◌, refl, String, not, Option, none, some, List, [], ◌∷◌, str_eq,
}
use aws_node_termination_han.Config.{Config}
use aws_node_termination_han.Event.{InterruptionEvent}
use aws_node_termination_han.Kube.{
  Result, ok, err, Message, Request, Server, return, ◌>>=◌, attempt, now,
}
use aws_node_termination_han.Kube.Runs.{
  Satisfies, Runs, >>=-Runs, attempt-Runs, return-Runs, if-Runs,
}
use aws_node_termination_han.Std.{Std, EventBridgeEvent, ScheduledChangeEventDetail}
use aws_node_termination_han.Queue.{NodeInfo, get_node_info}
use aws_node_termination_han.Queue.Sources.{
  Wrapper, get_time, affected, affected_at, affected_entities, scheduled_change,
  scheduled_event_to_interruption_events,
}
use aws_node_termination_han.Queue.Wrappers.{IsTagged, get_node_info-Runs, get_time-Runs, now-Plain}

abbrev pub HasId : String → Option InterruptionEvent → Type 0
HasId event_id none = Unit {0}
HasId event_id (some event) = event.event_id ≡ event_id

-- Every event has the ID.
abbrev pub Shared : String → List Wrapper → Type 0
Shared event_id [] = Unit {0}
Shared event_id (wrapper ∷ wrappers) = Satisfies (HasId event_id) wrapper × Shared event_id wrappers

module _ (std : Std) (server : Server) (n : Config) (event : EventBridgeEvent)
    (message : Message) where
  abbrev shared_id : String
  shared_id = std.sprintf "aws-health-scheduled-change-event-%x" (event.id ∷ [])

  affected-Runs :
      (info : NodeInfo)
      → Runs (IsTagged message) (HasId shared_id) (affected std server n event message info)
  unfolding affected affected_at
  affected-Runs info =
      >>=-Runs (now server) (affected_at std server n event message info)
        (now-Plain std server n message)
        λ start_time _.
          >>=-Runs (get_time std server n event) _ (get_time-Runs std server n message event)
            λ described_time _. return-Runs _ refl

  entities-Runs :
      (entities : List String)
      → Runs
          (IsTagged message)
          (Shared shared_id)
          (affected_entities std server n event message entities)
  unfolding affected_entities
  entities-Runs [] = return-Runs [] tt
  entities-Runs (entity ∷ entities) =
      >>=-Runs (attempt (get_node_info std server n entity >>= affected std server n event message))
        (λ wrapper. affected_entities std server n event message entities >>= λ wrappers.
          return (wrapper ∷ wrappers))
        (attempt-Runs (get_node_info std server n entity >>= affected std server n event message) (
          >>=-Runs (get_node_info std server n entity) (affected std server n event message)
            (get_node_info-Runs std server n message entity) (λ info _. affected-Runs info)))
        λ wrapper w.
          >>=-Runs (affected_entities std server n event message entities) _
            (entities-Runs entities) λ wrappers ws. return-Runs (wrapper ∷ wrappers) (w, ws)

  change-Runs :
      (detail : Result ScheduledChangeEventDetail)
      → Runs
          (IsTagged message)
          (Shared shared_id)
          (scheduled_change std server n event message detail)
  unfolding scheduled_change
  change-Runs (err e) = return-Runs _ (tt, tt)
  change-Runs (ok detail) =
      if-Runs (not (str_eq detail.service "EC2")) _ _ (λ _. return-Runs _ (tt, tt))
        (λ _.
          if-Runs (not (str_eq detail.event_type_category "scheduledChange")) _ _
            (λ _. return-Runs _ (tt, tt)) (λ _. entities-Runs detail.affected_entities))

  -- The events that an announcement of AWS Health makes all have the same ID, whichever instances
  -- they are of.
  scheduled_event_ids :
      (h : List Request)
      → Satisfies
          (Shared (std.sprintf "aws-health-scheduled-change-event-%x" (event.id ∷ [])))
          (scheduled_event_to_interruption_events std server n event message h).0
  unfolding scheduled_event_to_interruption_events
  scheduled_event_ids = (change-Runs (std.scheduled_change_of event.detail)).gives
