-- ===== src/Metadata/Scheduled.antt =====
-- What the monitor of scheduled events announces: pkg/monitor/scheduledevent.
use aws_node_termination_han.Common.{
  ◌≡◌, refl, ap, ◌∙◌, String, Bool, true, false, not, ◌&&◌, Option, none, some, List, [], ◌∷◌,
  if◌then◌else◌, Bool-cases, inl, inr,
}
use aws_node_termination_han.Common.Int.{ℤ}
use aws_node_termination_han.Event.{DrainTask, InterruptionEvent, uncordon_after_reboot}
use aws_node_termination_han.Kube.{
  Result, ok, err, wrap, ScheduledEvent, Request, read_clock, read_scheduled_events, send_event,
  send_cancel, Server, and_then, rethrow, return,
}
use aws_node_termination_han.Std.{Std}
use aws_node_termination_han.Metadata.{
  is_state_canceled_or_completed, is_restart_event, scheduled_event_of, collect_events,
  check_for_scheduled_events, announce_all, scheduled_event_monitor,
}

-- What a request announces: whether it is a cancellation, the event's ID, and the task
-- that the event has to run before the drain.
abbrev pub Entry : Type 0
Entry = Bool × String × Option DrainTask

unfoldable pub announced : List Request → List Entry
announced [] = []
announced (send_event event ∷ h) = (false, event.event_id, event.pre_drain_task) ∷ announced h
announced (send_cancel event ∷ h) = (true, event.event_id, event.pre_drain_task) ∷ announced h
announced (_ ∷ h) = announced h

-- What an announcement of the service is to make known.
abbrev pub entry_of : ScheduledEvent → Entry
entry_of d =
    let over = is_state_canceled_or_completed d.state in
    (
      over,
      d.event_id,
      if is_restart_event d.code && not over then some uncordon_after_reboot else none,
    )

abbrev pub is_ok {ℓ} : {A : Type ℓ} → Result A → Bool
is_ok (ok a) = true
is_ok (err e) = false

abbrev pub readable : Std → List ScheduledEvent → Bool
readable std [] = true
readable std (d ∷ ds) = is_ok (std.event_date d.not_before) && readable std ds

-- One entry for each, the last one first.
abbrev pub entries : List ScheduledEvent → List Entry → List Entry
entries [] l = l
entries (d ∷ ds) l = entries ds (entry_of d ∷ l)

abbrev pub details_of : Result (List ScheduledEvent) → List ScheduledEvent
details_of (ok ds) = ds
details_of (err e) = []

module _ (std : Std) (server : Server) (node_name : String) where
  -- Events that say what the details say, and as many.
  data Alike : List ScheduledEvent → List InterruptionEvent → Type 0 where
    none_left : Alike [] []
    one_more :
        {d : ScheduledEvent} {ds : List ScheduledEvent} {e : InterruptionEvent}
        {es : List InterruptionEvent}
        → Path Entry
            (is_state_canceled_or_completed e.state, e.event_id, e.pre_drain_task)
            (entry_of d)
        → Alike ds es
        → Alike (d ∷ ds) (e ∷ es)

  announce_all_lem :
      {ds : List ScheduledEvent} {es : List InterruptionEvent}
      → Alike ds es
      → (h : List Request)
      → announced (announce_all std server node_name es h).1 ≡ entries ds (announced h)
  unfolding announce_all announced
  announce_all_lem none_left h = refl
  announce_all_lem (one_more {d = d} {ds = ds} {e = e} {es = es} a rest) h =
      elim (Bool-cases (is_state_canceled_or_completed e.state)) [
        | inl s ↦ rw s (
            announce_all_lem rest (send_cancel e ∷ h)
            ∙ ap (λ entry. entries ds (entry ∷ announced h)) (rw s at a))
        | inr s ↦ rw s (
            announce_all_lem rest (send_event e ∷ h)
            ∙ ap (λ entry. entries ds (entry ∷ announced h)) (rw s at a))
      ]

  abbrev Outcome : List ScheduledEvent → Result (List InterruptionEvent) → Type 0
  Outcome ds (ok es) = (readable std ds ≡ true) × Alike ds es
  Outcome ds (err e) = readable std ds ≡ false

  abbrev Collected :
      List ScheduledEvent → Result (List InterruptionEvent) × List Request → List Request → Type 0
  Collected ds r h = (announced r.1 ≡ announced h) × Outcome ds r.0

  with_first :
      (d : ScheduledEvent) (ds : List ScheduledEvent) (start time : ℤ)
      (r : Result (List InterruptionEvent) × List Request) (h : List Request)
      → is_ok (std.event_date d.not_before) ≡ true
      → Collected ds r h
      → Collected
          (d ∷ ds)
          (and_then r
            (λ rest. return (scheduled_event_of std server node_name d start time ∷ rest)))
          h
  unfolding scheduled_event_of
  with_first d ds start time (ok es, g) h e (c, (o, a)) = (c, (rw (e, o) refl, one_more refl a))
  with_first d ds start time (err x, g) h e (c, o) = (c, rw (e, o) refl)

  collect_step :
      (d : ScheduledEvent) (ds : List ScheduledEvent) (r : Result ℤ)
      → std.event_date d.not_before ≡ r
      → ((h : List Request) → Collected ds (collect_events std server node_name ds h) h)
      → (h : List Request) → Collected (d ∷ ds) (collect_events std server node_name (d ∷ ds) h) h
  unfolding collect_events announced
  collect_step d ds (ok start) e ih h = rw e (
      with_first d ds start (server.time (read_clock ∷ h))
        (collect_events std server node_name ds (read_clock ∷ h)) h (rw e refl)
        (ih (read_clock ∷ h)))
  collect_step d ds (err x) e ih h = rw e (refl, rw e refl)

  collect_lem :
      (ds : List ScheduledEvent) (h : List Request)
      → Collected ds (collect_events std server node_name ds h) h
  unfolding collect_events
  collect_lem [] h = (refl, (refl, none_left))
  collect_lem (d ∷ ds) h = collect_step d ds (std.event_date d.not_before) refl (collect_lem ds) h

  announced_lem :
      (ds : List ScheduledEvent) (r : Result (List InterruptionEvent) × List Request)
      (h : List Request)
      → Collected ds r h
      → announced (and_then r (announce_all std server node_name)).1
        ≡ (if readable std ds then entries ds (announced h) else announced h)
  announced_lem ds (ok es, g) h (c, (o, a)) = rw o (announce_all_lem a g ∙ ap (entries ds) c)
  announced_lem ds (err e, g) h (c, o) = rw o c

  answered :
      (r : Result (List ScheduledEvent)) (g h : List Request)
      → announced g ≡ announced h
      → announced
          (and_then
            (and_then
              (rethrow (wrap "Unable to parse metadata response") (r, g))
              (collect_events std server node_name))
            (announce_all std server node_name)).1
        ≡ (if readable std (details_of r)
            then entries (details_of r) (announced h)
            else announced h)
  answered (ok ds) g h e =
      announced_lem ds (collect_events std server node_name ds g) g (collect_lem ds g)
      ∙ ap (λ l. if readable std ds then entries ds l else l) e
  answered (err x) g h e = e

  -- A round of the monitor announces each scheduled event once, in the service's order: as a cancellation
  -- if its state is canceled or completed and else as an interruption, with its ID, and with the task
  -- that uncordons after a reboot if it is a restart that is still to come, and no other task before
  -- the drain. If the start of one of them is unreadable, the round announces none.
  pub scheduled_event_monitor_lem :
      (h : List Request)
      → let details = details_of (server.scheduled_events (read_scheduled_events ∷ h)) in
        announced (scheduled_event_monitor std server node_name h).1
        ≡ (if readable std details then entries details (announced h) else announced h)
  unfolding scheduled_event_monitor check_for_scheduled_events announced
  scheduled_event_monitor_lem h =
      answered (server.scheduled_events (read_scheduled_events ∷ h)) (read_scheduled_events ∷ h) h
        refl
