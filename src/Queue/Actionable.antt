-- ===== src/Queue/Actionable.antt =====
-- What a round sends and deletes for the events of a message: sqs-monitor.go,
-- `processInterruptionEvents`.
use aws_node_termination_han.Common.{
  ℕ, suc, ◌+◌, ◌==◌, ◌≡◌, refl, ap, sym, ◌∙◌, arith, Bool, true, false, not, ◌&&◌, ◌||◌, none, some,
  List, [], ◌∷◌, if◌then◌else◌, str_eq, length, select, Bool-cases, inl, inr,
}
use aws_node_termination_han.Config.{Config}
use aws_node_termination_han.Event.{InterruptionEvent}
use aws_node_termination_han.Kube.{
  Result, ok, err, Message, Request, and_then, delete_message, send_event, Server,
}
use aws_node_termination_han.Handler.{failed as is_failure}
use aws_node_termination_han.Std.{Std}
use aws_node_termination_han.Queue.{is_skip, sqs_monitor_kind}
use aws_node_termination_han.Queue.Sources.{Wrapper}
use aws_node_termination_han.Queue.Monitor.{
  Route, Counts, account, dropped, failed, sent, route, send_events, delete_dropped, count_deletion,
  report, process_interruption_events,
}

-- An event of this monitor, of a node that may be drained.
abbrev pub is_actionable : Config → InterruptionEvent → Bool
is_actionable n event =
    (not n.check_tag_before_draining || event.is_managed) && str_eq event.monitor sqs_monitor_kind

abbrev pub actionable : Config → List Wrapper → List InterruptionEvent
actionable n [] = []
actionable n (err e ∷ wrappers) = actionable n wrappers
actionable n (ok none ∷ wrappers) = actionable n wrappers
actionable n (ok (some event) ∷ wrappers) =
    if is_actionable n event then event ∷ actionable n wrappers else actionable n wrappers

-- An error that a later delivery of the message may be without.
abbrev pub is_retried : Wrapper → Bool
is_retried (ok event) = false
is_retried (err e) = not (is_skip e)

abbrev pub sends : List InterruptionEvent → List Request → List Request
sends [] h = h
sends (event ∷ events) h = sends events (send_event event ∷ h)

abbrev pub failures : List Wrapper → ℕ
failures wrappers = length (select is_retried wrappers)

abbrev pub sendings : Config → List Wrapper → ℕ
sendings n wrappers = length (actionable n wrappers)

-- Nothing was sent and nothing may be retried.
abbrev pub is_done : Config → List Wrapper → Bool
is_done n wrappers = sendings n wrappers + failures wrappers == 0

abbrev pub after_events : Config → List Wrapper → Message → List Request → List Request
after_events n wrappers message h =
    if is_done n wrappers
    then delete_message message.receipt_handle ∷ sends (actionable n wrappers) h
    else sends (actionable n wrappers) h

plus_zero : (k : ℕ) → k + 0 ≡ k
plus_zero k = omega arith

suc_plus :
    (f k drops : ℕ) (h : List Request)
    → Path (Result Counts × List Request) (ok (drops, suc f + k), h) (ok (drops, f + suc k), h)
suc_plus f k drops h = rw (moved f k) refl
  where
    moved : (f k : ℕ) → suc f + k ≡ f + suc k
    moved f k = omega arith

chosen :
    (check managed own : Bool) (r : Route)
    → (if check && not managed then dropped else (if own then r else dropped))
      ≡ (if (not check || managed) && own then r else dropped)
chosen true true own r = refl
chosen true false own r = refl
chosen false managed own r = refl

-- All events were dropped if none was sent and none failed.
all_dropped :
    (drops sendings failures total : ℕ)
    → drops + sendings + failures ≡ total
    → (drops == total) ≡ (sendings + failures == 0)
all_dropped drops sendings failures total e = ground (arith, e)

zero_plus : (k : ℕ) → 0 + k ≡ k
zero_plus k = omega arith

suc_nonzero : (k : ℕ) → not (suc k == 0) ≡ true
suc_nonzero k = ground arith

or_false : (b : Bool) → b || false ≡ b
or_false true = refl
or_false false = refl

or_true : (b : Bool) → b || true ≡ true
or_true true = refl
or_true false = refl

module _ (std : Std) (server : Server) (n : Config) where
  -- The counts at the end of the loop, from those at its start.
  abbrev Counted : List Wrapper → ℕ → ℕ → List Request → Type 0
  Counted wrappers d f h =
      (drops : ℕ) × (send_events std server n wrappers (d, f) h
        ≡ (ok (drops, f + failures wrappers), sends (actionable n wrappers) h))
      × (drops + sendings n wrappers + failures wrappers ≡ d + length wrappers)

  route_cases :
      (event : InterruptionEvent)
      → route n (ok (some event)) ≡ (if is_actionable n event then sent event else dropped)
  unfolding route
  route_cases event =
      chosen n.check_tag_before_draining event.is_managed (str_eq event.monitor sqs_monitor_kind)
        (sent event)

  route_sent :
      (event : InterruptionEvent)
      → is_actionable n event ≡ true
      → route n (ok (some event)) ≡ sent event
  route_sent event s = rw (route_cases event, s) refl

  route_dropped :
      (event : InterruptionEvent)
      → is_actionable n event ≡ false
      → route n (ok (some event)) ≡ dropped
  route_dropped event s = rw (route_cases event, s) refl

  -- One event, by what the loop does with it.
  step :
      (wrapper : Wrapper) (wrappers : List Wrapper) (counts : Counts) (h : List Request) (r : Route)
      → route n wrapper ≡ r
      → send_events std server n (wrapper ∷ wrappers) counts h
        ≡ and_then (account r counts h) (send_events std server n wrappers)
  unfolding send_events
  step wrapper wrappers counts h r e =
      ap (λ r. and_then (account r counts h) (send_events std server n wrappers)) e

  drop_lem :
      (wrapper : Wrapper) (wrappers : List Wrapper) (d f : ℕ) (h : List Request)
      → route n wrapper ≡ dropped
      → actionable n (wrapper ∷ wrappers) ≡ actionable n wrappers
      → is_retried wrapper ≡ false
      → Counted wrappers (suc d) f h
      → Counted (wrapper ∷ wrappers) d f h
  drop_lem wrapper wrappers d f h e a r (drops, run, total) = (
    drops,
    rw (step wrapper wrappers (d, f) h dropped e, a, r) run,
    rw (a, r) (omega (arith, total)),
  )

  send_events_lem : (wrappers : List Wrapper) (d f : ℕ) (h : List Request) → Counted wrappers d f h
  unfolding send_events route
  send_events_lem [] d f h = (d, rw (plus_zero f) refl, omega arith)
  send_events_lem (err e ∷ wrappers) d f h = elim (Bool-cases (is_skip e)) [
    | inl s ↦
        drop_lem (err e) wrappers d f h (rw s refl) refl (rw s refl)
          (send_events_lem wrappers (suc d) f h)
    | inr s ↦
        let (drops, run, total) = send_events_lem wrappers d (suc f) h in
        (
          drops,
          rw (step (err e) wrappers (d, f) h failed (rw s refl), s)
              (rw run (suc_plus f (failures wrappers) drops _)),
          rw s (omega (arith, total)),
        )
  ]
  send_events_lem (ok none ∷ wrappers) d f h =
      drop_lem (ok none) wrappers d f h refl refl refl (send_events_lem wrappers (suc d) f h)
  send_events_lem (ok (some event) ∷ wrappers) d f h = elim (Bool-cases (is_actionable n event)) [
    | inl s ↦
        let (drops, run, total) = send_events_lem wrappers d f (send_event event ∷ h) in
        (
          drops,
          rw (step (ok (some event)) wrappers (d, f) h (sent event) (route_sent event s), s) run,
          rw s (omega (arith, total)),
        )
    | inr s ↦
        drop_lem (ok (some event)) wrappers d f h (route_dropped event s) (rw s refl) refl
          (send_events_lem wrappers (suc d) f h)
  ]

  abbrev unanswered : List Wrapper → Message → List Request → Bool
  unanswered wrappers message h =
      is_done n wrappers && is_failure (server.done (after_events n wrappers message h))

  report_end :
      (k : ℕ) (h : List Request)
      → ((report std server n k h).1 ≡ h) × (is_failure (report std server n k h).0 ≡ not (k == 0))
  report_end k h = elim (Bool-cases (k == 0)) [
    | inl z ↦ rw z (refl, refl)
    | inr z ↦ rw z (refl, refl)
  ]

  deletion_end :
      (k : ℕ) (answer : Result (Unit {0})) (h : List Request)
      → let r = and_then (count_deletion std server n k answer h) (report std server n) in
        (r.1 ≡ h) × (is_failure r.0 ≡ not (k == 0) || is_failure answer)
  deletion_end k (ok _) h = let (a, b) = report_end k h in (a, b ∙ sym (or_false _))
  deletion_end k (err e) h =
      let (a, b) = report_end (suc k) h in (a, b ∙ suc_nonzero k ∙ sym (or_true _))

  finished :
      (wrappers : List Wrapper) (message : Message) (drops : ℕ) (h : List Request)
      → (drops == length wrappers) ≡ is_done n wrappers
      → let r =
          and_then
            (delete_dropped std server n wrappers message
              (drops, failures wrappers)
              (sends (actionable n wrappers) h))
            (report std server n) in
        (r.1 ≡ after_events n wrappers message h)
        × (is_failure r.0 ≡ not (failures wrappers == 0) || unanswered wrappers message h)
  finished wrappers message drops h e = elim (Bool-cases (is_done n wrappers)) [
    | inl d ↦ rw (e, d) (deletion_end (failures wrappers) _ _)
    | inr d ↦ rw (e, d) (let (a, b) = report_end (failures wrappers) _ in (a, b ∙ sym (or_false _)))
  ]

  process_lem :
      (wrappers : List Wrapper) (message : Message) (h : List Request)
      → let r = process_interruption_events std server n wrappers message h in
        (r.1 ≡ after_events n wrappers message h)
        × (is_failure r.0 ≡ not (failures wrappers == 0) || unanswered wrappers message h)
  unfolding process_interruption_events
  process_lem wrappers message h =
      let (drops, run, total) = send_events_lem wrappers 0 0 h in
      rw (run, zero_plus (failures wrappers))
        (finished wrappers message drops h (all_dropped drops _ _ _ (omega (arith, total))))

  -- For the events of a message, a round sends the actionable ones, in order, and nothing else; then
  -- it deletes the message exactly if it sent none and none of them failed with an error that may
  -- be retried.
  pub process_interruption_events_lem :
      (wrappers : List Wrapper) (message : Message) (h : List Request)
      → (process_interruption_events std server n wrappers message h).1
        ≡ after_events n wrappers message h
  process_interruption_events_lem wrappers message h = (process_lem wrappers message h).0

  -- The events of a message are reported as failed exactly if one of them failed with an error that
  -- may be retried, or the deletion of the message was due and failed.
  pub process_interruption_events_fails :
      (wrappers : List Wrapper) (message : Message) (h : List Request)
      → is_failure (process_interruption_events std server n wrappers message h).0
        ≡ not (failures wrappers == 0)
          || is_done n wrappers && is_failure (server.done (after_events n wrappers message h))
  process_interruption_events_fails wrappers message h = (process_lem wrappers message h).1
