-- ===== src/Examples/Events.antt =====
-- The theorems on the store, the goroutines and the handlers at concrete inputs.
use aws_node_termination_han.Common.{
  ◌≡◌, ◌≢◌, refl, String, List, ◌∷◌, true, none, some, [], str_eq, lookup, insert, arith,
}
use aws_node_termination_han.Common.Int.{ℤ, scale, ◌-ℤ◌}
use aws_node_termination_han.Config.{default_config}
use aws_node_termination_han.Event.{InterruptionEvent, time_until}
use aws_node_termination_han.Kube.{ok, Result}
use aws_node_termination_han.Kube.Trace.{Extends, same, SparesNodes}
use aws_node_termination_han.Store.{
  Store, new, add_interruption_event, cancel_interruption_event, get_active_event,
  clean_periodically, log_periodically, first_drainable, should_event_drain, time_until_drain,
  is_ignored, store_at,
}
use aws_node_termination_han.Store.Range.{entries, visible, entries-IsRange}
use aws_node_termination_han.Store.Active.{
  Drains, get_active_event_sound, get_active_event_complete,
}
use aws_node_termination_han.Store.Admission.{Inv, new-Inv, add_interruption_event-Inv}
use aws_node_termination_han.Store.Refinement.{Operation, replay, replay-specified_all}
use aws_node_termination_han.Dispatch.{
  System, Others, pick, start_worker, watch_for_interruption_events, event_loop,
}
use aws_node_termination_han.Dispatch.Steps.{initial, here, next, arrives, picks, starts}
use aws_node_termination_han.Dispatch.Running.{Sound, initial-Sound}
use aws_node_termination_han.Dispatch.Invariant.{Reach-Sound}
use aws_node_termination_han.Dispatch.Loop.{Ends, event_loop-Ends}
use aws_node_termination_han.Handler.{is_allowed_kind}
use aws_node_termination_han.Handler.Drain
use aws_node_termination_han.Handler.Returning.{IsReturning}
use aws_node_termination_han.Handler.Settle.{handle_event-get_active_event}
use aws_node_termination_han.Handler.Requests.DryRun.{handle_event-dry_run}
use aws_node_termination_han.Watch.{watch_for_cancellation_events}
use aws_node_termination_han.Watch.Cancellation.{watch_for_cancellation_events-held}
use aws_node_termination_han.Examples.{
  server, first_event, heap, fresh, one_stored, both_stored, at_start,
}

one_stored-Inv : Inv one_stored
one_stored-Inv = add_interruption_event-Inv 0 fresh (new-Inv default_config heap)

both_stored-Inv : Inv both_stored
both_stored-Inv = add_interruption_event-Inv 1 one_stored one_stored-Inv

first_there : lookup "spot-itn-1" both_stored.interruption_event_store ≡ some 0
unfolding add_interruption_event new lookup insert str_eq
first_there = refl

second_there : lookup "spot-itn-2" both_stored.interruption_event_store ≡ some 1
unfolding add_interruption_event new lookup insert str_eq
second_there = refl

is_spot : is_allowed_kind (one_stored.heap 0).kind Drain.allowed_kinds ≡ true
unfolding add_interruption_event new lookup is_allowed_kind str_eq
is_spot = refl

-- The system after an event has arrived and a worker has got it.
abbrev arrived : System
arrived = watch_for_interruption_events first_event (initial default_config heap)

abbrev picked : System
picked = pick entries at_start arrived

abbrev working : System
working = start_worker 0 picked

nothing_picked : arrived.picked ≡ none
unfolding watch_for_interruption_events initial
nothing_picked = refl

first_picked : picked.picked ≡ some 0
unfolding pick get_active_event clean_periodically log_periodically first_drainable
    should_event_drain time_until_drain time_until scale ◌-ℤ◌ watch_for_interruption_events initial
    new add_interruption_event lookup insert str_eq entries visible store_at
first_picked = refl

Reach-Sound_example : Sound working
Reach-Sound_example = Reach-Sound default_config heap (
    next
      (next (next here (arrives first_event refl))
        (picks entries at_start entries-IsRange nothing_picked refl))
      (starts 0 first_picked refl))

-- No other goroutine comes in.
abbrev alone : Others
alone = record { before_look = λ f s. s; before_start = λ f s. s }

event_loop-Ends_example :
    (t : System) × (event_loop 3 (λ f. entries) (λ f. at_start) alone (initial default_config heap)
      ≡ some t)
    × Ends (λ f. entries) (λ f. at_start) t
unfolding initial new
event_loop-Ends_example =
    event_loop-Ends 3 (λ f. entries) (λ f. at_start) alone (initial default_config heap)
      (λ f. entries-IsRange) (λ f s v. (v, refl, omega arith, refl))
      (λ f s v. (v, refl, omega arith, refl)) (initial-Sound default_config heap) refl
      (ground arith)

get_active_event_sound_example :
    (k : String) × (lookup k both_stored.interruption_event_store ≡ some 0)
    × (lookup k (get_active_event entries at_start both_stored).0.interruption_event_store ≡ some 0)
    × Drains both_stored (at_start 0) (both_stored.heap 0)
unfolding get_active_event clean_periodically log_periodically first_drainable should_event_drain
    time_until_drain time_until scale ◌-ℤ◌ new add_interruption_event lookup insert str_eq entries
    visible
get_active_event_sound_example =
    get_active_event_sound entries at_start both_stored 0 entries-IsRange both_stored-Inv.named refl

-- Three minutes before the events start, with a grace period of two.
abbrev late_event : InterruptionEvent
late_event = record first_event { start_time = ℤ.pos 180_000_000_000 }

abbrev late_stored : Store
late_stored = add_interruption_event 0 (new default_config (λ p. late_event))

get_active_event_complete_example : ¬ Drains late_stored (at_start 0) (late_stored.heap 0)
unfolding get_active_event clean_periodically log_periodically first_drainable should_event_drain
    time_until_drain time_until scale ◌-ℤ◌ new add_interruption_event lookup insert str_eq entries
    visible
get_active_event_complete_example =
    get_active_event_complete entries at_start late_stored "spot-itn-1" 0 entries-IsRange
      (add_interruption_event-Inv 0 (new default_config (λ p. late_event))
        (new-Inv default_config (λ p. late_event))).named
      refl refl

ignored_nonempty : first_event.event_id ≢ ""
ignored_nonempty = λ e. cc e

-- Two events arrive, the first is cancelled, and the second is drained and ignored.
abbrev two_and_back : List Operation
two_and_back =
    Operation.arrives 0
    ∷ Operation.arrives 1
    ∷ Operation.cancels "spot-itn-1"
    ∷ Operation.drained "node-a"
    ∷ Operation.ignores "spot-itn-2"
    ∷ []

replay-specified_all_example :
    (lookup "spot-itn-2" (replay entries two_and_back fresh).interruption_event_store ≡ some 1)
    × (is_ignored (replay entries two_and_back fresh) "spot-itn-2" ≡ true)
unfolding new lookup str_eq
replay-specified_all_example = replay-specified_all entries two_and_back fresh "spot-itn-2"

server_returns : IsReturning server
server_returns = record { answers = λ h e. cc e; scales = λ h e. cc e }

handle_event-get_active_event_example :
    (r : Result (Unit {0}) × Store) × ((Drain.handle_event server default_config entries 0
        one_stored []).0
      ≡ ok r)
    × ((get_active_event entries at_start r.1).1 ≢ some 0)
handle_event-get_active_event_example =
    handle_event-get_active_event server default_config entries 0 one_stored at_start []
      server_returns entries-IsRange one_stored-Inv.named is_spot refl

handle_event-dry_run_example :
    Extends SparesNodes []
      (Drain.handle_event server
        (record default_config { dry_run = true })
        entries
        0
        one_stored
        []).1
handle_event-dry_run_example =
    handle_event-dry_run server (record default_config { dry_run = true }) entries 0 one_stored []
      (λ h. same) refl

watch_for_cancellation_events-held_example :
    watch_for_cancellation_events server default_config entries first_event both_stored []
    ≡ (ok (cancel_interruption_event first_event.event_id both_stored), [])
unfolding add_interruption_event new lookup insert str_eq
watch_for_cancellation_events-held_example =
    watch_for_cancellation_events-held server default_config entries first_event both_stored
      "spot-itn-2" 1 [] entries-IsRange refl refl refl second_there
