-- ===== src/Dispatch/Steps.antt =====
-- The interleavings of the goroutines, as a step relation.
use mathlib.Core.List.{Memᴰ}
use aws_node_termination_han.Common.{ℕ, ◌≡◌, String, none, some, List}
use aws_node_termination_han.Common.Int.{ℤ}
use aws_node_termination_han.Config.{Config}
use aws_node_termination_han.Event.{InterruptionEvent}
use aws_node_termination_han.Store.{
  RangeOrder, store_at, new, cancel_interruption_event, mark_all_as_processed, ignore_event,
}
use aws_node_termination_han.Store.Range.{IsRange}
use aws_node_termination_han.Dispatch.{
  System, pick, start_worker, finish, watch_for_interruption_events,
}

-- At startup: an empty store, and nothing allocated.
unfoldable pub initial : Config → (ℕ → InterruptionEvent) → System
initial nth_config heap = record {
  store = new nth_config heap;
  next = 0;
  picked = none;
  running = List.[];
}

-- `drainEvent.NodeLabels = nodeLabels` and `drainEvent.Pods = podNameList`, by a worker.
unfoldable pub annotate : ℕ → List (String × String) → List String → System → System
annotate p node_labels pods s = record s {
  store = record (s.store) {
    heap =
        store_at p (record (s.store.heap p) { node_labels = node_labels; pods = pods })
          s.store.heap;
  };
}

pub data Step (s t : System) : Type 0 where
  picks :
      (order : RangeOrder) (now : ℕ → ℤ)
      → IsRange order
      → s.picked ≡ none
      → t ≡ pick order now s
      → Step s t
  starts : (p : ℕ) → s.picked ≡ some p → t ≡ start_worker p s → Step s t
  arrives : (e : InterruptionEvent) → t ≡ watch_for_interruption_events e s → Step s t
  -- by `watchForCancellationEvents`, or by a worker whose drain failed
  cancels :
      (event_id : String)
      → t ≡ record s { store = cancel_interruption_event event_id s.store }
      → Step s t
  ignores : (event_id : String) → t ≡ record s { store = ignore_event event_id s.store } → Step s t
  annotates :
      (p : ℕ) (node_labels : List (String × String)) (pods : List String)
      → Memᴰ p s.running
      → t ≡ annotate p node_labels pods s
      → Step s t
  marks :
      (order : RangeOrder) (node_name : String)
      → t ≡ record s { store = mark_all_as_processed order node_name s.store }
      → Step s t
  finishes : (p : ℕ) → Memᴰ p s.running → t ≡ finish p s → Step s t

pub data Reach (s : System) : System → Type 0 where
  here : Reach s s
  next : {t u : System} → Reach s t → Step t u → Reach s u
