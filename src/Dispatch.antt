-- ===== src/Dispatch.antt =====
-- cmd/node-termination-handler.go: the main loop, which hands active events to worker goroutines,
-- and the goroutines that feed the store. The goroutines interleave between their calls of the
-- store, so each step below is what one goroutine does between two such points.
pub mod Steps
pub mod Running
pub mod Invariant
pub mod Loop
use aws_node_termination_han.Common.{
  ℕ, zero, suc, ◌+◌, ◌-◌, Bool, true, false, String, Option, none, some, List, [], ◌∷◌, ltb, ◌==◌,
  if◌then◌else◌,
}
use aws_node_termination_han.Common.Int.{ℤ}
use aws_node_termination_han.Event.{InterruptionEvent}
use aws_node_termination_han.Store.{
  Store, RangeOrder, store_at, get_active_event, add_interruption_event,
}

pub record System : Type 0 where
  pub store : Store
  pub next : ℕ  -- the first free address of the heap
  pub picked : Option ℕ  -- the event that the main loop got from `GetActiveEvent`
  pub running : List ℕ  -- the events of the running `processInterruptionEvent` goroutines

-- `event, ok = interruptionEventStore.GetActiveEvent()`
unfoldable pub pick : RangeOrder → (ℕ → ℤ) → System → System
pick order now s =
    let (t, found) = get_active_event order now s.store in record s { store = t; picked = found }

-- The `select` on the workers' channel: a token goes in and the event gets a goroutine, or all
-- workers are busy and the event waits for another tick.
unfoldable pub start_worker : ℕ → System → System
start_worker p s =
    if ltb s.store.workers s.store.nth_config.workers
    then record s {
      store = record (s.store) {
        workers = s.store.workers + 1;
        heap = store_at p (record (s.store.heap p) { in_progress = true }) s.store.heap;
      };
      picked = none;
      running = p ∷ s.running;
    }
    else record s { picked = none }

-- The first occurrence goes.
unfoldable pub remove : ℕ → List ℕ → List ℕ
remove p [] = []
remove p (q ∷ l) = if q == p then l else q ∷ remove p l

-- The end of `processInterruptionEvent`: `<-interruptionEventStore.Workers`.
unfoldable pub finish : ℕ → System → System
finish p s = record s {
  store = record (s.store) { workers = s.store.workers - 1 };
  running = remove p s.running;
}

-- `watchForInterruptionEvents`: the received event gets an address of its own.
unfoldable pub watch_for_interruption_events : InterruptionEvent → System → System
watch_for_interruption_events e s = record s {
  store =
      add_interruption_event s.next (record (s.store) { heap = store_at s.next e s.store.heap });
  next = s.next + 1;
}

-- What the other goroutines do to the system while the loop takes its turns: in the round with `f`
-- rounds left, before it looks for an event and before it asks for a worker.
pub record Others : Type 0 where
  pub before_look : ℕ → System → System
  pub before_start : ℕ → System → System

-- `EventLoop`: `none` if the fuel runs out. In the round with `f` rounds left the clock is `now f`, and
-- the order in which the map is visited `order f`.
unfoldable pub event_loop : ℕ → (ℕ → RangeOrder) → (ℕ → ℕ → ℤ) → Others → System → Option System
event_loop zero order now others s = none
event_loop (suc f) order now others s =
    let t = pick (order f) (now f) (others.before_look f s) in
    elim t.picked [
      | none ↦ some t
      | some p ↦
          let u = others.before_start f t in
          elim (ltb u.store.workers u.store.nth_config.workers) [
            | true ↦ event_loop f order now others (start_worker p u)
            | false ↦ some (start_worker p u)
          ]
    ]
