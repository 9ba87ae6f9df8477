-- ===== src/Store.antt =====
-- pkg/interruptioneventstore/interruption-event-store.go. The map holds pointers to events, which
-- the main loop and the handlers write through, so the store comes with the heap of events. Each
-- function is the body under the store's lock; `now p` is the clock when event `p` is examined,
-- and `order` the order in which a `range` statement visits the map.
pub mod Range
pub mod Clean
pub mod Active
pub mod Marks
pub mod Admission
pub mod Uncordon
pub mod Refinement
use aws_node_termination_han.Common.{
  ℕ, ◌+◌, String, Bool, true, false, not, ◌&&◌, Option, none, some, List, [], ◌∷◌, ltb, ◌==◌,
  if◌then◌else◌, str_eq, any, lookup, insert, erase, is_some,
}
use aws_node_termination_han.Common.Int.{ℤ, ◌-ℤ◌, leb_ℤ, scale}
use aws_node_termination_han.Config.{Config}
use aws_node_termination_han.Event.{InterruptionEvent, time_until}

pub record Store : Type 0 where
  pub nth_config : Config
  pub interruption_event_store : List (String × ℕ)
  pub ignored_events : List String
  pub at_least_one_event : Bool
  pub workers : ℕ  -- the tokens in the channel; its capacity is nth_config.workers
  pub calls_since_last_clean : ℕ
  pub calls_since_last_log : ℕ
  pub cleaning_period : ℕ
  pub logging_period : ℕ
  pub heap : ℕ → InterruptionEvent  -- what the pointers point to

-- The order in which `range` visits a map.
abbrev pub RangeOrder : Type 0
RangeOrder = List (String × ℕ) → List (String × ℕ)

-- A write through a pointer.
unfoldable pub store_at : ℕ → InterruptionEvent → (ℕ → InterruptionEvent) → ℕ → InterruptionEvent
store_at p e heap q = if q == p then e else heap q

unfoldable pub new : Config → (ℕ → InterruptionEvent) → Store
new nth_config heap = record {
  nth_config = nth_config;
  interruption_event_store = [];
  ignored_events = [];
  at_least_one_event = false;
  workers = 0;
  calls_since_last_clean = 0;
  calls_since_last_log = 0;
  cleaning_period = 7200;
  logging_period = if str_eq nth_config.log_level "debug" then 60 else 1800;
  heap = heap;
}

unfoldable pub cancel_interruption_event : String → Store → Store
cancel_interruption_event event_id s = record s {
  interruption_event_store = erase event_id s.interruption_event_store;
}

abbrev pub is_ignored : Store → String → Bool
is_ignored s event_id = any (λ i. str_eq i event_id) s.ignored_events

unfoldable pub add_interruption_event : ℕ → Store → Store
add_interruption_event p s =
    let event_id = (s.heap p).event_id in
    if is_some (lookup event_id s.interruption_event_store) then s else record s {
      interruption_event_store = insert event_id p s.interruption_event_store;
      at_least_one_event = if is_ignored s event_id then s.at_least_one_event else true;
    }

-- `time.Second` in nanoseconds
abbrev pub second : ℕ
second = 1_000_000_000

unfoldable pub time_until_drain : Store → ℤ → InterruptionEvent → ℤ
time_until_drain s now e =
    let node_termination_grace_period = scale second s.nth_config.node_termination_grace_period in
    let drain_time = e.start_time -ℤ node_termination_grace_period in time_until now drain_time

unfoldable pub should_event_drain : Store → ℤ → InterruptionEvent → Bool
should_event_drain s now e =
    not (is_ignored s e.event_id)
    && (not e.in_progress && (not e.node_processed && leb_ℤ (time_until_drain s now e) (ℤ.pos 0)))

-- `for _, e := range store { if shouldEventDrain(e) { return e } }`
unfoldable pub first_drainable : Store → (ℕ → ℤ) → List (String × ℕ) → Option ℕ
first_drainable s now [] = none
first_drainable s now ((k, p) ∷ m) =
    if should_event_drain s (now p) (s.heap p) then some p else first_drainable s now m

-- The keys of the entries that are to go: `toDelete`.
unfoldable pub to_delete : (ℕ → InterruptionEvent) → List (String × ℕ) → List String
to_delete heap [] = []
to_delete heap ((k, p) ∷ m) =
    if (heap p).node_processed then (heap p).event_id ∷ to_delete heap m else to_delete heap m

unfoldable pub erase_all : List String → List (String × ℕ) → List (String × ℕ)
erase_all [] m = m
erase_all (k ∷ ks) m = erase_all ks (erase k m)

unfoldable pub clean_periodically : RangeOrder → Store → Store
clean_periodically order s =
    let calls = s.calls_since_last_clean + 1 in
    if ltb calls s.cleaning_period then record s { calls_since_last_clean = calls } else record s {
      interruption_event_store =
          erase_all (to_delete s.heap (order s.interruption_event_store))
            s.interruption_event_store;
      calls_since_last_clean = 0;
    }

-- The statistics themselves are only logged.
unfoldable pub log_periodically : Store → Store
log_periodically s =
    let calls = s.calls_since_last_log + 1 in
    record s { calls_since_last_log = if ltb calls s.logging_period then calls else 0 }

unfoldable pub get_active_event : RangeOrder → (ℕ → ℤ) → Store → Store × Option ℕ
get_active_event order now s =
    let t = log_periodically (clean_periodically order s) in
    (t, first_drainable t now (order t.interruption_event_store))

unfoldable pub should_drain_node : RangeOrder → (ℕ → ℤ) → Store → Bool
should_drain_node order now s = is_some (first_drainable s now (order s.interruption_event_store))

-- The loop body of `MarkAllAsProcessed`, for each entry in turn.
unfoldable pub mark_processed :
    String → List (String × ℕ) → (ℕ → InterruptionEvent) → ℕ → InterruptionEvent
mark_processed node_name [] heap = heap
mark_processed node_name ((k, p) ∷ m) heap = mark_processed node_name m (
    if str_eq (heap p).node_name node_name
    then store_at p (record (heap p) { node_processed = true }) heap
    else heap)

unfoldable pub mark_all_as_processed : RangeOrder → String → Store → Store
mark_all_as_processed order node_name s = record s {
  heap = mark_processed node_name (order s.interruption_event_store) s.heap;
}

unfoldable pub ignore_event : String → Store → Store
ignore_event event_id s =
    if str_eq event_id "" then s else record s { ignored_events = event_id ∷ s.ignored_events }

abbrev pub is_empty : List (String × ℕ) → Bool
is_empty [] = true
is_empty (x ∷ m) = false

-- An event of the node that is not ignored.
abbrev pub holds_node : Store → String → String × ℕ → Bool
holds_node s node_name (k, p) =
    not (is_ignored s (s.heap p).event_id) && str_eq (s.heap p).node_name node_name

unfoldable pub should_uncordon_node : RangeOrder → String → Store → Bool
should_uncordon_node order node_name s =
    if not s.at_least_one_event
    then false
    else if is_empty s.interruption_event_store
    then true
    else not (any (holds_node s node_name) (order s.interruption_event_store))
