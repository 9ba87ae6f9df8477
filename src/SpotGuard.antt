-- ===== src/SpotGuard.antt =====
-- pkg/spotguard: scaling an on-demand fallback down once spot capacity is back. This file has the
-- events and their tracker, fallback_tracker.go. As in the store of interruption events, an event
-- has an address in a heap, which the methods share.
pub mod Tracking
pub mod Executor
pub mod ScaleDown
pub mod Search
pub mod ScaleUp
pub mod Waiting
pub mod Raising
pub mod Growing
pub mod Sparing
pub mod Safety
pub mod Draining
pub mod Health
pub mod Comprehensive
pub mod PreScale
pub mod Marker
pub mod SelfMonitor
pub mod Monitor
use aws_node_termination_han.Common.{
  ℕ, String, Bool, true, false, not, ◌&&◌, Option, none, some, List, [], ◌∷◌, if◌then◌else◌, ◌==◌,
  lookup, insert, erase, length,
}
use aws_node_termination_han.Common.Int.{ℤ, ◌-ℤ◌, ltb_ℤ}
use aws_node_termination_han.Store.{RangeOrder, erase_all}

pub record FallbackEvent : Type 0 where
  pub event_id : String
  pub timestamp : ℤ
  pub spot_asg_name : String
  pub on_demand_asg_name : String
  pub on_demand_instance_id : String
  pub on_demand_node_name : String
  pub spot_capacity_restored : Bool
  pub scale_down_initiated : Bool
  pub minimum_wait_duration : ℤ
  pub spot_healthy_since : Option ℤ

pub record FallbackTracker : Type 0 where
  pub events : List (String × ℕ)
  pub heap : ℕ → FallbackEvent

unfoldable pub add_event : ℕ → FallbackTracker → FallbackTracker
add_event p t = record t { events = insert (t.heap p).event_id p t.events }

unfoldable pub get_event : String → FallbackTracker → Option ℕ
get_event event_id t = lookup event_id t.events

-- The events that are visited and whose scale-down has not begun.
unfoldable pub collect_active : (ℕ → FallbackEvent) → List (String × ℕ) → List ℕ
collect_active heap [] = []
collect_active heap ((k, p) ∷ m) =
    if not (heap p).scale_down_initiated then p ∷ collect_active heap m else collect_active heap m

unfoldable pub get_active_events : RangeOrder → FallbackTracker → List ℕ
get_active_events order t = collect_active t.heap (order t.events)

abbrev pub put : ℕ → FallbackEvent → FallbackTracker → FallbackTracker
put p e t = record t { heap = λ q. if q == p then e else t.heap q }

abbrev update_found : Option ℕ → (FallbackEvent → FallbackEvent) → FallbackTracker → FallbackTracker
update_found none f t = t
update_found (some p) f t = put p (f (t.heap p)) t

unfoldable pub update_event :
    String → (FallbackEvent → FallbackEvent) → FallbackTracker → FallbackTracker
update_event event_id f t = update_found (lookup event_id t.events) f t

unfoldable pub remove_event : String → FallbackTracker → FallbackTracker
remove_event event_id t = record t { events = erase event_id t.events }

abbrev pub is_old : ℤ → ℤ → FallbackEvent → Bool
is_old now max_age e = e.scale_down_initiated && ltb_ℤ max_age (now -ℤ e.timestamp)

-- The keys that the loop of `CleanupOldEvents` deletes.
unfoldable pub old_keys : ℤ → ℤ → (ℕ → FallbackEvent) → List (String × ℕ) → List String
old_keys now max_age heap [] = []
old_keys now max_age heap ((k, p) ∷ m) =
    if is_old now max_age (heap p)
    then k ∷ old_keys now max_age heap m
    else old_keys now max_age heap m

unfoldable pub cleanup_old_events : RangeOrder → ℤ → ℤ → FallbackTracker → FallbackTracker
cleanup_old_events order now max_age t = record t {
  events = erase_all (old_keys now max_age t.heap (order t.events)) t.events;
}

unfoldable pub get_event_count : FallbackTracker → ℕ
get_event_count t = length t.events
