-- ===== src/Store/Admission.antt =====
-- Adding and cancelling events, and the invariant of the store.
use aws_node_termination_han.Common.{
  ℕ, ◌≡◌, String, true, false, not, ◌&&◌, none, some, arith, if◌then◌else◌, str_eq, str_eq_iff,
  str_eq_refl, lookup, lookup-insert, lookup-erase, is_some,
}
use aws_node_termination_han.Common.Int.{ℤ}
use aws_node_termination_han.Config.{Config}
use aws_node_termination_han.Event.{InterruptionEvent}
use aws_node_termination_han.Store.{
  Store, RangeOrder, new, is_ignored, add_interruption_event, cancel_interruption_event,
  clean_periodically, log_periodically, get_active_event, mark_all_as_processed, ignore_event,
}
use aws_node_termination_han.Store.Range.{IsRange}
use aws_node_termination_han.Store.Clean.{IsNamed, lookup-clean_periodically}
use aws_node_termination_han.Store.Marks.{mark_all_as_processed-IsNamed, ignore_event-IsNamed}

-- `AddInterruptionEvent` keeps an event that is stored under the same ID, and otherwise stores the
-- new one; no other ID is touched.
pub lookup-add_interruption_event :
    (p : ℕ) (s : Store) (k : String)
    → lookup k (add_interruption_event p s).interruption_event_store ≡ (
        if str_eq (s.heap p).event_id k && not (is_some (lookup k s.interruption_event_store))
        then some p
        else lookup k s.interruption_event_store)
unfolding add_interruption_event
lookup-add_interruption_event p s k = ground (
  arith,
  str_eq_iff (s.heap p).event_id k,
  lookup-insert (s.heap p).event_id k p s.interruption_event_store,
)

-- A cancelled event is gone, and one that comes in under its ID afterwards is stored anew.
add-cancel_interruption_event :
    (event_id : String) (p : ℕ) (s : Store)
    → (s.heap p).event_id ≡ event_id
    → (lookup event_id (cancel_interruption_event event_id s).interruption_event_store ≡ none)
      × (lookup event_id
            (add_interruption_event p
              (cancel_interruption_event event_id s)).interruption_event_store
          ≡ some p)
unfolding cancel_interruption_event
add-cancel_interruption_event event_id p s e =
    let gone = lookup-erase event_id event_id s.interruption_event_store in
    (
      ground (arith, gone, str_eq_refl event_id),
      ground (
        arith,
        gone,
        str_eq_refl event_id,
        lookup-add_interruption_event p (cancel_interruption_event event_id s) event_id,
      ),
    )

-- Every entry stands under its event's ID, and an entry that is not ignored has set the flag.
pub record Inv (s : Store) : Type 0 where
  pub named : IsNamed s
  pub flagged :
      (k : String) (p : ℕ)
      → lookup k s.interruption_event_store ≡ some p
      → is_ignored s k ≡ false
      → s.at_least_one_event ≡ true

pub new-Inv : (nth_config : Config) (heap : ℕ → InterruptionEvent) → Inv (new nth_config heap)
unfolding new lookup
new-Inv nth_config heap = record { named = λ k p h. cc; flagged = λ k p h i. cc }

pub add_interruption_event-Inv : (p : ℕ) (s : Store) → Inv s → Inv (add_interruption_event p s)
unfolding add_interruption_event
add_interruption_event-Inv p s v = record {
  named = λ k q h.
      ground
        (arith, lookup-add_interruption_event p s k, v.named k q, str_eq_iff (s.heap p).event_id k);
  flagged = λ k q h i.
      ground (
        arith,
        lookup-add_interruption_event p s k,
        v.flagged k q,
        str_eq_iff (s.heap p).event_id k,
      );
}

pub cancel_interruption_event-Inv :
    (event_id : String) (s : Store) → Inv s → Inv (cancel_interruption_event event_id s)
unfolding cancel_interruption_event
cancel_interruption_event-Inv event_id s v = record {
  named = λ k p h. ground (arith, lookup-erase event_id k s.interruption_event_store, v.named k p);
  flagged =
      λ k p h i. ground (arith, lookup-erase event_id k s.interruption_event_store, v.flagged k p);
}

pub get_active_event-Inv :
    (order : RangeOrder) (now : ℕ → ℤ) (s : Store)
    → IsRange order
    → Inv s
    → Inv (get_active_event order now s).0
unfolding get_active_event log_periodically clean_periodically
get_active_event-Inv order now s r v = record {
  named = λ k p h. ground (arith, lookup-clean_periodically order s r v.named k, v.named k p);
  flagged = λ k p h i. ground (arith, lookup-clean_periodically order s r v.named k, v.flagged k p);
}

pub mark_all_as_processed-Inv :
    (order : RangeOrder) (node_name : String) (s : Store)
    → Inv s
    → Inv (mark_all_as_processed order node_name s)
unfolding mark_all_as_processed
mark_all_as_processed-Inv order node_name s v = record {
  named = mark_all_as_processed-IsNamed order node_name s v.named;
  flagged = v.flagged;
}

pub ignore_event-Inv : (event_id : String) (s : Store) → Inv s → Inv (ignore_event event_id s)
unfolding ignore_event
ignore_event-Inv event_id s v = record {
  named = ignore_event-IsNamed event_id s v.named;
  flagged = λ k p h i. ground (arith, v.flagged k p);
}
