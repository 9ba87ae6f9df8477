-- ===== src/Store/Marks.antt =====
-- Marking events as processed and ignoring them, and what is then handed out.
use aws_node_termination_han.Common.{
  ℕ, ◌≡◌, ◌≢◌, refl, String, Bool, true, ◌&&◌, some, List, [], ◌∷◌, inl, inr, arith, ◌==◌,
  if◌then◌else◌, str_eq, str_eq_iff, any, Mem-any, lookup, Bool-cases,
}
use aws_node_termination_han.Common.Int.{ℤ}
use aws_node_termination_han.Event.{InterruptionEvent}
use aws_node_termination_han.Store.{
  Store, RangeOrder, store_at, mark_processed, mark_all_as_processed, ignore_event,
  get_active_event,
}
use aws_node_termination_han.Store.Range.{IsRange}
use aws_node_termination_han.Store.Clean.{IsNamed}
use aws_node_termination_han.Store.Active.{get_active_event_sound}

abbrev pub processed : InterruptionEvent → InterruptionEvent
processed e = record e { node_processed = true }

abbrev pub points_to : ℕ → String × ℕ → Bool
points_to p (k, q) = q == p

pub mark_processed_lem :
    (node_name : String) (m : List (String × ℕ)) (heap : ℕ → InterruptionEvent) (p : ℕ)
    → mark_processed node_name m heap p ≡ (
        if any (points_to p) m && str_eq (heap p).node_name node_name
        then processed (heap p)
        else heap p)
unfolding mark_processed store_at
mark_processed_lem node_name [] heap p = refl
mark_processed_lem node_name ((k, q) ∷ m) heap p =
    elim (Bool-cases (str_eq (heap q).node_name node_name)) [
      | inl e ↦
          rw (e, mark_processed)
            (ground
              (arith, mark_processed_lem node_name m (store_at q (processed (heap q)) heap) p))
      | inr e ↦ rw (e, mark_processed) (ground (arith, mark_processed_lem node_name m heap p))
    ]

-- `MarkAllAsProcessed` sets the flag of every stored event of the node, and changes no other
-- stored event.
pub heap-mark_all_as_processed :
    (order : RangeOrder) (node_name : String) (s : Store) (k : String) (p : ℕ)
    → IsRange order
    → lookup k s.interruption_event_store ≡ some p
    → (mark_all_as_processed order node_name s).heap p
      ≡ (if str_eq (s.heap p).node_name node_name then processed (s.heap p) else s.heap p)
unfolding mark_all_as_processed
heap-mark_all_as_processed order node_name s k p r h = ground (
  arith,
  mark_processed_lem node_name (order s.interruption_event_store) s.heap p,
  Mem-any (points_to p) (order s.interruption_event_store) ((r s.interruption_event_store k p).1 h)
      (ground arith),
)

pub mark_all_as_processed-IsNamed :
    (order : RangeOrder) (node_name : String) (s : Store)
    → IsNamed s
    → IsNamed (mark_all_as_processed order node_name s)
unfolding mark_all_as_processed
mark_all_as_processed-IsNamed order node_name s n k p h =
    ground
      (arith, mark_processed_lem node_name (order s.interruption_event_store) s.heap p, n k p h)

pub ignore_event-IsNamed :
    (event_id : String) (s : Store) → IsNamed s → IsNamed (ignore_event event_id s)
unfolding ignore_event
ignore_event-IsNamed event_id s n k p h = elim (Bool-cases (str_eq event_id "")) [
  | inl e ↦ rw (e, ignore_event) (n k p (rw (e, ignore_event) at h))
  | inr e ↦ rw (e, ignore_event) (n k p (rw (e, ignore_event) at h))
]

-- After a drain, `GetActiveEvent` returns no event of the drained node.
pub get_active_event-mark_all_as_processed :
    (order : RangeOrder) (now : ℕ → ℤ) (node_name : String) (s : Store) (p : ℕ)
    → IsRange order
    → IsNamed s
    → (get_active_event order now (mark_all_as_processed order node_name s)).1 ≡ some p
    → (s.heap p).node_name ≢ node_name
unfolding mark_all_as_processed
get_active_event-mark_all_as_processed order now node_name s p r n h e =
    let t = mark_all_as_processed order node_name s in
    let (k, m, _, d) =
      get_active_event_sound order now t p r (mark_all_as_processed-IsNamed order node_name s n)
        h in
    ground (
      arith,
      heap-mark_all_as_processed order node_name s k p r m,
      str_eq_iff (s.heap p).node_name node_name,
      d.2,
    )

-- An ignored event is never returned again, whatever else is ignored.
pub get_active_event-ignore_event :
    (order : RangeOrder) (now : ℕ → ℤ) (event_id : String) (s : Store) (p : ℕ)
    → IsRange order
    → IsNamed s
    → event_id ≢ ""
    → (get_active_event order now (ignore_event event_id s)).1 ≡ some p
    → (s.heap p).event_id ≢ event_id
unfolding ignore_event
get_active_event-ignore_event order now event_id s p r n nonempty h e =
    let (k, m, _, d) =
      get_active_event_sound order now (ignore_event event_id s) p r
        (ignore_event-IsNamed event_id s n) h in
    ground (arith, str_eq_iff event_id "", str_eq_iff event_id (s.heap p).event_id, d.0)
