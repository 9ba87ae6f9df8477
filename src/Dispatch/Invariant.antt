-- ===== src/Dispatch/Invariant.antt =====
-- What holds between any two steps of the goroutines.
use mathlib.Core.List.{Memᴰ}
use aws_node_termination_han.Common.{
  ℕ, ◌<◌, ◌≡◌, String, none, some, List, inl, inr, arith, ltb, Mem-cases, lookup, Bool-cases,
}
use aws_node_termination_han.Common.Int.{ℤ}
use aws_node_termination_han.Config.{Config}
use aws_node_termination_han.Event.{InterruptionEvent}
use aws_node_termination_han.Store.{
  Store, RangeOrder, store_at, add_interruption_event, clean_periodically, log_periodically,
  get_active_event,
}
use aws_node_termination_han.Store.Range.{IsRange}
use aws_node_termination_han.Store.Active.{get_active_event_sound, chores, chores-lookup}
use aws_node_termination_han.Store.Admission.{
  Inv, add_interruption_event-Inv, get_active_event-Inv, lookup-add_interruption_event,
}
use aws_node_termination_han.Dispatch.{
  System, pick, start_worker, finish, watch_for_interruption_events,
}
use aws_node_termination_han.Dispatch.Steps.{
  Step, picks, starts, arrives, cancels, ignores, annotates, marks, finishes, Reach, here, next,
  initial, annotate,
}
use aws_node_termination_han.Dispatch.Running.{
  Sound, Mem-remove, remove-Distinct, length-remove, initial-Sound, cancel-Sound, ignore-Sound,
  mark-Sound,
}

pub pick-Sound :
    (order : RangeOrder) (now : ℕ → ℤ) (s : System)
    → IsRange order
    → s.picked ≡ none
    → Sound s
    → Sound (pick order now s)
unfolding pick get_active_event log_periodically clean_periodically chores
pick-Sound order now s r e v =
    let kept = chores-lookup order s.store r v.stored.named in
    let found = λ (p : ℕ). get_active_event_sound order now s.store p r v.stored.named in
    record {
      stored = get_active_event-Inv order now s.store r v.stored;
      allocated = λ k p h. v.allocated k p ((kept k p).0 h);
      running_allocated = v.running_allocated;
      picked_allocated = λ p h. let (k, there, _, _) = found p h in v.allocated k p there;
      busy = λ p m. ground (arith, v.busy p m);
      idle = λ p h. let (_, _, _, d) = found p h in ground (arith, d.1);
      distinct = v.distinct;
      counted = ground (arith, v.counted);
      capped = ground (arith, v.capped);
    }

pub start_worker-Sound :
    (p : ℕ) (s : System) → s.picked ≡ some p → Sound s → Sound (start_worker p s)
unfolding start_worker store_at
start_worker-Sound p s e v = elim (Bool-cases (ltb s.store.workers s.store.nth_config.workers)) [
  | inl room ↦
      rw (room, start_worker)
        (record {
          stored = record {
            named = λ k q h. ground (arith, v.stored.named k q h);
            flagged = v.stored.flagged;
          };
          allocated = v.allocated;
          running_allocated = λ q m. elim (Mem-cases m) [
            | inl h ↦ ground (arith, v.picked_allocated p e)
            | inr t ↦ v.running_allocated q t
          ];
          picked_allocated = λ q h. cc;
          busy = λ q m. elim (Mem-cases m) [
            | inl h ↦ ground arith
            | inr t ↦ ground (arith, v.busy q t)
          ];
          idle = λ q h. cc;
          distinct = (λ m. cc (v.busy p m, v.idle p e), v.distinct);
          counted = ground (arith, v.counted);
          capped = ground arith;
        })
  | inr full ↦
      rw (full, start_worker)
        (record {
          stored = v.stored;
          allocated = v.allocated;
          running_allocated = v.running_allocated;
          picked_allocated = λ q h. cc;
          busy = v.busy;
          idle = λ q h. cc;
          distinct = v.distinct;
          counted = v.counted;
          capped = v.capped;
        })
]

finish-Sound : (p : ℕ) (s : System) → Memᴰ p s.running → Sound s → Sound (finish p s)
unfolding finish
finish-Sound p s m v = record {
  stored = record { named = v.stored.named; flagged = v.stored.flagged };
  allocated = v.allocated;
  running_allocated = λ q t. v.running_allocated q (Mem-remove p q s.running t);
  picked_allocated = v.picked_allocated;
  busy = λ q t. v.busy q (Mem-remove p q s.running t);
  idle = v.idle;
  distinct = remove-Distinct p s.running v.distinct;
  counted = omega (arith, length-remove p s.running m, v.counted);
  capped = omega (arith, v.capped);
}

annotate-Sound :
    (p : ℕ) (node_labels : List (String × String)) (pods : List String) (s : System)
    → Sound s
    → Sound (annotate p node_labels pods s)
unfolding annotate store_at
annotate-Sound p node_labels pods s v = record {
  stored = record {
    named = λ k q h. ground (arith, v.stored.named k q h);
    flagged = v.stored.flagged;
  };
  allocated = v.allocated;
  running_allocated = v.running_allocated;
  picked_allocated = v.picked_allocated;
  busy = λ q m. ground (arith, v.busy q m);
  idle = λ q h. ground (arith, v.idle q h);
  distinct = v.distinct;
  counted = v.counted;
  capped = v.capped;
}

allocate-Inv :
    (n : ℕ) (e : InterruptionEvent) (s : Store)
    → ((k : String) (p : ℕ) → lookup k s.interruption_event_store ≡ some p → p < n)
    → Inv s
    → Inv (record s { heap = store_at n e s.heap })
unfolding store_at
allocate-Inv n e s below v = record {
  named = λ k p h. ground (arith, below k p h, v.named k p h);
  flagged = v.flagged;
}

watch-Sound :
    (e : InterruptionEvent) (s : System) → Sound s → Sound (watch_for_interruption_events e s)
unfolding watch_for_interruption_events add_interruption_event store_at
watch-Sound e s v =
    let fresh : Store = record (s.store) { heap = store_at s.next e s.store.heap } in
    record {
      stored =
          add_interruption_event-Inv s.next fresh
            (allocate-Inv s.next e s.store v.allocated v.stored);
      allocated =
          λ k p h. ground (arith, lookup-add_interruption_event s.next fresh k, v.allocated k p);
      running_allocated = λ p m. omega (arith, v.running_allocated p m);
      picked_allocated = λ p h. omega (arith, v.picked_allocated p h);
      busy = λ p m. ground (arith, v.running_allocated p m, v.busy p m);
      idle = λ p h. ground (arith, v.picked_allocated p h, v.idle p h);
      distinct = v.distinct;
      counted = ground (arith, v.counted);
      capped = ground (arith, v.capped);
    }

-- Every step of every goroutine keeps the invariant.
pub Step-Sound : {s t : System} → Step s t → Sound s → Sound t
Step-Sound {s} (picks order now r e q) v = rw q (pick-Sound order now s r e v)
Step-Sound {s} (starts p e q) v = rw q (start_worker-Sound p s e v)
Step-Sound {s} (arrives e q) v = rw q (watch-Sound e s v)
Step-Sound {s} (cancels event_id q) v = rw q (cancel-Sound event_id s v)
Step-Sound {s} (ignores event_id q) v = rw q (ignore-Sound event_id s v)
Step-Sound {s} (annotates p node_labels pods m q) v = rw q (annotate-Sound p node_labels pods s v)
Step-Sound {s} (marks order node_name q) v = rw q (mark-Sound order node_name s v)
Step-Sound {s} (finishes p m q) v = rw q (finish-Sound p s m v)

-- Whatever the interleaving of the goroutines from startup on, no two workers process the same
-- event, each event that is being processed is marked so, and there are never more workers than
-- the configured number.
pub Reach-Sound :
    (nth_config : Config) (heap : ℕ → InterruptionEvent) {t : System}
    → Reach (initial nth_config heap) t
    → Sound t
Reach-Sound nth_config heap here = initial-Sound nth_config heap
Reach-Sound nth_config heap (next r st) = Step-Sound st (Reach-Sound nth_config heap r)
