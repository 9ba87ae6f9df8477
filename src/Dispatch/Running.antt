-- ===== src/Dispatch/Running.antt =====
-- The invariant of the goroutines, and the steps that touch the store alone.
use mathlib.Core.List.{Memᴰ}
use aws_node_termination_han.Common.{
  ℕ, suc, ◌≤◌, ◌<◌, ◌≡◌, refl, ◌∙◌, String, true, false, some, List, [], ◌∷◌, inl, inr, arith, ◌==◌,
  length, Mem-cases, lookup, lookup-erase, Bool-cases,
}
use aws_node_termination_han.Config.{Config}
use aws_node_termination_han.Event.{InterruptionEvent}
use aws_node_termination_han.Store.{
  Store, RangeOrder, new, cancel_interruption_event, mark_all_as_processed, ignore_event,
}
use aws_node_termination_han.Store.Marks.{mark_processed_lem}
use aws_node_termination_han.Store.Admission.{
  Inv, new-Inv, cancel_interruption_event-Inv, mark_all_as_processed-Inv, ignore_event-Inv,
}
use aws_node_termination_han.Dispatch.{System, remove}
use aws_node_termination_han.Dispatch.Steps.{initial}

abbrev pub Distinct : List ℕ → Type 0
Distinct [] = Unit
Distinct (p ∷ l) = (Memᴰ p l → ⊥) × Distinct l

pub Mem-remove : (p q : ℕ) (l : List ℕ) → Memᴰ q (remove p l) → Memᴰ q l
unfolding remove
Mem-remove p q [] m = m
Mem-remove p q (x ∷ l) m = elim (Bool-cases (x == p)) [
  | inl e ↦ Memᴰ.tail (rw e at m)
  | inr e ↦ elim (Mem-cases (rw e at m)) [
    | inl h ↦ Memᴰ.head h
    | inr t ↦ Memᴰ.tail (Mem-remove p q l t)
  ]
]

pub remove-Distinct : (p : ℕ) (l : List ℕ) → Distinct l → Distinct (remove p l)
unfolding remove
remove-Distinct p [] d = d
remove-Distinct p (x ∷ l) d = elim (Bool-cases (x == p)) [
  | inl e ↦ rw e d.1
  | inr e ↦ rw e (λ m. d.0 (Mem-remove p x l m), remove-Distinct p l d.1)
]

pub length-remove : (p : ℕ) (l : List ℕ) → Memᴰ p l → length l ≡ suc (length (remove p l))
unfolding remove
length-remove p [] m = elim m [ ]
length-remove p (x ∷ l) m = elim (Mem-cases m) [
  | inl e ↦ ground arith
  | inr t ↦ ground (arith, length-remove p l t)
]

-- The tokens in the channel are the running workers, at most as many as the channel holds; each
-- works on an event of its own, which is marked as in progress.
pub record Sound (s : System) : Type 0 where
  pub stored : Inv s.store
  pub allocated :
      (k : String) (p : ℕ) → lookup k s.store.interruption_event_store ≡ some p → p < s.next
  pub running_allocated : (p : ℕ) → Memᴰ p s.running → p < s.next
  pub picked_allocated : (p : ℕ) → s.picked ≡ some p → p < s.next
  pub busy : (p : ℕ) → Memᴰ p s.running → (s.store.heap p).in_progress ≡ true
  pub idle : (p : ℕ) → s.picked ≡ some p → (s.store.heap p).in_progress ≡ false
  pub distinct : Distinct s.running
  pub counted : s.store.workers ≡ length s.running
  pub capped : s.store.workers ≤ s.store.nth_config.workers

pub initial-Sound :
    (nth_config : Config) (heap : ℕ → InterruptionEvent) → Sound (initial nth_config heap)
unfolding initial new lookup
initial-Sound nth_config heap = record {
  stored = unfold new in new-Inv nth_config heap;
  allocated = λ k p h. cc;
  running_allocated = λ p m. elim m [ ];
  picked_allocated = λ p h. cc;
  busy = λ p m. elim m [ ];
  idle = λ p h. cc;
  distinct = tt;
  counted = refl;
  capped = omega arith;
}

-- A call of the store that frees entries at most, and leaves the tokens and the flags of the
-- events alone.
module _ (s : System) (t : Store) (v : Sound s) (stored : Inv t) where
  store_call-Sound :
      ((k : String) (p : ℕ) → lookup k t.interruption_event_store ≡ some p → p < s.next)
      → ((p : ℕ) → (t.heap p).in_progress ≡ (s.store.heap p).in_progress)
      → t.workers ≡ s.store.workers
      → t.nth_config.workers ≡ s.store.nth_config.workers
      → Sound (record s { store = t })
  store_call-Sound inside flags tokens room = record {
    stored = stored;
    allocated = inside;
    running_allocated = v.running_allocated;
    picked_allocated = v.picked_allocated;
    busy = λ p m. flags p ∙ v.busy p m;
    idle = λ p h. flags p ∙ v.idle p h;
    distinct = v.distinct;
    counted = tokens ∙ v.counted;
    capped = omega (arith, v.capped);
  }

pub cancel-Sound :
    (event_id : String) (s : System)
    → Sound s
    → Sound (record s { store = cancel_interruption_event event_id s.store })
unfolding cancel_interruption_event
cancel-Sound event_id s v =
    store_call-Sound s (cancel_interruption_event event_id s.store) v
      (cancel_interruption_event-Inv event_id s.store v.stored)
      (λ k p h.
        v.allocated k p (ground (arith, lookup-erase event_id k s.store.interruption_event_store)))
      (λ p. refl) refl refl

pub ignore-Sound :
    (event_id : String) (s : System)
    → Sound s
    → Sound (record s { store = ignore_event event_id s.store })
unfolding ignore_event
ignore-Sound event_id s v =
    store_call-Sound s (ignore_event event_id s.store) v
      (ignore_event-Inv event_id s.store v.stored) (λ k p h. v.allocated k p (ground arith))
      (λ p. ground arith) (ground arith) (ground arith)

pub mark-Sound :
    (order : RangeOrder) (node_name : String) (s : System)
    → Sound s
    → Sound (record s { store = mark_all_as_processed order node_name s.store })
unfolding mark_all_as_processed
mark-Sound order node_name s v =
    store_call-Sound s (mark_all_as_processed order node_name s.store) v
      (mark_all_as_processed-Inv order node_name s.store v.stored) v.allocated
      (λ p. ground (
        arith,
        mark_processed_lem node_name (order s.store.interruption_event_store) s.store.heap p,
      ))
      refl refl
