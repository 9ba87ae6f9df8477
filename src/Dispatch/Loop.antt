-- ===== src/Dispatch/Loop.antt =====
-- The rounds of `EventLoop`, and the states in which it stops.
use aws_node_termination_han.Common.{
  ℕ, zero, suc, ◌+◌, ◌<◌, ◌≤◌, ◌≡◌, refl, sym, ◌∙◌, String, true, false, none, some, ◌⊎◌, inl, inr,
  arith, ltb, lookup, Bool-cases, Option-cases,
}
use aws_node_termination_han.Common.Int.{ℤ}
use aws_node_termination_han.Store.{
  RangeOrder, get_active_event, log_periodically, clean_periodically,
}
use aws_node_termination_han.Store.Range.{IsRange}
use aws_node_termination_han.Store.Active.{
  Drains, get_active_event_complete, should_event_drain_iff, chores, chores_heap, chores_drain,
  chores-lookup,
}
use aws_node_termination_han.Dispatch.{System, Others, pick, start_worker, event_loop}
use aws_node_termination_han.Dispatch.Running.{Sound}
use aws_node_termination_han.Dispatch.Invariant.{pick-Sound, start_worker-Sound}

-- No stored event is to be drained by the clock `now`.
abbrev pub IsQuiet : (ℕ → ℤ) → System → Type 0
IsQuiet now s =
    (k : String) (p : ℕ)
    → lookup k s.store.interruption_event_store ≡ some p
    → ¬ Drains s.store (now p) (s.store.heap p)

-- All workers are busy.
abbrev pub IsFull : System → Type 0
IsFull s = s.store.workers ≡ s.store.nth_config.workers

pick-IsQuiet :
    (order : RangeOrder) (now : ℕ → ℤ) (s : System)
    → IsRange order
    → Sound s
    → (pick order now s).picked ≡ none
    → IsQuiet now (pick order now s)
unfolding pick get_active_event chores
pick-IsQuiet order now s r v e k p h d =
    let t = chores order s.store in
    let there = (chores-lookup order s.store r v.stored.named k p).0 h in
    let drains = (should_event_drain_iff t (now p) (t.heap p)).1 d in
    get_active_event_complete order now s.store k p r v.stored.named e there (
      (should_event_drain_iff s.store (now p) (s.store.heap p)).0 (
        rw (chores_heap order s.store) at
          (sym (chores_drain order s.store (now p) (t.heap p)) ∙ drains)))

-- How a loop may end: with all workers busy, or with a look for an event, after which no event is to
-- be drained by the clock of that look.
abbrev pub Ends : (ℕ → RangeOrder) → (ℕ → ℕ → ℤ) → System → Type 0
Ends order now t =
    Sound t
    × (t.picked ≡ none)
    × (IsFull t ⊎ ((g : ℕ) × (s : System) × (t ≡ pick (order g) (now g) s) × IsQuiet (now g) t))

-- The others keep to the invariant, pick no event, leave the number of workers, and free none while the
-- loop runs.
abbrev pub IsPatient : (ℕ → System → System) → Type 0
IsPatient step =
    (f : ℕ) (s : System)
    → Sound s
    → Sound (step f s)
      × ((step f s).picked ≡ s.picked)
      × (s.store.workers ≤ (step f s).store.workers)
      × ((step f s).store.nth_config.workers ≡ s.store.nth_config.workers)

start_room :
    (p : ℕ) (s : System)
    → ltb s.store.workers s.store.nth_config.workers ≡ true
    → ((start_worker p s).store.workers ≡ s.store.workers + 1)
      × ((start_worker p s).store.nth_config.workers ≡ s.store.nth_config.workers)
      × ((start_worker p s).picked ≡ none)
unfolding start_worker
start_room p s room = ground arith

start_full :
    (p : ℕ) (s : System)
    → ltb s.store.workers s.store.nth_config.workers ≡ false
    → ((start_worker p s).store ≡ s.store) × ((start_worker p s).picked ≡ none)
unfolding start_worker
start_full p s full = ground arith

pick_tokens :
    (order : RangeOrder) (now : ℕ → ℤ) (s : System)
    → ((pick order now s).store.workers ≡ s.store.workers)
      × ((pick order now s).store.nth_config.workers ≡ s.store.nth_config.workers)
unfolding pick get_active_event log_periodically clean_periodically
pick_tokens order now s = ground arith

-- With more rounds than free workers the loop ends, also if other goroutines come in, as long as no
-- worker finishes; then all workers are busy, or the last look left no stored event that is to be
-- drained by the clock of that look.
pub event_loop-Ends :
    (fuel : ℕ) (order : ℕ → RangeOrder) (now : ℕ → ℕ → ℤ) (others : Others) (s : System)
    → ((f : ℕ) → IsRange (order f))
    → IsPatient others.before_look
    → IsPatient others.before_start
    → Sound s
    → s.picked ≡ none
    → s.store.nth_config.workers < s.store.workers + fuel
    → (t : System) × (event_loop fuel order now others s ≡ some t) × Ends order now t
unfolding event_loop
event_loop-Ends zero order now others s r bl bs v e h = absurd (omega (arith, v.capped))
event_loop-Ends (suc f) order now others s r bl bs v e h =
    let s1 = others.before_look f s in
    let (v1, e1, grown1, size1) = bl f s v in
    let t = pick (order f) (now f) s1 in
    let w = pick-Sound (order f) (now f) s1 (r f) (e1 ∙ e) v1 in
    elim (Option-cases t.picked) [
      | inl idle ↦ (
        t,
        simp (idle, event_loop),
        (w, idle, inr (f, s1, refl, pick-IsQuiet (order f) (now f) s1 (r f) v1 idle)),
      )
      | inr (p, got) ↦
          let u = others.before_start f t in
          let (w2, e2, grown2, size2) = bs f t w in
          elim (Bool-cases (ltb u.store.workers u.store.nth_config.workers)) [
            | inl room ↦
                let (more, same, waits) = start_room p u room in
                let (tokens, size) = pick_tokens (order f) (now f) s1 in
                let (z, ends, how) =
                  event_loop-Ends f order now others (start_worker p u) r bl bs
                    (start_worker-Sound p u (e2 ∙ got) w2) waits (omega arith) in
                (z, simp (got, room, event_loop) ends, how)
            | inr full ↦
                let (same, waits) = start_full p u full in
                (
                  start_worker p u,
                  simp (got, full, event_loop),
                  (
                    start_worker-Sound p u (e2 ∙ got) w2,
                    waits,
                    inl (rw same (ground (arith, w2.capped))),
                  ),
                )
          ]
    ]
