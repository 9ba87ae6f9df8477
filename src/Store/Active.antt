-- ===== src/Store/Active.antt =====
-- Which event `GetActiveEvent` hands out.
use mathlib.Core.List.{Memᴰ}
use aws_node_termination_han.Common.{
  ℕ, ◌≡◌, refl, sym, ◌∙◌, String, true, false, none, some, List, [], ◌∷◌, ◌↔◌, inl, inr, arith,
  Mem-cases, lookup, Bool-cases, ap,
}
use aws_node_termination_han.Common.Int.{
  ℤ, ◌≤ℤ◌, ◌+ℤ◌, ◌-ℤ◌, leb_ℤ, scale, int_laws, leb_ℤ_iff, -ℤ_parts, +ℤ_parts,
}
use aws_node_termination_han.Event.{InterruptionEvent, time_until}
use aws_node_termination_han.Store.{
  Store, RangeOrder, is_ignored, second, time_until_drain, should_event_drain, first_drainable,
  clean_periodically, log_periodically, get_active_event,
}
use aws_node_termination_han.Store.Range.{IsRange}
use aws_node_termination_han.Store.Clean.{IsNamed, lookup-clean_periodically}

-- The event is to be drained now: nobody ignores, processes or has processed it, and its start is
-- at most the grace period away.
abbrev pub Drains : Store → ℤ → InterruptionEvent → Type 0
Drains s now e =
    (is_ignored s e.event_id ≡ false)
    × (e.in_progress ≡ false)
    × (e.node_processed ≡ false)
    × (e.start_time ≤ℤ now +ℤ scale second s.nth_config.node_termination_grace_period)

until_iff :
    (start grace now : ℤ)
    → (leb_ℤ (start -ℤ grace -ℤ now) (ℤ.pos 0) ≡ true) ↔ (start ≤ℤ now +ℤ grace)
until_iff start grace now = (
  λ h. omega (
    int_laws,
    (leb_ℤ_iff (start -ℤ grace -ℤ now) (ℤ.pos 0)).0 h,
    -ℤ_parts start grace,
    -ℤ_parts (start -ℤ grace) now,
    +ℤ_parts now grace,
  ),
  λ h.
      (leb_ℤ_iff (start -ℤ grace -ℤ now) (ℤ.pos 0)).1
        (omega (int_laws, -ℤ_parts start grace, -ℤ_parts (start -ℤ grace) now, +ℤ_parts now grace)),
)

-- `shouldEventDrain` decides `Drains`.
pub should_event_drain_iff :
    (s : Store) (now : ℤ) (e : InterruptionEvent)
    → (should_event_drain s now e ≡ true) ↔ Drains s now e
unfolding should_event_drain time_until_drain time_until
should_event_drain_iff s now e = (
  λ h.
      ground (
        arith,
        until_iff e.start_time (scale second s.nth_config.node_termination_grace_period) now,
      ),
  λ h.
      ground (
        arith,
        until_iff e.start_time (scale second s.nth_config.node_termination_grace_period) now,
      ),
)

first_drainable-some :
    (s : Store) (now : ℕ → ℤ) (m : List (String × ℕ)) {p : ℕ}
    → first_drainable s now m ≡ some p
    → (k : String) × Memᴰ (k, p) m × (should_event_drain s (now p) (s.heap p) ≡ true)
unfolding first_drainable
first_drainable-some s now [] h = cc
first_drainable-some s now ((k, q) ∷ m) {p} h =
    elim (Bool-cases (should_event_drain s (now q) (s.heap q))) [
      | inl e ↦ let same : q ≡ p = ground arith in (k, Memᴰ.head (rw same), rw same at e)
      | inr e ↦ let (j, r, d) = first_drainable-some s now m (rw e at h) in (j, Memᴰ.tail r, d)
    ]

first_drainable-none :
    (s : Store) (now : ℕ → ℤ) (m : List (String × ℕ)) {k : String} {p : ℕ}
    → first_drainable s now m ≡ none
    → Memᴰ (k, p) m
    → should_event_drain s (now p) (s.heap p) ≡ false
unfolding first_drainable
first_drainable-none s now [] h r = elim r [ ]
first_drainable-none s now ((j, q) ∷ m) {k} {p} h r = elim (Mem-cases r) [
  | inl e ↦ ground (arith, ap (λ (x : String × ℕ). x.1) e)
  | inr later ↦ ground (arith, first_drainable-none s now m {k = k} {p = p})
]

-- The two periodic chores change counters and the map alone.
unfoldable pub chores : (order : RangeOrder) (s : Store) → Store
chores order s = log_periodically (clean_periodically order s)

pub chores_heap : (order : RangeOrder) (s : Store) → (chores order s).heap ≡ s.heap
unfolding chores log_periodically clean_periodically
chores_heap order s = ground arith

pub chores_drain :
    (order : RangeOrder) (s : Store) (now : ℤ) (e : InterruptionEvent)
    → should_event_drain (chores order s) now e ≡ should_event_drain s now e
unfolding chores log_periodically clean_periodically should_event_drain time_until_drain
chores_drain order s now e = ground arith

chores_map :
    (order : RangeOrder) (s : Store)
    → (chores order s).interruption_event_store
      ≡ (clean_periodically order s).interruption_event_store
unfolding chores log_periodically
chores_map order s = refl

-- The chores lose no event that is still to be processed, and add none.
pub chores-lookup :
    (order : RangeOrder) (s : Store)
    → IsRange order
    → IsNamed s
    → (k : String) (p : ℕ)
    → (lookup k (chores order s).interruption_event_store ≡ some p
        → lookup k s.interruption_event_store ≡ some p)
      × ((s.heap p).node_processed ≡ false
          → lookup k s.interruption_event_store ≡ some p
          → lookup k (chores order s).interruption_event_store ≡ some p)
chores-lookup order s r n k p =
    let e = lookup-clean_periodically order s r n k in
    let f = chores_map order s in (λ h. ground (arith, e, f), λ d h. ground (arith, e, f))

-- The event that `GetActiveEvent` returns is stored under some key, before the call and after it,
-- and is to be drained.
pub get_active_event_sound :
    (order : RangeOrder) (now : ℕ → ℤ) (s : Store) (p : ℕ)
    → IsRange order
    → IsNamed s
    → (get_active_event order now s).1 ≡ some p
    → (k : String) × (lookup k s.interruption_event_store ≡ some p)
      × (lookup k (get_active_event order now s).0.interruption_event_store ≡ some p)
      × Drains s (now p) (s.heap p)
unfolding get_active_event chores
get_active_event_sound order now s p r n h =
    let t = chores order s in
    let (k, m, d) = first_drainable-some t now (order t.interruption_event_store) h in
    let there = (r t.interruption_event_store k p).0 m in
    let now_p = sym (chores_drain order s (now p) (t.heap p)) ∙ d in
    (
      k,
      (chores-lookup order s r n k p).0 there,
      there,
      (should_event_drain_iff s (now p) (s.heap p)).0 (rw (chores_heap order s) at now_p),
    )

-- If `GetActiveEvent` returns no event, then no stored event is to be drained.
pub get_active_event_complete :
    (order : RangeOrder) (now : ℕ → ℤ) (s : Store) (k : String) (p : ℕ)
    → IsRange order
    → IsNamed s
    → (get_active_event order now s).1 ≡ none
    → lookup k s.interruption_event_store ≡ some p
    → ¬ Drains s (now p) (s.heap p)
unfolding get_active_event chores
get_active_event_complete order now s k p r n h e d =
    let t = chores order s in
    let there = (chores-lookup order s r n k p).1 d.2 e in
    let idle =
      first_drainable-none t now (order t.interruption_event_store) {k = k} {p = p} h
        ((r t.interruption_event_store k p).1 there) in
    cc (
      idle,
      chores_drain order s (now p) (s.heap p),
      (should_event_drain_iff s (now p) (s.heap p)).1 d,
      ap (λ (f : ℕ → InterruptionEvent). f p) (chores_heap order s),
    )
