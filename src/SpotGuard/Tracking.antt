-- ===== src/SpotGuard/Tracking.antt =====
-- What the tracker keeps and hands out.
use mathlib.Core.List.{Memᴰ}
use aws_node_termination_han.Common.{
  ℕ, ◌≡◌, refl, ap, String, true, Option, none, some, List, [], ◌∷◌, inl, inr, arith, if◌then◌else◌,
  str_eq, str_eq_iff, str_eq_refl, Mem-cases, lookup, Bool-cases, Option-cases,
}
use aws_node_termination_han.Common.Int.{ℤ}
use aws_node_termination_han.Store.{RangeOrder}
use aws_node_termination_han.Store.Range.{IsRange}
use aws_node_termination_han.Store.Clean.{mentions, lookup-erase_all}
use aws_node_termination_han.SpotGuard.{
  FallbackEvent, FallbackTracker, is_old, old_keys, cleanup_old_events,
}

-- What a clean-up leaves of an entry.
abbrev pub recent : ℤ → ℤ → (ℕ → FallbackEvent) → Option ℕ → Option ℕ
recent now max_age heap none = none
recent now max_age heap (some p) = if is_old now max_age (heap p) then none else some p

module _ (now max_age : ℤ) (heap : ℕ → FallbackEvent) where
  mentions-old_keys :
      (xs : List (String × ℕ)) (k : String)
      → mentions k (old_keys now max_age heap xs) ≡ true
      → (p : ℕ) × Memᴰ (k, p) xs × (is_old now max_age (heap p) ≡ true)
  unfolding old_keys
  mentions-old_keys [] k h = cc
  mentions-old_keys ((i, q) ∷ xs) k h = elim (Bool-cases (is_old now max_age (heap q))) [
    | inl old ↦ elim (Bool-cases (str_eq i k)) [
      | inl e ↦ let same : i ≡ k = (str_eq_iff i k).0 e in (q, Memᴰ.head (rw same), old)
      | inr e ↦
          let (p, m, d) = mentions-old_keys xs k (ground (arith, h, old, e)) in (p, Memᴰ.tail m, d)
    ]
    | inr young ↦ let (p, m, d) = mentions-old_keys xs k (rw young at h) in (p, Memᴰ.tail m, d)
  ]

  old_keys-mentions :
      (xs : List (String × ℕ)) {k : String} {p : ℕ}
      → Memᴰ (k, p) xs
      → is_old now max_age (heap p) ≡ true
      → mentions k (old_keys now max_age heap xs) ≡ true
  unfolding old_keys
  old_keys-mentions [] m h = elim m [ ]
  old_keys-mentions ((i, q) ∷ xs) {k} {p} m h = elim (Mem-cases m) [
    | inl e ↦
        ground
          (arith, ap (λ (x : String × ℕ). x.0) e, ap (λ (x : String × ℕ). x.1) e, str_eq_refl i)
    | inr later ↦ ground (arith, old_keys-mentions xs later h)
  ]

-- `CleanupOldEvents` drops an entry exactly if its event's scale-down has begun and the event is
-- older than the maximal age.
pub lookup-cleanup_old_events :
    (order : RangeOrder) (now max_age : ℤ) (t : FallbackTracker)
    → IsRange order
    → (k : String)
    → lookup k (cleanup_old_events order now max_age t).events
      ≡ recent now max_age t.heap (lookup k t.events)
unfolding cleanup_old_events
lookup-cleanup_old_events order now max_age t r k =
    let keys = old_keys now max_age t.heap (order t.events) in
    elim (Bool-cases (mentions k keys)) [
      | inl found ↦
          let (p, m, old) = mentions-old_keys now max_age t.heap (order t.events) k found in
          rw (lookup-erase_all k keys t.events, found) (rw ((r t.events k p).0 m, old) refl)
      | inr absent ↦ elim (Option-cases (lookup k t.events)) [
        | inl e ↦ ground (arith, lookup-erase_all k keys t.events)
        | inr (p, e) ↦ ground (
          arith,
          lookup-erase_all k keys t.events,
          old_keys-mentions now max_age t.heap (order t.events) {k = k} {p = p}
              ((r t.events k p).1 e),
        )
      ]
    ]
