-- ===== src/Store/Clean.antt =====
-- Garbage collection, which runs every `cleaning_period` calls.
use mathlib.Core.List.{Memᴰ}
use aws_node_termination_han.Common.{
  ℕ, ◌+◌, ◌≡◌, refl, sym, ap, ◌∙◌, String, Bool, true, false, Option, none, some, List, [], ◌∷◌,
  inl, inr, arith, ltb, if◌then◌else◌, str_eq, str_eq_iff, str_eq_refl, any, Mem-cases, lookup,
  erase, lookup-erase, Bool-cases, Option-cases,
}
use aws_node_termination_han.Event.{InterruptionEvent}
use aws_node_termination_han.Store.{Store, RangeOrder, to_delete, erase_all, clean_periodically}
use aws_node_termination_han.Store.Range.{IsRange}

-- Every entry stands under its event's ID.
abbrev pub IsNamed : Store → Type 0
IsNamed s =
    (k : String) (p : ℕ) → lookup k s.interruption_event_store ≡ some p → (s.heap p).event_id ≡ k

abbrev pub mentions : String → List String → Bool
mentions k = any (λ j. str_eq j k)

pub lookup-erase_all :
    (k : String) (ks : List String) (m : List (String × ℕ))
    → lookup k (erase_all ks m) ≡ (if mentions k ks then none else lookup k m)
unfolding erase_all
lookup-erase_all k [] m = refl
lookup-erase_all k (j ∷ ks) m =
    ground (arith, lookup-erase_all k ks (erase j m), lookup-erase j k m)

-- A visited entry whose event is processed and has the ID `k`.
abbrev Doomed : (ℕ → InterruptionEvent) → List (String × ℕ) → String → Type 0
Doomed heap xs k =
    (j : String) × (p : ℕ) × Memᴰ (j, p) xs
    × ((heap p).node_processed ≡ true)
    × ((heap p).event_id ≡ k)

-- What `to_delete` lists, and that it lists nothing else.
mentions-to_delete :
    (heap : ℕ → InterruptionEvent) (xs : List (String × ℕ)) (k : String)
    → mentions k (to_delete heap xs) ≡ true
    → Doomed heap xs k
unfolding to_delete
mentions-to_delete heap [] k h = cc
mentions-to_delete heap ((i, q) ∷ xs) k h = elim (Bool-cases (heap q).node_processed) [
  | inl done ↦ elim (Bool-cases (str_eq (heap q).event_id k)) [
    | inl e ↦ (i, q, Memᴰ.head refl, done, (str_eq_iff (heap q).event_id k).0 e)
    | inr e ↦ later (mentions-to_delete heap xs k (ground arith))
  ]
  | inr kept ↦ later (mentions-to_delete heap xs k (rw kept at h))
]
  where
    later : Doomed heap xs k → Doomed heap ((i, q) ∷ xs) k
    later (j, p, m, done, e) = (j, p, Memᴰ.tail m, done, e)

to_delete-mentions :
    (heap : ℕ → InterruptionEvent) (xs : List (String × ℕ)) {k : String} {p : ℕ}
    → Memᴰ (k, p) xs
    → (heap p).node_processed ≡ true
    → mentions (heap p).event_id (to_delete heap xs) ≡ true
unfolding to_delete
to_delete-mentions heap [] m h = elim m [ ]
to_delete-mentions heap ((i, q) ∷ xs) {k} {p} m h = elim (Mem-cases m) [
  | inl e ↦
      let same : p ≡ q = ap (λ (x : String × ℕ). x.1) e in
      rw (same, to_delete) (rw (rw same at h) (rw (str_eq_refl (heap q).event_id)))
  | inr later ↦ ground (arith, to_delete-mentions heap xs later h)
]

-- What a collection leaves of an entry.
abbrev pub unprocessed : (ℕ → InterruptionEvent) → Option ℕ → Option ℕ
unprocessed heap none = none
unprocessed heap (some p) = if (heap p).node_processed then none else some p

collect :
    (order : RangeOrder) (s : Store)
    → IsRange order
    → IsNamed s
    → (k : String)
    → lookup k
        (erase_all (to_delete s.heap (order s.interruption_event_store)) s.interruption_event_store)
      ≡ unprocessed s.heap (lookup k s.interruption_event_store)
collect order s r n k = elim (Option-cases (lookup k s.interruption_event_store)) [
  | inl e ↦ ground (arith, lookup-erase_all k doomed s.interruption_event_store)
  | inr (p, e) ↦ elim (Bool-cases (s.heap p).node_processed) [
    | inl done ↦ ground (
      arith,
      lookup-erase_all k doomed s.interruption_event_store,
      to_delete-mentions s.heap visited {k = k} {p = p} ((r s.interruption_event_store k p).1 e)
          done,
      n k p e,
    )
    | inr kept ↦ elim (Bool-cases (mentions k doomed)) [
      | inl found ↦ clash p e kept (mentions-to_delete s.heap visited k found)
      | inr absent ↦ ground (arith, lookup-erase_all k doomed s.interruption_event_store)
    ]
  ]
]
  where
    visited : List (String × ℕ)
    visited = order s.interruption_event_store

    doomed : List String
    doomed = to_delete s.heap visited

    clash :
        (p : ℕ)
        → lookup k s.interruption_event_store ≡ some p
        → (s.heap p).node_processed ≡ false
        → Doomed s.heap visited k
        → lookup k (erase_all doomed s.interruption_event_store)
          ≡ unprocessed s.heap (lookup k s.interruption_event_store)
    clash p e kept (j, q, m, done, named) =
        let there = (r s.interruption_event_store j q).0 m in
        let same : j ≡ k = sym (n j q there) ∙ named in cc (e, rw same at there, done, kept)

-- A call of `cleanPeriodically` that reaches the period drops exactly the processed entries; any
-- other call leaves the map as it was.
pub lookup-clean_periodically :
    (order : RangeOrder) (s : Store)
    → IsRange order
    → IsNamed s
    → (k : String)
    → lookup k (clean_periodically order s).interruption_event_store ≡ (
        if ltb (s.calls_since_last_clean + 1) s.cleaning_period
        then lookup k s.interruption_event_store
        else unprocessed s.heap (lookup k s.interruption_event_store))
unfolding clean_periodically
lookup-clean_periodically order s r n k =
    elim (Bool-cases (ltb (s.calls_since_last_clean + 1) s.cleaning_period)) [
      | inl early ↦ rw (early, clean_periodically)
      | inr due ↦ rw (due, clean_periodically) (collect order s r n k)
    ]
