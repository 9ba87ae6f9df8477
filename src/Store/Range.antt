-- ===== src/Store/Range.antt =====
-- What `range` over a map promises: it visits the entries of the map and nothing else.
use mathlib.Core.List.{Memᴰ}
use aws_node_termination_han.Common.{
  ℕ, ◌≡◌, ap, String, Bool, true, false, Option, none, some, List, [], ◌∷◌, ◌↔◌, inl, inr, arith,
  ◌==◌, if◌then◌else◌, Mem-cases, str_eq, str_eq_iff, lookup, Bool-cases,
}
use aws_node_termination_han.Store.{RangeOrder}

abbrev pub IsRange : RangeOrder → Type 0
IsRange order =
    (m : List (String × ℕ)) (k : String) (p : ℕ) → Memᴰ (k, p) (order m) ↔ (lookup k m ≡ some p)

pub mem_of_lookup :
    (k : String) (p : ℕ) (m : List (String × ℕ)) → lookup k m ≡ some p → Memᴰ (k, p) m
unfolding lookup
mem_of_lookup k p [] h = cc
mem_of_lookup k p ((j, q) ∷ m) h = elim (Bool-cases (str_eq j k)) [
  | inl e ↦ Memᴰ.head (ground (arith, str_eq_iff j k))
  | inr e ↦ Memᴰ.tail (mem_of_lookup k p m (rw e at h))
]

abbrev points : Option ℕ → ℕ → Bool
points none p = false
points (some q) p = q == p

-- The entries of `m` that `all` finds under their keys.
unfoldable pub visible : List (String × ℕ) → List (String × ℕ) → List (String × ℕ)
visible all [] = []
visible all ((k, p) ∷ m) = if points (lookup k all) p then (k, p) ∷ visible all m else visible all m

-- An order as the list has it.
unfoldable pub entries : RangeOrder
entries m = visible m m

points→eq : (o : Option ℕ) (p : ℕ) → points o p ≡ true → o ≡ some p
points→eq none p h = cc
points→eq (some q) p h = ground arith

points_of_eq : (o : Option ℕ) (p : ℕ) → o ≡ some p → points o p ≡ true
points_of_eq none p h = cc
points_of_eq (some q) p h = ground arith

visible-mem :
    (all m : List (String × ℕ)) (k : String) (p : ℕ)
    → Memᴰ (k, p) (visible all m)
    → lookup k all ≡ some p
unfolding visible
visible-mem all [] k p h = elim h [ ]
visible-mem all ((j, q) ∷ m) k p h = elim (Bool-cases (points (lookup j all) q)) [
  | inl e ↦ elim (Mem-cases (rw e at h)) [
    | inl same ↦ cc (
      points→eq (lookup j all) q e,
      ap (λ (x : String × ℕ). x.0) same,
      ap (λ (x : String × ℕ). x.1) same,
    )
    | inr later ↦ visible-mem all m k p later
  ]
  | inr e ↦ visible-mem all m k p (rw e at h)
]

mem-visible :
    (all m : List (String × ℕ)) (k : String) (p : ℕ)
    → Memᴰ (k, p) m
    → lookup k all ≡ some p
    → Memᴰ (k, p) (visible all m)
unfolding visible
mem-visible all [] k p r h = elim r [ ]
mem-visible all ((j, q) ∷ m) k p r h = elim (Bool-cases (points (lookup j all) q)) [
  | inl e ↦ rw e (elim (Mem-cases r) [
    | inl same ↦ Memᴰ.head same
    | inr later ↦ Memᴰ.tail (mem-visible all m k p later h)
  ])
  | inr e ↦ rw e (elim (Mem-cases r) [
    | inl same ↦ cc (
        points_of_eq (lookup j all) q
          (cc (ap (λ (x : String × ℕ). x.0) same, ap (λ (x : String × ℕ). x.1) same)))
    | inr later ↦ mem-visible all m k p later h
  ])
]

pub entries-IsRange : IsRange entries
unfolding entries
entries-IsRange m k p = (visible-mem m m k p, λ h. mem-visible m m k p (mem_of_lookup k p m h) h)
