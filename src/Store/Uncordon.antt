-- ===== src/Store/Uncordon.antt =====
-- When a cancellation uncordons the node.
use aws_node_termination_han.Common.{
  ℕ, ◌≡◌, ◌≢◌, ◌↔◌, ◌⊎◌, String, true, false, some, List, [], ◌∷◌, inl, inr, arith, str_eq_iff, any,
  any-Mem, Mem-any, lookup, Bool-cases,
}
use aws_node_termination_han.Store.{
  Store, RangeOrder, is_ignored, is_empty, holds_node, should_uncordon_node,
}
use aws_node_termination_han.Store.Range.{IsRange}

-- No stored event that counts is for the node.
abbrev pub IsFree : Store → String → Type 0
IsFree s node_name =
    (k : String) (p : ℕ)
    → lookup k s.interruption_event_store ≡ some p
    → (is_ignored s (s.heap p).event_id ≡ true) ⊎ ((s.heap p).node_name ≢ node_name)

lookup-is_empty :
    (m : List (String × ℕ)) (k : String) (p : ℕ) → is_empty m ≡ true → lookup k m ≢ some p
unfolding lookup
lookup-is_empty [] k p h e = cc
lookup-is_empty (x ∷ m) k p h e = cc

holds_iff :
    (order : RangeOrder) (s : Store) (node_name : String)
    → IsRange order
    → (any (holds_node s node_name) (order s.interruption_event_store) ≡ false) ↔ IsFree s node_name
holds_iff order s node_name r = (
  λ h k p e. ground (
    arith,
    Mem-any (holds_node s node_name) {x = (k, p)} (order s.interruption_event_store)
        ((r s.interruption_event_store k p).1 e),
    str_eq_iff (s.heap p).node_name node_name,
  ),
  λ free. elim (Bool-cases (any (holds_node s node_name) (order s.interruption_event_store))) [
    | inl found ↦
        let ((k, p), m, holds) =
          any-Mem (holds_node s node_name) (order s.interruption_event_store) found in
        ground (
          arith,
          free k p ((r s.interruption_event_store k p).0 m),
          str_eq_iff (s.heap p).node_name node_name,
        )
    | inr none_holds ↦ none_holds
  ],
)

-- `ShouldUncordonNode` answers yes exactly if an event was stored at some time and no stored event
-- that is not ignored is for the node.
pub should_uncordon_node_iff :
    (order : RangeOrder) (node_name : String) (s : Store)
    → IsRange order
    → (should_uncordon_node order node_name s ≡ true)
      ↔ ((s.at_least_one_event ≡ true) × IsFree s node_name)
unfolding should_uncordon_node
should_uncordon_node_iff order node_name s r =
    elim (Bool-cases (is_empty s.interruption_event_store)) [
      | inl e ↦ (
        λ h. (
          ground arith,
          λ k p there. absurd (lookup-is_empty s.interruption_event_store k p e there),
        ),
        λ h. ground arith,
      )
      | inr e ↦
          let (to, from) = holds_iff order s node_name r in
          (λ h. (ground arith, to (ground arith)), λ h. ground (arith, from h.1))
    ]
