-- ===== src/Node/Taints/RoundTrip.antt =====
-- Adding a taint and dropping it again.
use aws_node_termination_han.Common.{
  ℕ, suc, ◌≡◌, refl, ap, String, true, false, not, none, some, List, [], ◌∷◌, ◌++◌, arith, ◌==◌,
  str_eq, str_eq_refl, select, length, Bool-cases, inl, inr,
}
use aws_node_termination_han.Kube.{TaintEffect, Taint, KubeNode}
use aws_node_termination_han.Node.Taints.{has_taint, add_taint_to_spec, drop_taint_from_spec}

abbrev others : String → List Taint → List Taint
others taint_key = select (λ taint. not (str_eq taint.key taint_key))

others-add :
    (t : Taint) (ts : List Taint) → has_taint t.key ts ≡ false → others t.key (ts ++ t ∷ []) ≡ ts
others-add t [] absent = rw (str_eq_refl t.key) refl
others-add t (u ∷ ts) absent = elim (Bool-cases (str_eq u.key t.key)) [
  | inl e ↦ ground (arith, absent, e)
  | inr e ↦ rw e (ap (λ us. u ∷ us) (others-add t ts (ground (arith, absent, e))))
]

length-add : (t : Taint) (ts : List Taint) → length (ts ++ t ∷ []) ≡ suc (length ts)
length-add t [] = refl
length-add t (u ∷ ts) = ground (arith, length-add t ts)

others-absent :
    (taint_key : String) (ts : List Taint)
    → has_taint taint_key ts ≡ false
    → others taint_key ts ≡ ts
others-absent taint_key [] absent = refl
others-absent taint_key (u ∷ ts) absent = elim (Bool-cases (str_eq u.key taint_key)) [
  | inl e ↦ ground (arith, absent, e)
  | inr e ↦ rw e (ap (λ us. u ∷ us) (others-absent taint_key ts (ground (arith, absent, e))))
]

longer : (m : ℕ) → (m == suc m) ≡ false
longer m = ground arith

even : (m : ℕ) → (m == m) ≡ true
even m = ground arith

-- Adding a taint under a key that the node does not have and then removing the key gives back the
-- node as it was, and the removal is an edit, not a skip; removing a key that is not there skips.
pub drop-add_taint_to_spec :
    (taint_key taint_value : String) (effect : TaintEffect) (node : KubeNode)
    → has_taint taint_key node.taints ≡ false
    → (edited : KubeNode) × (add_taint_to_spec taint_key taint_value effect node ≡ some edited)
      × (drop_taint_from_spec taint_key edited ≡ some node)
      × (drop_taint_from_spec taint_key node ≡ none)
unfolding add_taint_to_spec drop_taint_from_spec
drop-add_taint_to_spec taint_key taint_value effect node absent =
    let taint : Taint = record { key = taint_key; value = taint_value; effect = effect } in
    (
      record node { taints = node.taints ++ taint ∷ [] },
      rw absent refl,
      simp (
        others-add taint node.taints absent,
        length-add taint node.taints,
        longer (length node.taints),
        drop_taint_from_spec,
      ),
      simp (
        others-absent taint_key node.taints absent,
        even (length node.taints),
        drop_taint_from_spec,
      ),
    )
