-- ===== src/SpotGuard/PreScale/Enough.antt =====
-- What `CalculatePreScaleNodes` promises about the number of nodes.
use mathlib.Core.Path.{subst}
use aws_node_termination_han.Common.{
  ◌≡◌, refl, inl, inr, arith, true, false, ◌&&◌, if◌then◌else◌, Bool-cases, sym, ap, ◌∙◌,
}
use aws_node_termination_han.Common.Int.{
  ℤ, ◌+ℤ◌, ◌-ℤ◌, ◌≤ℤ◌, ltb_ℤ, +ℤ_parts, -ℤ_parts, eq_of_parts,
}
use aws_node_termination_han.SpotGuard.PreScale.{
  MoreFloats, PreScaleCalculation, round_up, total_workload, with_required, with_buffer, with_one,
  with_expected, planned,
}

-- The nodes needed are the given ones and the additional ones.
abbrev pub IsBalanced : {F : Type 0} → ℤ → PreScaleCalculation F → Type 0
IsBalanced spot calc = calc.nodes_needed ≡ spot +ℤ calc.additional_spot_nodes

-- Two of the comparisons agree, as they do unless one number is not a number.
abbrev pub IsTotal : {F : Type 0} → MoreFloats F → F → F → Type 0
IsTotal more a b = more.at_most a b ≡ false → more.floats.greater a b ≡ true

rest_added : (a b : ℤ) → a ≡ b +ℤ (a -ℤ b)
rest_added a b = eq_of_parts a _ (omega (arith, +ℤ_parts b (a -ℤ b), -ℤ_parts a b))

zero_added : (a : ℤ) → a ≡ a +ℤ ℤ.pos 0
zero_added a = eq_of_parts a _ (omega (arith, +ℤ_parts a (ℤ.pos 0)))

module _ {F : Type 0} (more : MoreFloats F) where
  required-IsBalanced :
      (calc : PreScaleCalculation F)
      → IsBalanced calc.current_spot_nodes (with_required more calc)
        × ((with_required more calc).current_spot_nodes ≡ calc.current_spot_nodes)
        × ((with_required more calc).current_utilization ≡ calc.current_utilization)
        × ((with_required more calc).target_utilization ≡ calc.target_utilization)
  unfolding with_required
  required-IsBalanced calc = (rest_added _ calc.current_spot_nodes, refl, refl, refl)

  abbrev buffered_nodes : PreScaleCalculation F → F
  buffered_nodes calc =
      more.floats.times (more.floats.float64 calc.additional_spot_nodes)
        (more.plus (more.floats.float64 (ℤ.pos 1)) calc.safety_buffer)

  buffer-IsBalanced :
      (spot : ℤ) (calc : PreScaleCalculation F)
      → calc.current_spot_nodes ≡ spot
      → IsBalanced spot calc
      → IsBalanced spot (with_buffer more calc)
        × ((with_buffer more calc).current_spot_nodes ≡ calc.current_spot_nodes)
        × ((with_buffer more calc).current_utilization ≡ calc.current_utilization)
        × ((with_buffer more calc).target_utilization ≡ calc.target_utilization)
  unfolding with_buffer
  buffer-IsBalanced spot calc s b =
      elim (Bool-cases (
        more.floats.greater calc.safety_buffer (more.floats.float64 (ℤ.pos 0))
        && ltb_ℤ (ℤ.pos 0) calc.additional_spot_nodes)) [
          | inl e ↦ rw e (ap (λ x. x +ℤ round_up more (buffered_nodes calc)) s, refl, refl, refl)
          | inr e ↦ rw e (b, refl, refl, refl)
        ]

  one-IsBalanced :
      (spot : ℤ) (calc : PreScaleCalculation F)
      → calc.current_spot_nodes ≡ spot
      → IsBalanced spot calc
      → more.floats.greater calc.current_utilization calc.target_utilization ≡ true
      → IsBalanced spot (with_one more calc)
        × (ℤ.pos 1 ≤ℤ (with_one more calc).additional_spot_nodes)
  unfolding with_one
  one-IsBalanced spot calc s b g = elim (Bool-cases (ltb_ℤ calc.additional_spot_nodes (ℤ.pos 1))) [
    | inl e ↦ rw (e, g) (ap (λ x. x +ℤ ℤ.pos 1) s, omega arith)
    | inr e ↦ rw e (b, ground (arith, e))
  ]

  expected_lem :
      (workload : F) (calc : PreScaleCalculation F)
      → ((with_expected more workload calc).nodes_needed ≡ calc.nodes_needed)
        × ((with_expected more workload calc).additional_spot_nodes ≡ calc.additional_spot_nodes)
  unfolding with_expected
  expected_lem workload calc = elim (Bool-cases (ltb_ℤ (ℤ.pos 0) calc.nodes_needed)) [
    | inl e ↦ rw e (refl, refl)
    | inr e ↦ rw e (refl, refl)
  ]

  -- A calculation asks for the nodes that are there and the additional ones: for none more if the
  -- utilization is at most its target, and else for one at least, whatever the floating-point numbers
  -- come to, as long as a utilization that is not at most the target is greater.
  pub planned-IsBalanced :
      (calc : PreScaleCalculation F)
      → IsTotal more calc.current_utilization calc.target_utilization
      → ((planned more calc).nodes_needed
          ≡ calc.current_spot_nodes +ℤ (planned more calc).additional_spot_nodes)
        × (if more.at_most calc.current_utilization calc.target_utilization
            then (planned more calc).additional_spot_nodes ≡ ℤ.pos 0
            else ℤ.pos 1 ≤ℤ (planned more calc).additional_spot_nodes)
  unfolding planned
  planned-IsBalanced calc total =
      elim (Bool-cases (more.at_most calc.current_utilization calc.target_utilization)) [
        | inl e ↦ rw e (zero_added calc.current_spot_nodes, refl)
        | inr e ↦
            let required = with_required more calc in
            let (first, spot, current, target) = required-IsBalanced calc in
            let (second, _, current', target') =
              buffer-IsBalanced calc.current_spot_nodes required spot first in
            let buffered = with_buffer more required in
            let high : more.floats.greater buffered.current_utilization buffered.target_utilization
                ≡ true =
              ap (λ c. more.floats.greater c buffered.target_utilization) (current' ∙ current)
              ∙ ap (λ t. more.floats.greater calc.current_utilization t) (target' ∙ target)
              ∙ total e in
            let (third, one) =
              one-IsBalanced calc.current_spot_nodes buffered
                ((buffer-IsBalanced calc.current_spot_nodes required spot first).1 ∙ spot) second
                high in
            let (needed, additional) =
              expected_lem (total_workload more calc) (with_one more buffered) in
            rw e (
              needed ∙ third ∙ ap (λ a. calc.current_spot_nodes +ℤ a) (sym additional),
              subst (λ a. ℤ.pos 1 ≤ℤ a) (sym additional) one,
            )
      ]
