-- ===== src/SpotGuard/Health/Stability.antt =====
-- The stability that `IsSpotCapacityRestored` asks for, over the rounds in which it is called with the
-- time that the round before has given, as `shouldScaleDownEvent` does.
use mathlib.Core.Path.{subst}
use aws_node_termination_han.Common.{
  ◌≡◌, ◌⊎◌, inl, inr, refl, Bool, true, false, Option, none, some, List, [], ◌∷◌,
}
use aws_node_termination_han.Common.Int.{ℤ, ◌-ℤ◌, ◌≤ℤ◌, leb_ℤ, leb_ℤ_iff}
use aws_node_termination_han.Kube.{Result, ok, err}
use aws_node_termination_han.SpotGuard.Health.{
  Observation, is_spot_asg_healthy, are_spot_nodes_ready, after_group, kept_on_error,
  is_spot_capacity_stable, is_spot_capacity_restored,
}

-- The time that the rounds give, the last one first.
abbrev pub since_after : ℤ → List Observation → Option ℤ
since_after stability_duration [] = none
since_after stability_duration (o ∷ os) =
    (is_spot_capacity_restored stability_duration (since_after stability_duration os)
      o).healthy_since

abbrev pub IsUp : Result Bool → Result Bool → Type 0
IsUp group nodes = (group ≡ ok true) × (nodes ≡ ok true)

abbrev pub IsDown : Result Bool → Result Bool → Type 0
IsDown group nodes = (group ≡ ok false) ⊎ ((group ≡ ok true) × (nodes ≡ ok false))

-- The group has its capacity in service and its nodes are ready; or one of the two is found not so.
-- When a call fails it is neither.
abbrev pub IsHealthy : Observation → Type 0
IsHealthy o = IsUp (is_spot_asg_healthy o.groups) (are_spot_nodes_ready o.groups_again o.nodes)

abbrev pub IsUnhealthy : Observation → Type 0
IsUnhealthy o = IsDown (is_spot_asg_healthy o.groups) (are_spot_nodes_ready o.groups_again o.nodes)

-- A round at the given time was healthy, and none since was unhealthy.
pub data Lasting : ℤ → List Observation → Type 0 where
  starts : (o : Observation) (os : List Observation) → IsHealthy o → Lasting o.time (o ∷ os)
  lasts :
      (t : ℤ) (o : Observation) (os : List Observation)
      → ¬ IsUnhealthy o
      → Lasting t os
      → Lasting t (o ∷ os)

after_group-since :
    (now d t : ℤ) (since : Option ℤ) (group nodes : Result Bool)
    → (kept_on_error since (after_group now d since group nodes)).healthy_since ≡ some t
    → ((since ≡ some t) × ¬ IsDown group nodes) ⊎ ((now ≡ t) × IsUp group nodes)
after_group-since now d t since (err e) nodes h =
    inl (h, λ down. elim down [ inl g ↦ cc g | inr (g, n) ↦ cc g ])
after_group-since now d t since (ok false) nodes h = cc h
after_group-since now d t since (ok true) (err e) h =
    inl (h, λ down. elim down [ inl g ↦ cc g | inr (g, n) ↦ cc n ])
after_group-since now d t since (ok true) (ok false) h = cc h
after_group-since now d t none (ok true) (ok true) h = inr (cc h, (refl, refl))
after_group-since now d t (some s) (ok true) (ok true) h =
    inl (h, λ down. elim down [ inl g ↦ cc g | inr (g, n) ↦ cc n ])

after_group-restored :
    (now d : ℤ) (since : Option ℤ) (group nodes : Result Bool)
    → (kept_on_error since (after_group now d since group nodes)).is_restored ≡ true
    → IsUp group nodes × ((t : ℤ) × (since ≡ some t) × (leb_ℤ d (now -ℤ t) ≡ true))
after_group-restored now d since (err e) nodes h = cc h
after_group-restored now d since (ok false) nodes h = cc h
after_group-restored now d since (ok true) (err e) h = cc h
after_group-restored now d since (ok true) (ok false) h = cc h
after_group-restored now d none (ok true) (ok true) h = cc h
after_group-restored now d (some s) (ok true) (ok true) h = ((refl, refl), (s, refl, h))

since_after-Lasting : (d t : ℤ) (os : List Observation) → since_after d os ≡ some t → Lasting t os
unfolding is_spot_capacity_restored is_spot_capacity_stable
since_after-Lasting d t [] h = cc h
since_after-Lasting d t (o ∷ os) h =
    elim (after_group-since o.time d t (since_after d os) (is_spot_asg_healthy o.groups)
      (are_spot_nodes_ready o.groups_again o.nodes) h) [
        | inl (e, good) ↦ Lasting.lasts t o os good (since_after-Lasting d t os e)
        | inr (e, up) ↦ subst (λ x. Lasting x (o ∷ os)) e (Lasting.starts o os up)
      ]

-- A round finds spot capacity restored only if it is healthy, a round at least the stability duration
-- before was healthy too, and none in between was unhealthy. A round in which a call failed counts
-- as neither.
pub is_spot_capacity_restored_sound :
    (stability_duration : ℤ) (o : Observation) (os : List Observation)
    → (is_spot_capacity_restored stability_duration
        (since_after stability_duration os)
        o).is_restored
      ≡ true
    → IsHealthy o × ((t : ℤ) × Lasting t os × (stability_duration ≤ℤ (o.time -ℤ t)))
unfolding is_spot_capacity_restored is_spot_capacity_stable
is_spot_capacity_restored_sound d o os h =
    let (up, (t, e, long)) =
      after_group-restored o.time d (since_after d os) (is_spot_asg_healthy o.groups)
        (are_spot_nodes_ready o.groups_again o.nodes) h in
    (up, (t, since_after-Lasting d t os e, (leb_ℤ_iff d (o.time -ℤ t)).0 long))
