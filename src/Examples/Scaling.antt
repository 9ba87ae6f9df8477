-- ===== src/Examples/Scaling.antt =====
-- The theorems on the scale-up of Spot Guard at concrete inputs.
use mathlib.Core.List.{Memᴰ}
use aws_node_termination_han.Common.{
  some, false, str_eq, List, ◌/◌, ◌*◌, ◌==◌, ◌≡◌, ◌⊎◌, refl, arith, Bool, true, [], ◌∷◌,
  if◌then◌else◌,
}
use aws_node_termination_han.Common.Int.{pos_part, ltb_ℤ, ◌-ℤ◌, ◌≤ℤ◌, ℤ, ◌+ℤ◌}
use aws_node_termination_han.Config.{default_config}
use aws_node_termination_han.Kube.{
  ok, err, new, out_of_fuel, KubeNode, AutoScalingGroup, read_clock, Server,
}
use aws_node_termination_han.Kube.Trace.{Extends}
use aws_node_termination_han.SpotGuard.ScaleUp.{
  tick_interval, await_instance, wait_for_new_instance, scale_up_with_fallback, scale_up_asg,
  get_in_service_instance_count,
}
use aws_node_termination_han.SpotGuard.Safety.{
  Workload, ClusterNode, DisruptionBudget, ClusterView, Floats, can_safely_drain_node, check_pods,
  is_owned_by_daemon_set, can_pod_schedule_elsewhere, is_ready, pod_fits_on_node, sum_requests,
  would_violate_pdb, is_violated, has_cluster_capacity_buffer, sum_allocatable, sum_running,
}
use aws_node_termination_han.SpotGuard.Draining.{IsSafe, HasBuffer, can_safely_drain_node_sound}
use aws_node_termination_han.SpotGuard.Executor.{first_group}
use aws_node_termination_han.SpotGuard.Health.{
  GroupInstance, SpotGroup, Observation, is_spot_capacity_restored, is_spot_capacity_stable,
  is_spot_asg_healthy, are_spot_nodes_ready, count_in_service, spot_nodes, all_ready,
  extract_instance_id_from_provider_id, last_part, looks_like_instance_id,
}
use aws_node_termination_han.SpotGuard.Health.Stability.{
  IsHealthy, Lasting, is_spot_capacity_restored_sound,
}
use aws_node_termination_han.SpotGuard.Waiting.{
  ticks, ticks-append, IsTicker, wait_for_new_instance-Ends, wait_for_new_instance_endless,
}
use aws_node_termination_han.SpotGuard.Raising.{IsRaise, scale_up_with_fallback-IsRaise}
use aws_node_termination_han.SpotGuard.Growing.{More, scale_up_with_fallback_replaces}
use aws_node_termination_han.Examples.{server, group}
use aws_node_termination_han.Examples.Queue.{std}

-- A clock that only the ticks advance.
abbrev pub ticking : Server
ticking = record server { time = λ h. ℤ.pos (tick_interval * ticks h) }

pub ticking-IsTicker : IsTicker ticking []
unfolding ticks ◌+ℤ◌
ticking-IsTicker g = ground (arith, ticks-append g (read_clock ∷ []))

wait_for_new_instance-Ends_example :
    (b : Bool) × ((wait_for_new_instance std ticking default_config 4 "spot" (ℤ.pos 0) []).0 ≡ ok b)
wait_for_new_instance-Ends_example =
    wait_for_new_instance-Ends std ticking default_config "spot" [] (ℤ.pos 0) 3 ticking-IsTicker
      (λ h. (group, [], refl)) (omega arith)

abbrev failing : Server
failing = record server {
  groups = λ h. elim h [ q ∷ read_clock ∷ g ↦ ok (group ∷ []) | _ ↦ err (new "down") ];
}

wait_for_new_instance_endless_example :
    (wait_for_new_instance std failing default_config 100 "spot" (ℤ.pos 0) []).0 ≡ err out_of_fuel
wait_for_new_instance_endless_example =
    wait_for_new_instance_endless std failing default_config "spot" 100 (ℤ.pos 0) [] group [] refl
      (λ g. (new "down", refl))

-- One instance more is in service after the first tick.
abbrev grown : AutoScalingGroup
grown = record group { in_service = true ∷ group.in_service }

abbrev growing : Server
growing = record ticking { groups = λ h. ok ((if ticks h == 0 then group else grown) ∷ []) }

scale_up_with_fallback-IsRaise_example :
    Extends (IsRaise growing) [] (scale_up_with_fallback std growing default_config 2 []).1
scale_up_with_fallback-IsRaise_example =
    scale_up_with_fallback-IsRaise std growing default_config 2 []

scaled : (scale_up_with_fallback std growing default_config 2 []).0 ≡ ok tt
unfolding scale_up_with_fallback scale_up_asg wait_for_new_instance get_in_service_instance_count
    await_instance first_group ticks ◌+ℤ◌
scaled = refl

scale_up_with_fallback_replaces_example :
    More std growing default_config "" [] ⊎ More std growing default_config "" []
scale_up_with_fallback_replaces_example =
    scale_up_with_fallback_replaces std growing default_config 2 [] scaled

abbrev pub pod_a : Workload
pod_a = record {
  namespace = "default";
  name = "web";
  owner_kinds = "ReplicaSet" ∷ [];
  is_terminating = false;
  phase = "Running";
  requests = (ℤ.pos 500, ℤ.pos 1000) ∷ [];
}

abbrev pub spare : ClusterNode
spare = record {
  name = "node-b";
  unschedulable = false;
  conditions = ("Ready", "True") ∷ [];
  allocatable_cpu = ℤ.pos 2000;
  allocatable_memory = ℤ.pos 4000;
}

abbrev pub budget : DisruptionBudget
budget = record { selector = ok (λ pod. true); disruptions_allowed = ℤ.pos 1 }

abbrev pub view : ClusterView
view = record {
  node = ok (record spare { name = "node-a" });
  pods_on_node = ok (pod_a ∷ []);
  nodes_at = λ checked. ok (record spare { name = "node-a" } ∷ spare ∷ []);
  budgets_at = λ checked. ok (budget ∷ []);
  all_nodes = ok (record spare { name = "node-a" } ∷ spare ∷ []);
  all_pods = ok (pod_a ∷ []);
}

-- Whole numbers, divided without a remainder.
abbrev pub whole : Floats ℤ
whole = record {
  float64 = λ k. k;
  divided = λ a b. ℤ.pos (pos_part a / pos_part b);
  times = λ a b. ℤ.pos (pos_part a * pos_part b);
  greater = λ a b. ltb_ℤ b a;
}

pub is_safe : can_safely_drain_node whole (ℤ.pos 75) view "node-a" ≡ true
unfolding can_safely_drain_node check_pods is_owned_by_daemon_set can_pod_schedule_elsewhere
    is_ready pod_fits_on_node sum_requests would_violate_pdb is_violated has_cluster_capacity_buffer
    sum_allocatable sum_running str_eq ◌+ℤ◌ ◌-ℤ◌
is_safe = refl

can_safely_drain_node_sound_example :
    (node : ClusterNode) × (pods : List Workload) × (view.node ≡ ok node)
    × (view.pods_on_node ≡ ok pods)
    × HasBuffer whole (ℤ.pos 75) view node
    × ((pod : Workload) → Memᴰ pod pods → IsSafe view "node-a" pod)
can_safely_drain_node_sound_example =
    can_safely_drain_node_sound whole (ℤ.pos 75) view "node-a" is_safe

-- A group of one instance with one node that is ready.
abbrev pub spot_node : KubeNode
spot_node = record {
  name = "node-s";
  labels = [];
  annotations = [];
  unschedulable = false;
  taints = [];
  provider_id = "aws:///zone-a/i-1";
  conditions = ("Ready", "True") ∷ [];
  deleting = false;
}

abbrev pub spot_instance : GroupInstance
spot_instance = record {
  instance_id = some "i-1";
  lifecycle_state = "InService";
  health_status = "Healthy";
}

abbrev pub spot_group : SpotGroup
spot_group = record { desired_capacity = ℤ.pos 1; instances = spot_instance ∷ [] }

abbrev seen_at : ℤ → Observation
seen_at t = record {
  groups = ok (spot_group ∷ []);
  groups_again = ok (spot_group ∷ []);
  nodes = ok (spot_node ∷ []);
  time = t;
}

-- Healthy at 10, a failing call at 15, and healthy again at 20, with a stability duration of 10.
abbrev failing_between : List Observation
failing_between =
    record (seen_at (ℤ.pos 15)) { groups = err (new "down") } ∷ seen_at (ℤ.pos 10) ∷ []

is_spot_capacity_restored_sound_example :
    IsHealthy (seen_at (ℤ.pos 20))
    × ((t : ℤ) × Lasting t failing_between × (ℤ.pos 10 ≤ℤ (ℤ.pos 20 -ℤ t)))
unfolding is_spot_capacity_restored is_spot_capacity_stable is_spot_asg_healthy are_spot_nodes_ready
    count_in_service spot_nodes all_ready extract_instance_id_from_provider_id last_part
    looks_like_instance_id is_ready str_eq ◌-ℤ◌ ◌+ℤ◌
is_spot_capacity_restored_sound_example =
    is_spot_capacity_restored_sound (ℤ.pos 10) (seen_at (ℤ.pos 20)) failing_between refl
