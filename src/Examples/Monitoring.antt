-- ===== src/Examples/Monitoring.antt =====
-- The theorems on the self monitor of Spot Guard at concrete inputs.
use aws_node_termination_han.Common.{
  ◌*◌, ◌≡◌, ◌⊎◌, refl, arith, Bool, true, false, some, none, List, [], ◌∷◌, str_eq, lookup, insert,
}
use aws_node_termination_han.Common.Int.{ℤ, ◌+ℤ◌, ◌-ℤ◌, ◌≤ℤ◌, scale, leb_ℤ}
use aws_node_termination_han.Config.{default_config}
use aws_node_termination_han.Kube.{Request, ok, get_node, read_clock, KubeNode, Server}
use aws_node_termination_han.Store.{second}
use aws_node_termination_han.SpotGuard.Comprehensive.{
  SpotAsgHealthStatus, listed_nodes, first_spot_group, check_spot_asg_comprehensive,
}
use aws_node_termination_han.SpotGuard.Comprehensive.Agreement.{
  Agrees, check_spot_asg_comprehensive-Agrees,
}
use aws_node_termination_han.SpotGuard.Health.{
  count_in_service, extract_instance_id_from_provider_id, last_part, looks_like_instance_id,
  all_ready,
}
use aws_node_termination_han.SpotGuard.Monitor.{
  Outlook, check_ticker, cleanup_ticker, default_monitor_config, run_ticks,
}
use aws_node_termination_han.SpotGuard.Monitor.Idle.{Permitted, Looks, run_ticks-Looks}
use aws_node_termination_han.SpotGuard.Marker.{
  after_slash, get_instance_id, mark_scale_down_initiated, is_gone, is_marked,
  is_scale_down_completed, get_or_create_start_time, with_start_time,
}
use aws_node_termination_han.SpotGuard.Marker.Restart.{get_or_create_start_time-restart}
use aws_node_termination_han.SpotGuard.PreScale.{MoreFloats}
use aws_node_termination_han.SpotGuard.Safety.{
  is_ready, can_safely_drain_node, check_pods, is_owned_by_daemon_set, can_pod_schedule_elsewhere,
  pod_fits_on_node, sum_requests, would_violate_pdb, is_violated, has_cluster_capacity_buffer,
  sum_allocatable, sum_running,
}
use aws_node_termination_han.SpotGuard.Executor.{
  scale_down_on_demand_node, prepare_node, taint_node, drain_node, wait_for_pods_rescheduled,
  decrease_asg_capacity, first_group, lower_capacity,
}
use aws_node_termination_han.Node.{
  cordon, fetch_kubernetes_node, first_match, maybe_mark_for_exclusion_from_load_balancers,
  add_label,
}
use aws_node_termination_han.Node.Pods.{cordon_and_drain, pods_for_recorder}
use aws_node_termination_han.SpotGuard.SelfMonitor.{
  SelfMonitor, Surroundings, drain_verdict, wait_for_this_node_termination,
}
use aws_node_termination_han.SpotGuard.SelfMonitor.Checks.{
  scale_down_this_node, check_and_scale_down, self_monitor_tick, self_monitor_loop,
}
use aws_node_termination_han.SpotGuard.SelfMonitor.Conditions.{
  IsFit, DrainsSafely, checked, check_and_scale_down_sound,
}
use aws_node_termination_han.SpotGuard.SelfMonitor.Memory.{self_monitor_loop-healthy_since}
use aws_node_termination_han.SpotGuard.SelfMonitor.Waits.{wait_for_this_node_termination-Ends}
use aws_node_termination_han.Examples.{node_a, server}
use aws_node_termination_han.Examples.Cluster.{tracker}
use aws_node_termination_han.Examples.Queue.{std}
use aws_node_termination_han.Examples.Scaling.{
  spot_node, spot_group, view, whole, ticking, ticking-IsTicker,
}

abbrev joined : Server
joined = record server { nodes = λ h. ok (spot_node ∷ []); time = λ h. ℤ.pos 30 }

abbrev stable_status : SpotAsgHealthStatus
stable_status = record {
  is_healthy = true;
  nodes_ready = true;
  is_stable = true;
  instance_ids = "i-1" ∷ [];
  healthy_since = some (ℤ.pos 10);
}

seen_stable :
    (check_spot_asg_comprehensive joined
      (λ h. ok (spot_group ∷ []))
      "spot"
      (ℤ.pos 20)
      (some (ℤ.pos 10))
      []).0
    ≡ ok stable_status
unfolding check_spot_asg_comprehensive first_spot_group listed_nodes count_in_service all_ready
    extract_instance_id_from_provider_id last_part looks_like_instance_id is_ready str_eq ◌+ℤ◌ ◌-ℤ◌
seen_stable = refl

check_spot_asg_comprehensive-Agrees_example :
    Agrees (ℤ.pos 20) (some (ℤ.pos 10)) stable_status (record {
      groups = ok (spot_group ∷ []);
      groups_again = ok (spot_group ∷ []);
      nodes = ok (spot_node ∷ []);
      time = ℤ.pos 30;
    })
check_spot_asg_comprehensive-Agrees_example =
    check_spot_asg_comprehensive-Agrees joined (λ h. ok (spot_group ∷ [])) "spot" (ℤ.pos 20)
      (some (ℤ.pos 10)) [] stable_status seen_stable

abbrev numbers : MoreFloats ℤ
numbers = record { floats = whole; plus = ◌+ℤ◌; at_most = leb_ℤ; int = λ k. k }

-- One healthy group, or else no capacity.
abbrev world : Surroundings ℤ
world = record {
  numbers = numbers;
  spot_groups = λ h. ok (spot_group ∷ []);
  view = λ h. view;
  ready_nodes = λ h. view.all_nodes;
  running_pods = λ h. view.all_pods;
  is_done = λ h. false;
}

abbrev lost : Surroundings ℤ
lost = record world {
  spot_groups = λ h. ok (record spot_group { desired_capacity = ℤ.pos 2 } ∷ []);
}

wait_for_this_node_termination-Ends_example :
    (b : Bool) × ((wait_for_this_node_termination std ticking default_config world 30 []).0 ≡ ok b)
    × (b ≡ true
        → (g : List Request) × (is_gone std ticking default_config
              (ticking.node (get_node "node-a" ∷ g))
            ≡ true))
wait_for_this_node_termination-Ends_example =
    wait_for_this_node_termination-Ends std ticking default_config world [] 29 ticking-IsTicker
      (omega arith)

-- A node whose start time is written, and that has it afterwards.
abbrev written : KubeNode
written = with_start_time std joined default_config (ℤ.pos 30) node_a

abbrev updating : Server
updating = record joined { node = λ h. elim h [ x ∷ [] ↦ ok node_a | _ ↦ ok written ] }

get_or_create_start_time-restart_example :
    ((get_or_create_start_time std updating default_config []).0 ≡ ok (ℤ.pos 30))
    × ((get_or_create_start_time std updating default_config (read_clock ∷ [])).0 ≡ ok (ℤ.pos 5))
unfolding lookup
get_or_create_start_time-restart_example =
    get_or_create_start_time-restart std updating default_config node_a (ℤ.pos 5) []
      (read_clock ∷ []) refl refl refl refl

abbrev monitor : SelfMonitor ℤ
monitor = record {
  start_time = ℤ.negsuc (1000 * second);
  healthy_since = some (ℤ.negsuc (900 * second));
  max_utilization = ℤ.pos 75;
}

-- Two rounds in which the group lacks an instance.
self_monitor_loop-healthy_since_example : monitor.healthy_since ≡ some (ℤ.negsuc (900 * second))
unfolding self_monitor_loop self_monitor_tick check_and_scale_down is_scale_down_completed
    check_spot_asg_comprehensive first_spot_group listed_nodes count_in_service all_ready
    extract_instance_id_from_provider_id last_part looks_like_instance_id is_ready str_eq ◌+ℤ◌ ◌-ℤ◌
    lookup scale
self_monitor_loop-healthy_since_example =
    self_monitor_loop-healthy_since std joined default_config lost 2 30 3 3
      (ℤ.negsuc (900 * second)) monitor monitor [] refl refl

scaled_down :
    (check_and_scale_down std joined default_config world 3 3 monitor []).0 ≡ ok (true, monitor)
unfolding check_and_scale_down is_scale_down_completed check_spot_asg_comprehensive first_spot_group
    listed_nodes count_in_service all_ready extract_instance_id_from_provider_id last_part
    looks_like_instance_id is_ready str_eq ◌+ℤ◌ ◌-ℤ◌ lookup scale drain_verdict
    can_safely_drain_node check_pods is_owned_by_daemon_set can_pod_schedule_elsewhere
    pod_fits_on_node sum_requests would_violate_pdb is_violated has_cluster_capacity_buffer
    sum_allocatable sum_running scale_down_this_node get_instance_id after_slash
    mark_scale_down_initiated scale_down_on_demand_node prepare_node taint_node cordon drain_node
    wait_for_pods_rescheduled decrease_asg_capacity first_group lower_capacity insert
    fetch_kubernetes_node first_match cordon_and_drain maybe_mark_for_exclusion_from_load_balancers
    add_label pods_for_recorder
scaled_down = refl

check_and_scale_down_sound_example :
    (is_marked std joined default_config (joined.node (get_node "node-a" ∷ [])) ≡ true)
    ⊎ ((scale second default_config.spot_guard_minimum_wait_duration
          ≤ℤ (joined.time (read_clock ∷ get_node "node-a" ∷ []) -ℤ monitor.start_time))
        × ((status : SpotAsgHealthStatus) × ((checked std joined default_config world monitor
                (read_clock ∷ get_node "node-a" ∷ [])).0
              ≡ ok status)
            × IsFit status)
        × DrainsSafely std joined default_config world monitor.max_utilization
            (checked std joined default_config world monitor
              (read_clock ∷ get_node "node-a" ∷ [])).1)
check_and_scale_down_sound_example =
    check_and_scale_down_sound std joined default_config world 3 3 monitor monitor [] scaled_down

abbrev outlook : Outlook ℤ
outlook = record {
  floats = whole;
  max_utilization = ℤ.pos 75;
  observed = λ h. record {
    groups = ok (spot_group ∷ []);
    groups_again = ok (spot_group ∷ []);
    nodes = ok (spot_node ∷ []);
    time = ℤ.pos 30;
  };
  view = λ h. view;
  cancelled = λ h. none;
  order = λ events. events;
}

run_ticks-Looks_example :
    Permitted joined default_config
      (default_monitor_config whole)
      outlook
      3
      (check_ticker ∷ cleanup_ticker ∷ check_ticker ∷ [])
      tracker
      []
    ⊎ Looks joined default_config (default_monitor_config whole) outlook tracker [] (
        run_ticks joined default_config
          (default_monitor_config whole)
          outlook
          3
          (check_ticker ∷ cleanup_ticker ∷ check_ticker ∷ [])
          tracker
          [])
run_ticks-Looks_example =
    run_ticks-Looks joined default_config (default_monitor_config whole) outlook 3
      (check_ticker ∷ cleanup_ticker ∷ check_ticker ∷ []) tracker []
