-- ===== src/SpotGuard/SelfMonitor.antt =====
-- pkg/spotguard/self_monitor.go: the monitor that an on-demand node runs for itself. The checks, the
-- pre-scaling with its fallback levels, and the loop of `Start`.
pub mod Waits
pub mod Raises
pub mod Checks
pub mod Conditions
pub mod Memory
use aws_node_termination_han.Common.{
  ℕ, zero, suc, ◌*◌, ◌%◌, ◌+◌, String, Bool, true, false, ◌&&◌, not, Option, none, some, List, [],
  ◌∷◌, if◌then◌else◌, length,
}
use aws_node_termination_han.Common.Int.{ℤ, pos_part, ◌-ℤ◌, leb_ℤ, ltb_ℤ, scale}
use aws_node_termination_han.Config.{Config}
use aws_node_termination_han.Kube.{
  Request, Result, ok, err, out_of_fuel, sleep, await_tick, check_safety, check_utilization, Server,
  M, return, fail, ◌>>=◌, ◌>>◌, attempt, now, tell,
}
use aws_node_termination_han.Std.{Std}
use aws_node_termination_han.Store.{second}
use aws_node_termination_han.SpotGuard.{FallbackEvent}
use aws_node_termination_han.SpotGuard.Comprehensive.{
  SpotAsgHealthStatus, check_spot_asg_comprehensive,
}
use aws_node_termination_han.SpotGuard.Executor.{scale_down_on_demand_node}
use aws_node_termination_han.SpotGuard.Health.{SpotGroup}
use aws_node_termination_han.SpotGuard.Marker.{
  mark_scale_down_initiated, clear_scale_down_marker, is_scale_down_completed, get_instance_id,
  is_this_node_terminating, get_or_create_start_time,
}
use aws_node_termination_han.SpotGuard.PreScale.{
  MoreFloats, PreScaleCalculation, calculate_pre_scale_nodes, scale_spot_asg,
}
use aws_node_termination_han.SpotGuard.Safety.{
  Workload, ClusterNode, ClusterView, check_pods, is_zero, can_safely_drain_node,
  get_cluster_utilization,
}

-- What changes: the time since which spot capacity counts as healthy, and the threshold of the safety
-- checker.
pub record SelfMonitor (F : Type 0) : Type 0 where
  pub start_time : ℤ
  pub healthy_since : Option ℤ
  pub max_utilization : F

-- The answers that the safety and health checkers get, whether the context is done, and the
-- floating-point numbers.
pub record Surroundings (F : Type 0) : Type 0 where
  pub numbers : MoreFloats F
  pub spot_groups : List Request → Result (List SpotGroup)
  pub view : List Request → ClusterView
  pub ready_nodes : List Request → Result (List ClusterNode)
  pub running_pods : List Request → Result (List Workload)
  pub is_done : List Request → Bool

-- What the safety checker says; of its reasons only one makes a difference.
pub data DrainVerdict : Type 0 where
  can_drain utilization_too_high unsafe : DrainVerdict

abbrev pub maximal_wait : ℕ
maximal_wait = 300 * second

abbrev pub check_interval : ℕ
check_interval = 10 * second

-- The capacity buffer was reached, and the lists for it were read.
abbrev pub is_over_utilized :
    ClusterView
    → String
    → Result ClusterNode
    → Result (List Workload)
    → Result (List ClusterNode)
    → Result (List Workload)
    → Bool
is_over_utilized view node_name (ok node) (ok pods) (ok nodes) (ok running) =
    check_pods view node_name 0 pods
is_over_utilized view node_name _ _ _ _ = false

-- `NewSelfMonitor`, whose fields but these are settings.
unfoldable pub new_self_monitor :
    {F : Type 0} → Std → Server → Config → Surroundings F → M (SelfMonitor F)
new_self_monitor std server n world = do
  instance_id ← get_instance_id std server n
  time ← get_or_create_start_time std server n
  return (record {
    start_time = time;
    healthy_since = none;
    max_utilization = world.numbers.floats.float64 n.spot_guard_max_cluster_utilization;
  })

module _ {F : Type 0} (std : Std) (server : Server) (n : Config) (world : Surroundings F) where
  abbrev pub is_cancelled : M Bool
  is_cancelled h = (ok (world.is_done h), h)

  abbrev pub check_group : ℤ → Option ℤ → M SpotAsgHealthStatus
  check_group stability_duration previous =
      check_spot_asg_comprehensive server (world.spot_groups) n.spot_asg_name stability_duration
        previous

  unfoldable pub drain_verdict : F → M DrainVerdict
  drain_verdict max_utilization h =
      let view = world.view (check_safety ∷ h) in
      (
        ok (
            if can_safely_drain_node world.numbers.floats max_utilization view n.node_name
            then can_drain
            else if is_over_utilized view n.node_name view.node view.pods_on_node view.all_nodes
                view.all_pods
            then utilization_too_high
            else unsafe),
        check_safety ∷ h,
      )

  abbrev pub current_utilization : F → M F
  current_utilization max_utilization h =
      let asked = check_utilization ∷ h in
      (
        ok (
            get_cluster_utilization world.numbers.floats max_utilization (world.ready_nodes asked)
              (world.running_pods asked)),
        asked,
      )

  -- Whether enough of the nodes are there.
  abbrev pub has_enough : ℤ → SpotAsgHealthStatus → Bool
  has_enough desired_count status =
      status.is_healthy
      && status.nodes_ready
      && leb_ℤ desired_count (ℤ.pos (length status.instance_ids))

  abbrev pub after_status : M Bool → ℤ → Result SpotAsgHealthStatus → M Bool
  after_status again desired_count (err e) = tell (sleep check_interval) >> again
  after_status again desired_count (ok status) =
      if has_enough desired_count status then return true else tell (sleep check_interval) >> again

  -- The loop of `waitForSpotNodesReady`.
  unfoldable pub await_spot_nodes : ℕ → ℤ → ℤ → ℤ → M Bool
  await_spot_nodes zero desired_count timeout start_time = fail out_of_fuel
  await_spot_nodes (suc fuel) desired_count timeout start_time = now server >>= λ time.
      if leb_ℤ timeout (time -ℤ start_time)
      then return false
      else attempt (check_group (ℤ.pos (30 * second)) none)
        >>= after_status (await_spot_nodes fuel desired_count timeout start_time) desired_count

  unfoldable pub wait_for_spot_nodes_ready : ℕ → ℤ → ℤ → M Bool
  wait_for_spot_nodes_ready fuel desired_count timeout = do
    start_time ← now server
    await_spot_nodes fuel desired_count timeout start_time

  -- The second level and the third: whether the pre-scaling succeeded, and the threshold afterwards.
  unfoldable pub attempt_fallback_level2 : F → F → Bool × F
  attempt_fallback_level2 current max_utilization =
      let fallback_threshold = world.numbers.floats.float64 n.pre_scale_fallback_threshold in
      if world.numbers.at_most current fallback_threshold
      then (true, fallback_threshold)
      else (false, max_utilization)

  abbrev pub after_wait : F → F → Bool → M (Bool × F)
  after_wait current max_utilization true = return (true, max_utilization)
  after_wait current max_utilization false =
      return (attempt_fallback_level2 current max_utilization)

  abbrev pub after_scale : ℕ → F → F → PreScaleCalculation F → Result (Unit {0}) → M (Bool × F)
  after_scale fuel current max_utilization calc (err e) =
      return (attempt_fallback_level2 current max_utilization)
  after_scale fuel current max_utilization calc (ok _) =
      wait_for_spot_nodes_ready fuel calc.nodes_needed (scale second n.pre_scale_timeout_seconds)
      >>= after_wait current max_utilization

  abbrev pub after_calculation : ℕ → F → F → Result (PreScaleCalculation F) → M (Bool × F)
  after_calculation fuel current max_utilization (err e) =
      return (attempt_fallback_level2 current max_utilization)
  after_calculation fuel current max_utilization (ok calc) =
      if is_zero calc.additional_spot_nodes
      then return (true, max_utilization)
      else attempt (scale_spot_asg server n.spot_asg_name calc.nodes_needed)
        >>= after_scale fuel current max_utilization calc

  unfoldable pub attempt_pre_scale_with_fallback : ℕ → F → M (Bool × F)
  attempt_pre_scale_with_fallback fuel max_utilization = do
    current ← current_utilization max_utilization
    calc ← attempt (
        calculate_pre_scale_nodes world.numbers server n.spot_asg_name n.on_demand_asg_name current
          (world.numbers.floats.float64 n.pre_scale_target_utilization)
          n.pre_scale_safety_buffer_percent)
    after_calculation fuel current max_utilization calc

  -- The loop of `waitForThisNodeTermination`.
  unfoldable pub await_termination : ℕ → ℤ → M Bool
  await_termination zero start_time = fail out_of_fuel
  await_termination (suc fuel) start_time = is_cancelled >>= λ cancelled.
      if cancelled
      then return false
      else tell (await_tick check_interval) >> now server >>= λ time.
          is_this_node_terminating std server n >>= λ terminating.
          if terminating
          then return true
          else if leb_ℤ (ℤ.pos maximal_wait) (time -ℤ start_time)
          then return false
          else await_termination fuel start_time

  unfoldable pub wait_for_this_node_termination : ℕ → M Bool
  wait_for_this_node_termination fuel = do
    start_time ← now server
    await_termination fuel start_time
