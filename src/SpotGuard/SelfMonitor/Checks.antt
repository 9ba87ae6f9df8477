-- ===== src/SpotGuard/SelfMonitor/Checks.antt =====
-- pkg/spotguard/self_monitor.go: `checkAndScaleDown` and the loop of `Start`.
use aws_node_termination_han.Common.{
  ℕ, zero, suc, ◌%◌, ◌+◌, ◌*◌, String, Bool, true, false, not, none, [], ◌∷◌, if◌then◌else◌,
}
use aws_node_termination_han.Common.Int.{ℤ, pos_part, ◌-ℤ◌, ltb_ℤ, scale}
use aws_node_termination_han.Config.{Config}
use aws_node_termination_han.Kube.{
  Result, ok, err, sleep, await_tick, Server, M, return, ◌>>=◌, ◌>>◌, attempt, now, tell,
}
use aws_node_termination_han.Std.{Std}
use aws_node_termination_han.Store.{second}
use aws_node_termination_han.SpotGuard.{FallbackEvent}
use aws_node_termination_han.SpotGuard.Comprehensive.{SpotAsgHealthStatus}
use aws_node_termination_han.SpotGuard.Executor.{scale_down_on_demand_node}
use aws_node_termination_han.SpotGuard.Marker.{
  mark_scale_down_initiated, clear_scale_down_marker, is_scale_down_completed, get_instance_id,
}
use aws_node_termination_han.SpotGuard.SelfMonitor.{
  SelfMonitor, Surroundings, DrainVerdict, can_drain, utilization_too_high, unsafe, is_cancelled,
  check_group, drain_verdict, attempt_pre_scale_with_fallback, wait_for_this_node_termination,
}

abbrev pub succeeded : Result (Unit {0}) → Bool
succeeded (ok _) = true
succeeded (err e) = false

-- What an error of a step is turned into: it is logged, and the check says no.
abbrev pub or_no : {A B : Type 0} → (A → M (Bool × B)) → B → Result A → M (Bool × B)
or_no continue state (err e) = return (false, state)
or_no continue state (ok a) = continue a

module _ {F : Type 0} (std : Std) (server : Server) (n : Config) (world : Surroundings F) where
  -- The event of this node. Its ID, which has the time in seconds, is only logged.
  abbrev pub event_of_this_node : SelfMonitor F → String → FallbackEvent
  event_of_this_node m instance_id = record {
    event_id = std.sprintf "self-monitor-%s-%d" (n.node_name ∷ []);
    timestamp = m.start_time;
    spot_asg_name = n.spot_asg_name;
    on_demand_asg_name = n.on_demand_asg_name;
    on_demand_instance_id = instance_id;
    on_demand_node_name = n.node_name;
    spot_capacity_restored = true;
    scale_down_initiated = true;
    minimum_wait_duration = ℤ.pos 0;
    spot_healthy_since = none;
  }

  -- The fourth step. `ticks` counts the looks at the pods, as in the executor.
  unfoldable pub scale_down_this_node : ℕ → SelfMonitor F → M (Bool × SelfMonitor F)
  scale_down_this_node ticks m = do
    time ← now server
    cancelled ← is_cancelled std server n world
    if cancelled then return (false, m) else (do
      tell (sleep (pos_part time % 30 * second))
      created ← now server
      instance_id ← get_instance_id std server n
      marked ← attempt (mark_scale_down_initiated std server n)
      result ← attempt (scale_down_on_demand_node server n ticks (event_of_this_node m instance_id))
      return (succeeded result, m))

  -- A pre-scaling ends the check, whatever comes of it; the threshold may be another afterwards.
  abbrev pub pre_scale : ℕ → SelfMonitor F → M (Bool × SelfMonitor F)
  pre_scale fuel m =
      attempt_pre_scale_with_fallback std server n world fuel m.max_utilization >>= λ outcome.
      return (false, record m { max_utilization = outcome.1 })

  abbrev pub after_verdict : ℕ → ℕ → SelfMonitor F → DrainVerdict → M (Bool × SelfMonitor F)
  after_verdict fuel ticks m can_drain = scale_down_this_node ticks m
  after_verdict fuel ticks m utilization_too_high =
      if n.enable_pre_scale then pre_scale fuel m else return (false, m)
  after_verdict fuel ticks m unsafe = return (false, m)

  -- The time is kept only of a group that is healthy, with nodes that are ready.
  abbrev pub with_status : ℕ → ℕ → SelfMonitor F → SpotAsgHealthStatus → M (Bool × SelfMonitor F)
  with_status fuel ticks m status =
      let seen = record m { healthy_since = status.healthy_since } in
      if not status.is_healthy
      then return (false, m)
      else if not status.nodes_ready
      then return (false, m)
      else if not status.is_stable
      then return (false, seen)
      else drain_verdict std server n world m.max_utilization >>= after_verdict fuel ticks seen

  abbrev pub after_minimum_wait : ℕ → ℕ → SelfMonitor F → ℤ → M (Bool × SelfMonitor F)
  after_minimum_wait fuel ticks m time =
      if ltb_ℤ (time -ℤ m.start_time) (scale second n.spot_guard_minimum_wait_duration)
      then return (false, m)
      else attempt (
          check_group std server n world (scale second n.spot_guard_spot_stability_duration)
            m.healthy_since)
        >>= or_no (with_status fuel ticks m) m

  unfoldable pub check_and_scale_down : ℕ → ℕ → SelfMonitor F → M (Bool × SelfMonitor F)
  check_and_scale_down fuel ticks m = do
    completed ← is_scale_down_completed std server n
    if completed then return (true, m) else (now server >>= after_minimum_wait fuel ticks m)

  -- Once a scale-down was begun: the marker is cleared if this node does not go.
  abbrev pub after_round : ℕ → Bool × SelfMonitor F → M (SelfMonitor F)
  after_round fuel (false, m) = return m
  after_round fuel (true, m) =
      wait_for_this_node_termination std server n world fuel >>= λ terminating.
      if terminating
      then return m
      else attempt (clear_scale_down_marker std server n) >>= λ cleared. return m

  -- One tick of `Start`; the loop ends only when its context does.
  unfoldable pub self_monitor_tick : ℕ → ℕ → SelfMonitor F → M (SelfMonitor F)
  self_monitor_tick fuel ticks m = check_and_scale_down fuel ticks m >>= after_round fuel

  unfoldable pub self_monitor_loop : ℕ → ℕ → ℕ → ℕ → SelfMonitor F → M (SelfMonitor F)
  self_monitor_loop zero interval fuel ticks m = return m
  self_monitor_loop (suc rounds) interval fuel ticks m =
      is_cancelled std server n world >>= λ cancelled.
      if cancelled
      then return m
      else tell (await_tick interval) >> self_monitor_tick fuel ticks m >>= λ m'.
          self_monitor_loop rounds interval fuel ticks m'

  -- `Start`, for so many rounds, with its jitter.
  unfoldable pub start_self_monitor : ℕ → ℕ → ℕ → SelfMonitor F → M (SelfMonitor F)
  start_self_monitor rounds fuel ticks m = do
    time ← now server
    self_monitor_loop rounds
        (pos_part (scale second n.spot_guard_check_interval) + pos_part time % 10 * second) fuel
        ticks m
