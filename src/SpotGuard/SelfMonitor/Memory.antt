-- ===== src/SpotGuard/SelfMonitor/Memory.antt =====
-- What the self monitor remembers of the health of the spot group.
use mathlib.Core.Path.{subst}
use aws_node_termination_han.Common.{
  ℕ, zero, suc, ◌%◌, ◌*◌, ◌≡◌, refl, sym, Bool, true, false, not, some, List, [], ◌∷◌, arith,
}
use aws_node_termination_han.Common.Int.{ℤ, ◌-ℤ◌, ltb_ℤ, scale, pos_part}
use aws_node_termination_han.Config.{Config}
use aws_node_termination_han.Kube.{
  Request, Result, ok, err, new, wrap, every_node, list_nodes, describe_asg, await_tick, sleep,
  KubeNode, Server, ◌>>=◌, ◌>>◌, attempt, on_error, ask, now, tell,
}
use aws_node_termination_han.Kube.Runs.{Satisfies}
use aws_node_termination_han.Kube.Gives.{
  Gives, >>=-Gives, skip-Gives, return-Gives, fail-Gives, attempt-Gives, if-Gives, given,
}
use aws_node_termination_han.Std.{Std}
use aws_node_termination_han.Store.{second}
use aws_node_termination_han.SpotGuard.Comprehensive.{
  SpotAsgHealthStatus, group_status, rated, listed_nodes, first_spot_group, with_nodes,
  check_spot_asg_comprehensive,
}
use aws_node_termination_han.SpotGuard.Executor.{scale_down_on_demand_node}
use aws_node_termination_han.SpotGuard.Health.{SpotGroup, all_ready}
use aws_node_termination_han.SpotGuard.Marker.{
  is_scale_down_completed, clear_scale_down_marker, get_instance_id, mark_scale_down_initiated,
}
use aws_node_termination_han.SpotGuard.SelfMonitor.{
  SelfMonitor, Surroundings, DrainVerdict, can_drain, utilization_too_high, unsafe, is_cancelled,
  check_group, drain_verdict, attempt_pre_scale_with_fallback, wait_for_this_node_termination,
}
use aws_node_termination_han.SpotGuard.SelfMonitor.Checks.{
  succeeded, or_no, event_of_this_node, scale_down_this_node, after_verdict, with_status,
  after_minimum_wait, check_and_scale_down, after_round, self_monitor_tick, self_monitor_loop,
}

-- A status of a healthy group with ready nodes keeps the time that was known.
abbrev Keeps : ℤ → SpotAsgHealthStatus → Type 0
Keeps t status =
    status.is_healthy ≡ true → status.nodes_ready ≡ true → status.healthy_since ≡ some t

rated-Keeps :
    (d t : ℤ) (status : SpotAsgHealthStatus) (healthy ready : Bool) (time : ℤ)
    → status.is_healthy ≡ healthy
    → Keeps t (rated d (some t) status ready time)
rated-Keeps d t status true true time e h r = rw e refl
rated-Keeps d t status true false time e h r = cc (rw e at r)
rated-Keeps d t status false ready time e h r = cc (rw e at h)

not-false : {b : Bool} → not b ≡ false → b ≡ true
not-false {b} e = ground (arith, e)

module _ {F : Type 0} (std : Std) (server : Server) (n : Config) (world : Surroundings F) where
  with_nodes-Gives :
      (d t : ℤ) (asg : SpotGroup) (nodes : List KubeNode)
      → Gives (Keeps t) (with_nodes server world.spot_groups d (some t) (group_status asg) nodes)
  with_nodes-Gives d t asg [] = return-Gives (group_status asg) (λ h r. cc r)
  with_nodes-Gives d t asg (node ∷ nodes) = skip-Gives {R = Keeps t} (now server) _ λ time.
      return-Gives (rated d (some t) (group_status asg) (all_ready (node ∷ nodes)) time) (
        rated-Keeps d t (group_status asg) (group_status asg).is_healthy (all_ready (node ∷ nodes))
          time refl)

  group-Gives :
      (d t : ℤ) (groups : List SpotGroup)
      → Gives (Keeps t) (
          first_spot_group groups >>= λ asg.
          on_error (wrap "failed to list nodes") (ask (list_nodes every_node) server.nodes)
          >>= λ nodes.
              with_nodes server world.spot_groups d
                (some t)
                (group_status asg)
                (listed_nodes (group_status asg).instance_ids nodes))
  unfolding first_spot_group
  group-Gives d t [] = fail-Gives (new "ASG not found")
  group-Gives d t (asg ∷ rest) =
      skip-Gives {R = Keeps t}
        (on_error (wrap "failed to list nodes") (ask (list_nodes every_node) server.nodes)) _
        λ nodes. with_nodes-Gives d t asg (listed_nodes (group_status asg).instance_ids nodes)

  check-Gives : (d t : ℤ) → Gives (Keeps t) (check_group std server n world d (some t))
  unfolding check_spot_asg_comprehensive
  check-Gives d t =
      skip-Gives {R = Keeps t}
        (on_error (wrap "failed to describe ASG")
          (ask (describe_asg n.spot_asg_name) world.spot_groups))
        _ (group-Gives d t)

  -- The monitor still has the time.
  abbrev Remembers : ℤ → Bool × SelfMonitor F → Type 0
  Remembers t (b, m) = m.healthy_since ≡ some t

  scale_down-Gives :
      (ticks : ℕ) (t : ℤ) (m : SelfMonitor F)
      → m.healthy_since ≡ some t
      → Gives (Remembers t) (scale_down_this_node std server n world ticks m)
  unfolding scale_down_this_node
  scale_down-Gives ticks t m e = skip-Gives (now server) _ λ time.
      skip-Gives (is_cancelled std server n world) _ λ cancelled.
        if-Gives cancelled _ _ (λ _. return-Gives (false, m) e)
          λ _. skip-Gives (tell (sleep (pos_part time % 30 * second))) _ λ _.
            skip-Gives (now server) _ λ _.
              skip-Gives (get_instance_id std server n) _ λ instance_id.
                skip-Gives (attempt (mark_scale_down_initiated std server n)) _ λ _.
                  skip-Gives
                    (attempt (
                      scale_down_on_demand_node server n ticks
                        (event_of_this_node std server n world m instance_id)))
                    _ λ r. return-Gives (succeeded r, m) e

  verdict-Gives :
      (fuel ticks : ℕ) (t : ℤ) (m : SelfMonitor F) (verdict : DrainVerdict)
      → m.healthy_since ≡ some t
      → Gives (Remembers t) (after_verdict std server n world fuel ticks m verdict)
  verdict-Gives fuel ticks t m can_drain e = scale_down-Gives ticks t m e
  verdict-Gives fuel ticks t m utilization_too_high e =
      if-Gives n.enable_pre_scale _ _
        (λ _.
          skip-Gives (attempt_pre_scale_with_fallback std server n world fuel m.max_utilization) _
            λ outcome. return-Gives (false, record m { max_utilization = outcome.1 }) e)
        (λ _. return-Gives (false, m) e)
  verdict-Gives fuel ticks t m unsafe e = return-Gives (false, m) e

  status-Gives :
      (fuel ticks : ℕ) (t : ℤ) (m : SelfMonitor F) (status : SpotAsgHealthStatus)
      → m.healthy_since ≡ some t
      → Keeps t status
      → Gives (Remembers t) (with_status std server n world fuel ticks m status)
  status-Gives fuel ticks t m status e keeps =
      if-Gives (not status.is_healthy) _ _ (λ _. return-Gives (false, m) e)
        λ healthy.
          if-Gives (not status.nodes_ready) _ _ (λ _. return-Gives (false, m) e)
            λ ready.
              let kept = keeps (not-false healthy) (not-false ready) in
              if-Gives (not status.is_stable) _ _
                (λ _. return-Gives (false, record m { healthy_since = status.healthy_since }) kept)
                λ _. skip-Gives (drain_verdict std server n world m.max_utilization) _ λ verdict.
                  verdict-Gives fuel ticks t (record m { healthy_since = status.healthy_since })
                    verdict kept

  or_no-Gives :
      (fuel ticks : ℕ) (t : ℤ) (m : SelfMonitor F) (r : Result SpotAsgHealthStatus)
      → m.healthy_since ≡ some t
      → Satisfies (Keeps t) r
      → Gives (Remembers t) (or_no (with_status std server n world fuel ticks m) m r)
  or_no-Gives fuel ticks t m (ok status) e keeps = status-Gives fuel ticks t m status e keeps
  or_no-Gives fuel ticks t m (err x) e keeps = return-Gives (false, m) e

  waited-Gives :
      (fuel ticks : ℕ) (t time : ℤ) (m : SelfMonitor F)
      → m.healthy_since ≡ some t
      → Gives (Remembers t) (after_minimum_wait std server n world fuel ticks m time)
  waited-Gives fuel ticks t time m e =
      let d = scale second n.spot_guard_spot_stability_duration in
      if-Gives (ltb_ℤ (time -ℤ m.start_time) (scale second n.spot_guard_minimum_wait_duration)) _ _
        (λ _. return-Gives (false, m) e)
        λ _.
          >>=-Gives (attempt (check_group std server n world d m.healthy_since)) _
            (attempt-Gives (check_group std server n world d m.healthy_since) (
              subst (λ s. Gives (Keeps t) (check_group std server n world d s)) (sym e)
                (check-Gives d t)))
            λ r keeps. or_no-Gives fuel ticks t m r e keeps

  check_and_scale_down-Gives :
      (fuel ticks : ℕ) (t : ℤ) (m : SelfMonitor F)
      → m.healthy_since ≡ some t
      → Gives (Remembers t) (check_and_scale_down std server n world fuel ticks m)
  unfolding check_and_scale_down
  check_and_scale_down-Gives fuel ticks t m e =
      skip-Gives (is_scale_down_completed std server n) _ λ completed.
        if-Gives completed _ _ (λ _. return-Gives (true, m) e)
          λ _. skip-Gives (now server) _ λ time. waited-Gives fuel ticks t time m e

  abbrev StillKnows : ℤ → SelfMonitor F → Type 0
  StillKnows t m = m.healthy_since ≡ some t

  checked-Gives :
      (fuel : ℕ) (t : ℤ) (b : Bool) (m : SelfMonitor F)
      → m.healthy_since ≡ some t
      → Gives (StillKnows t) (after_round std server n world fuel (b, m))
  checked-Gives fuel t false m e = return-Gives m e
  checked-Gives fuel t true m e =
      skip-Gives (wait_for_this_node_termination std server n world fuel) _ λ terminating.
        if-Gives terminating _ _ (λ _. return-Gives m e)
          λ _. skip-Gives (attempt (clear_scale_down_marker std server n)) _ λ _. return-Gives m e

  tick-Gives :
      (fuel ticks : ℕ) (t : ℤ) (m : SelfMonitor F)
      → m.healthy_since ≡ some t
      → Gives (StillKnows t) (self_monitor_tick std server n world fuel ticks m)
  unfolding self_monitor_tick
  tick-Gives fuel ticks t m e =
      >>=-Gives (check_and_scale_down std server n world fuel ticks m) _
        (check_and_scale_down-Gives fuel ticks t m e) λ (b, m') e'. checked-Gives fuel t b m' e'

  loop-Gives :
      (rounds interval fuel ticks : ℕ) (t : ℤ) (m : SelfMonitor F)
      → m.healthy_since ≡ some t
      → Gives (StillKnows t) (self_monitor_loop std server n world rounds interval fuel ticks m)
  unfolding self_monitor_loop
  loop-Gives zero interval fuel ticks t m e = return-Gives m e
  loop-Gives (suc rounds) interval fuel ticks t m e =
      skip-Gives (is_cancelled std server n world) _ λ cancelled.
        if-Gives cancelled _ _ (λ _. return-Gives m e)
          λ _.
            >>=-Gives
              (tell (await_tick interval) >> self_monitor_tick std server n world fuel ticks m) _
              (skip-Gives (tell (await_tick interval)) _ λ _. tick-Gives fuel ticks t m e)
              λ m' e'. loop-Gives rounds interval fuel ticks t m' e'

-- Once the self monitor has a time since which spot capacity counts as healthy, no number of rounds
-- changes it, whatever the groups and the nodes are found to be in them: capacity that was lost and is
-- back counts as healthy since that first time.
pub self_monitor_loop-healthy_since :
    {F : Type 0} (std : Std) (server : Server) (n : Config) (world : Surroundings F)
    (rounds interval fuel ticks : ℕ) (t : ℤ) (m m' : SelfMonitor F) (h : List Request)
    → m.healthy_since ≡ some t
    → (self_monitor_loop std server n world rounds interval fuel ticks m h).0 ≡ ok m'
    → m'.healthy_since ≡ some t
self_monitor_loop-healthy_since std server n world rounds interval fuel ticks t m m' h e run =
    given (λ x. x.healthy_since ≡ some t)
      (self_monitor_loop std server n world rounds interval fuel ticks m h).0 m' run
      ((loop-Gives std server n world rounds interval fuel ticks t m e).gives h)
