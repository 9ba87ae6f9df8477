-- ===== src/SpotGuard/Executor.antt =====
-- pkg/spotguard/scaledown_executor.go, and `executeScaleDown` of pkg/spotguard/monitor.go.
use aws_node_termination_han.Common.{
  ℕ, zero, suc, ◌*◌, ◌%◌, ◌==◌, String, true, false, not, Option, none, some, List, [], ◌∷◌, ◌++◌,
  if◌then◌else◌, select, length,
}
use aws_node_termination_han.Common.Int.{ℤ, pos_part, ◌-ℤ◌, ltb_ℤ}
use aws_node_termination_han.Config.{Config}
use aws_node_termination_han.Kube.{
  Error, Result, ok, err, new, wrap, no_schedule, Taint, get_node, update_node, list_pods, sleep,
  describe_asg, set_desired_capacity, AutoScalingGroup, Server, M, return, fail, ◌>>=◌, ◌>>◌,
  attempt, on_error, ask, tell, now,
}
use aws_node_termination_han.Node.{cordon}
use aws_node_termination_han.Node.Pods.{is_daemon_set_pod, cordon_and_drain}
use aws_node_termination_han.Node.Taints.{has_taint}
use aws_node_termination_han.Store.{second}
use aws_node_termination_han.SpotGuard.{FallbackEvent, FallbackTracker, update_event}

abbrev pub scale_down_taint : Taint
scale_down_taint = record {
  key = "spotguard/scale-down-pending";
  value = "true";
  effect = no_schedule;
}

abbrev pub begun : FallbackEvent → FallbackEvent
begun e = record e { scale_down_initiated = true; spot_capacity_restored = true }

abbrev pub reverted : FallbackEvent → FallbackEvent
reverted e = record e { scale_down_initiated = false }

-- The tracker after a scale-down that ended with the result.
abbrev pub recorded : String → FallbackTracker → Result (Unit {0}) → FallbackTracker
recorded event_id t (ok _) = t
recorded event_id t (err _) = update_event event_id reverted t

-- The first group of the answer, whose name was asked for.
unfoldable pub first_group : List AutoScalingGroup → M AutoScalingGroup
first_group [] = fail (new "ASG not found")
first_group (asg ∷ rest) = return asg

module _ (server : Server) where
  unfoldable pub taint_node : String → M (Unit {0})
  taint_node node_name = do
    node ← ask (get_node node_name) server.node
    if has_taint scale_down_taint.key node.taints
        then return tt
        else ask (update_node (record node { taints = node.taints ++ scale_down_taint ∷ [] }))
            server.done

  -- The loop of `waitForPodsRescheduled`. How often the ticker comes before the timeout is up to
  -- the clock and the runtime.
  unfoldable pub wait_for_pods_rescheduled : ℕ → String → M (Unit {0})
  wait_for_pods_rescheduled zero node_name = fail (new "timeout waiting for pods to be rescheduled")
  wait_for_pods_rescheduled (suc ticks) node_name = do
    pods ← ask (list_pods node_name false) server.pods
    if length (select (λ pod. not (is_daemon_set_pod pod)) pods) == 0
        then return tt
        else wait_for_pods_rescheduled ticks node_name

  -- The update, if it stays within the group's bounds; the check of it afterwards only logs.
  unfoldable pub lower_capacity : String → AutoScalingGroup → M (Unit {0})
  lower_capacity asg_name asg =
      let new_desired = asg.desired_capacity -ℤ ℤ.pos 1 in
      if ltb_ℤ new_desired asg.min_size
      then fail (new "cannot decrease capacity below minimum size")
      else (do
        on_error (wrap "failed to update ASG capacity")
            (ask (set_desired_capacity asg_name new_desired) server.done)
        tell (sleep (2 * second))
        verified ← attempt (ask (describe_asg asg_name) server.groups)
        return tt)

  unfoldable pub decrease_asg_capacity : String → M (Unit {0})
  decrease_asg_capacity asg_name = do
    groups ← on_error (wrap "failed to describe ASG") (ask (describe_asg asg_name) server.groups)
    asg ← first_group groups
    lower_capacity asg_name asg

module _ (server : Server) (n : Config) where
  -- `drainNode`: the drain of `Node`, without a recorder.
  unfoldable pub drain_node : String → M (Unit {0})
  drain_node node_name = cordon_and_drain server n node_name false

  -- The first three steps; `ticks` counts the looks at the pods before the fourth times out.
  unfoldable pub prepare_node : String → M (Unit {0})
  prepare_node node_name = do
    on_error (wrap "failed to taint node") (taint_node server node_name)
    on_error (wrap "failed to cordon node") (cordon server n node_name)
    on_error (wrap "failed to drain node") (drain_node node_name)

  unfoldable pub scale_down_on_demand_node : ℕ → FallbackEvent → M (Unit {0})
  scale_down_on_demand_node ticks event = do
    prepare_node event.on_demand_node_name
    waited ← attempt (wait_for_pods_rescheduled server ticks event.on_demand_node_name)
    on_error (wrap "failed to scale down ASG")
        (decrease_asg_capacity server event.on_demand_asg_name)

  -- A cancelled context ends it within the jitter.
  unfoldable pub execute_scale_down :
      Option Error → ℕ → ℕ → FallbackTracker → M (Result (Unit {0}) × FallbackTracker)
  execute_scale_down cancelled ticks p t = do
    time ← now server
    tell (sleep (pos_part time % 30 * second))
    elim cancelled [
      | some e ↦ return (err e, t)
      | none ↦ do
        let event_id = (t.heap p).event_id
        let marked = update_event event_id begun t
        result ← attempt (scale_down_on_demand_node ticks (marked.heap p))
        return (result, recorded event_id marked result)
    ]
