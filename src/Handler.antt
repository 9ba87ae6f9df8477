-- ===== src/Handler.antt =====
-- pkg/interruptionevent/internal/common/handler.go, and the drain tasks that it runs. A handler
-- works on the store and on an event of its heap: a run takes the store and gives the new one.
pub mod Drain
pub mod Launch
pub mod TaskRequests
pub mod Requests
pub mod Returning
pub mod Conclusion
pub mod Settle
use aws_node_termination_han.Common.{
  ℕ, String, Bool, true, false, not, Option, none, some, List, [], ◌∷◌, if◌then◌else◌, str_eq, any,
  ◌*◌, ◌==◌, ◌&&◌,
}
use aws_node_termination_han.Common.Int.{ℤ, pos_part}
use aws_node_termination_han.Config.{Config}
use aws_node_termination_han.Store.{second}
use aws_node_termination_han.Event.{
  DrainTask, set_spot_itn_taint, taint_asg_lifecycle, taint_rebalance, uncordon_after_reboot,
  scale_up_and_taint, queue_taint_spot_itn, queue_taint_rebalance, queue_taint_scheduled,
  queue_delete, begin_termination, cancel_heartbeat, end_termination, end_launch, LifecycleDetail,
  InterruptionEvent,
}
use aws_node_termination_han.Kube.{
  Error, Result, ok, err, wrap, emit, node_action, complete_lifecycle_action, start_heartbeats,
  stop_heartbeats, delete_message, sleep, Server, M, return, fail, ◌>>=◌, ◌>>◌, attempt,
  attempt_returning, on_error, ask, tell,
}
use aws_node_termination_han.Node.{
  mark_with_event_id, is_unschedulable, get_node_name_from_provider_id,
}
use aws_node_termination_han.Node.Taints
use aws_node_termination_han.Node.Reboot.{mark_for_uncordon_after_reboot}

abbrev pub failed : Result (Unit {0}) → Bool
failed (ok _) = false
failed (err _) = true

-- `-1` stands for a setting that is not given.
abbrev pub is_set : ℤ → Bool
is_set (ℤ.pos k) = true
is_set (ℤ.negsuc k) = not (k == 0)

unfoldable pub is_allowed_kind : String → List String → Bool
is_allowed_kind kind = any (λ allowed. str_eq kind allowed)

-- `if task != nil { ... }`
abbrev pub run_if_some :
    (DrainTask → String → InterruptionEvent → M (Unit {0}))
    → Option DrainTask
    → String
    → InterruptionEvent
    → M (Unit {0})
run_if_some run none node_name event = return tt
run_if_some run (some task) node_name event = run task node_name event

module _ (server : Server) (n : Config) where
  -- `uncordonAfterRebootPreDrain` of pkg/monitor/scheduledevent
  unfoldable pub uncordon_after_reboot_pre_drain : InterruptionEvent → M (Unit {0})
  uncordon_after_reboot_pre_drain event = do
    on_error (wrap "Unable to mark node with event ID")
        (mark_with_event_id server n event.node_name event.event_id)
    on_error (wrap "Unable to taint node with taint")
        (Taints.taint_scheduled_maintenance server n event.node_name event.event_id)
    unschedulable ←
        on_error
          (wrap
            "Encountered an error while checking if the node is unschedulable. Not setting an uncordon label")
          (is_unschedulable server n event.node_name)
    if unschedulable
        then return tt
        else on_error (wrap "Unable to mark the node for uncordon")
            (mark_for_uncordon_after_reboot server n event.node_name)

  -- `completeLifecycleAction`, after the delay that main sets.
  unfoldable pub continue_lifecycle_action : LifecycleDetail → M (Unit {0})
  continue_lifecycle_action detail = do
    tell (sleep (second * pos_part n.complete_lifecycle_action_delay_seconds))
    ask (complete_lifecycle_action detail) server.done

  -- The heartbeats run in a goroutine of their own, if both of their settings are given.
  unfoldable pub begin_heartbeats : LifecycleDetail → M (Unit {0})
  begin_heartbeats detail =
      if is_set n.heartbeat_interval && is_set n.heartbeat_until
      then tell (start_heartbeats detail)
      else return tt

  -- What a drain task does.
  unfoldable pub run_task : DrainTask → InterruptionEvent → M (Unit {0})
  run_task set_spot_itn_taint event =
      on_error (wrap "Unable to taint node with taint")
        (Taints.taint_spot_itn server n event.node_name event.event_id)
  run_task taint_asg_lifecycle event =
      on_error (wrap "Unable to taint node with taint")
        (Taints.taint_asg_lifecycle_termination server n event.node_name event.event_id)
  run_task taint_rebalance event =
      on_error (wrap "Unable to taint node with taint")
        (Taints.taint_rebalance_recommendation server n event.node_name event.event_id)
  run_task uncordon_after_reboot event = uncordon_after_reboot_pre_drain event
  run_task scale_up_and_taint event = do
    scaled ← attempt_returning server.scale_up
    on_error (wrap "Unable to taint node with taint")
        (Taints.taint_rebalance_recommendation server n event.node_name event.event_id)
  run_task queue_taint_spot_itn event = do
    tainted ← attempt (Taints.taint_spot_itn server n event.node_name event.event_id)
    return tt
  run_task queue_taint_rebalance event = do
    tainted ←
        attempt (Taints.taint_rebalance_recommendation server n event.node_name event.event_id)
    return tt
  run_task queue_taint_scheduled event = do
    tainted ← attempt (Taints.taint_scheduled_maintenance server n event.node_name event.event_id)
    return tt
  run_task (queue_delete handle) event = ask (delete_message handle) server.done
  run_task (begin_termination detail) event = do
    begin_heartbeats detail
    tainted ←
        attempt (Taints.taint_asg_lifecycle_termination server n event.node_name event.event_id)
    return tt
  run_task (cancel_heartbeat detail) event = tell (stop_heartbeats detail)
  run_task (end_termination detail handle) event = do
    on_error (wrap "continuing ASG termination lifecycle") (continue_lifecycle_action detail)
    tell (stop_heartbeats detail)
    ask (delete_message handle) server.done
  run_task (end_launch detail handle) event = do
    on_error (wrap "continuing ASG launch lifecycle") (continue_lifecycle_action detail)
    ask (delete_message handle) server.done

  unfoldable pub get_node_name : InterruptionEvent → M String
  get_node_name event =
      if not n.use_provider_id
      then return event.node_name
      else on_error (wrap "parse node name from providerID")
          (get_node_name_from_provider_id server n event.provider_id)

  -- A task that never returns keeps its worker.
  unfoldable pub run_pre_drain_task : DrainTask → String → InterruptionEvent → M (Unit {0})
  run_pre_drain_task task node_name event = do
    result ← attempt_returning (run_task task event)
    tell (emit node_name (if failed result then "PreDrainError" else "PreDrain"))
    tell (node_action "pre-drain" node_name (failed result))

  unfoldable pub run_cancel_drain_task : DrainTask → String → InterruptionEvent → M (Unit {0})
  run_cancel_drain_task task node_name event = do
    result ← attempt_returning (run_task task event)
    tell (emit node_name (if failed result then "CancelDrainError" else "CancelDrain"))

  unfoldable pub run_post_drain_task : DrainTask → String → InterruptionEvent → M (Unit {0})
  run_post_drain_task task node_name event = do
    result ← attempt_returning (run_task task event)
    tell (emit node_name (if failed result then "PostDrainError" else "PostDrain"))
    tell (node_action "post-drain" node_name (failed result))
