-- ===== src/Handler/TaskRequests.antt =====
-- The requests of the tasks that the drain handler runs, from those of the methods of `Node`.
use aws_node_termination_han.Common.{◌≡◌, String, Bool, false, not, ◌&&◌, Option, none, some, ℕ}
use aws_node_termination_han.Config.{Config}
use aws_node_termination_han.Event.{
  DrainTask, set_spot_itn_taint, taint_asg_lifecycle, taint_rebalance, uncordon_after_reboot,
  scale_up_and_taint, queue_taint_spot_itn, queue_taint_rebalance, queue_taint_scheduled,
  queue_delete, begin_termination, cancel_heartbeat, end_termination, end_launch, LifecycleDetail,
  InterruptionEvent,
}
use aws_node_termination_han.Kube.{
  Request, emit, node_action, complete_lifecycle_action, start_heartbeats, stop_heartbeats,
  delete_message, sleep, post_webhook, Server, wrap, on_error, attempt_returning,
}
use aws_node_termination_han.Kube.Trace.{same, more, Sends, >>=-Sends, on_error-Sends, if-Sends}
use aws_node_termination_han.Node.{
  mark_with_event_id, is_unschedulable, get_node_name_from_provider_id, get_node_labels, cordon,
}
use aws_node_termination_han.Node.Pods.{fetch_pod_name_list, cordon_and_drain}
use aws_node_termination_han.Node.Taints
use aws_node_termination_han.Node.Reboot.{mark_for_uncordon_after_reboot}
use aws_node_termination_han.Handler.{
  run_if_some, is_set, continue_lifecycle_action, begin_heartbeats, uncordon_after_reboot_pre_drain,
  run_task, get_node_name, run_pre_drain_task, run_cancel_drain_task, run_post_drain_task,
}
use aws_node_termination_han.Handler.Drain.{only_cordons}

-- What a class of requests must hold for the handler to keep to it.
pub record Keeps (P : Request → Type 0) (server : Server) (n : Config) : Type 0 where
  pub emits : (a b : String) → P (emit a b)
  pub metrics : (a b : String) (e : Bool) → P (node_action a b e)
  pub hooks : (a : String) → P (post_webhook a)
  pub scalings : Sends P server.scale_up
  pub pauses : (d : ℕ) → P (sleep d)
  pub completions : (d : LifecycleDetail) → P (complete_lifecycle_action d)
  pub starts : (d : LifecycleDetail) → P (start_heartbeats d)
  pub stops : (d : LifecycleDetail) → P (stop_heartbeats d)
  pub deletions : (a : String) → P (delete_message a)
  pub marks : (a b : String) → Sends P (mark_with_event_id server n a b)
  pub taints : (a b c : String) → Sends P (Taints.taint_with server n a b c)
  pub looks : (a : String) → Sends P (is_unschedulable server n a)
  pub reboots : (a : String) → Sends P (mark_for_uncordon_after_reboot server n a)
  pub names : (a : String) → Sends P (get_node_name_from_provider_id server n a)
  pub labels : (a : String) → Sends P (get_node_labels server n a)
  pub pods : (a : String) → Sends P (fetch_pod_name_list server n a)
  pub cordons : (a : String) → Sends P (cordon server n a)
  pub drains :
      (e : InterruptionEvent) (a : String)
      → only_cordons n e ≡ false
      → Sends P (cordon_and_drain server n a n.emit_kubernetes_events)
  pub out_of_service : (a : String) → Sends P (Taints.taint_out_of_service server n a)

module _ {P : Request → Type 0} (server : Server) (n : Config) (k : Keeps P server n) where
  pub pre_drain-Sends :
      (event : InterruptionEvent) → Sends P (uncordon_after_reboot_pre_drain server n event)
  unfolding uncordon_after_reboot_pre_drain Taints.taint_scheduled_maintenance
  pre_drain-Sends event =
      >>=-Sends (on_error _ (mark_with_event_id server n event.node_name event.event_id)) _
        (on_error-Sends _ (mark_with_event_id server n event.node_name event.event_id)
          (k.marks _ _))
        λ _.
          >>=-Sends (on_error _ (Taints.taint_with server n _ event.node_name event.event_id)) _
            (on_error-Sends _ (Taints.taint_with server n _ event.node_name event.event_id)
              (k.taints _ _ _))
            λ _.
              >>=-Sends (on_error _ (is_unschedulable server n event.node_name)) _
                (on_error-Sends _ (is_unschedulable server n event.node_name) (k.looks _))
                λ unschedulable.
                  if-Sends unschedulable _ _ (λ _ h. same)
                    (λ _.
                      on_error-Sends _ (mark_for_uncordon_after_reboot server n event.node_name)
                        (k.reboots _))

  continue-Sends : (detail : LifecycleDetail) → Sends P (continue_lifecycle_action server n detail)
  unfolding continue_lifecycle_action
  continue-Sends detail h = more (k.completions detail) (more (k.pauses _) same)

  begin_heartbeats-Sends : (detail : LifecycleDetail) → Sends P (begin_heartbeats server n detail)
  unfolding begin_heartbeats
  begin_heartbeats-Sends detail =
      if-Sends (is_set n.heartbeat_interval && is_set n.heartbeat_until) _ _
        (λ _ h. more (k.starts detail) same) (λ _ h. same)

  pub run_task-Sends :
      (task : DrainTask) (event : InterruptionEvent) → Sends P (run_task server n task event)
  unfolding run_task Taints.taint_spot_itn Taints.taint_asg_lifecycle_termination
      Taints.taint_rebalance_recommendation Taints.taint_scheduled_maintenance
  run_task-Sends set_spot_itn_taint event =
      on_error-Sends _ (Taints.taint_with server n _ event.node_name event.event_id)
        (k.taints _ _ _)
  run_task-Sends taint_asg_lifecycle event =
      on_error-Sends _ (Taints.taint_with server n _ event.node_name event.event_id)
        (k.taints _ _ _)
  run_task-Sends taint_rebalance event =
      on_error-Sends _ (Taints.taint_with server n _ event.node_name event.event_id)
        (k.taints _ _ _)
  run_task-Sends uncordon_after_reboot event = pre_drain-Sends event
  run_task-Sends scale_up_and_taint event =
      >>=-Sends (attempt_returning server.scale_up) _ k.scalings λ _.
        on_error-Sends (wrap "Unable to taint node with taint")
          (Taints.taint_with server n _ event.node_name event.event_id) (k.taints _ _ _)
  run_task-Sends queue_taint_spot_itn event = λ h. k.taints _ _ _ h
  run_task-Sends queue_taint_rebalance event = λ h. k.taints _ _ _ h
  run_task-Sends queue_taint_scheduled event = λ h. k.taints _ _ _ h
  run_task-Sends (queue_delete handle) event = λ h. more (k.deletions handle) same
  run_task-Sends (begin_termination detail) event =
      >>=-Sends (begin_heartbeats server n detail) _ (begin_heartbeats-Sends detail)
        λ _ h. k.taints _ _ _ h
  run_task-Sends (cancel_heartbeat detail) event = λ h. more (k.stops detail) same
  run_task-Sends (end_termination detail handle) event =
      >>=-Sends (on_error _ (continue_lifecycle_action server n detail)) _
        (on_error-Sends _ (continue_lifecycle_action server n detail) (continue-Sends detail))
        λ _ h. more (k.deletions handle) (more (k.stops detail) same)
  run_task-Sends (end_launch detail handle) event =
      >>=-Sends (on_error _ (continue_lifecycle_action server n detail)) _
        (on_error-Sends _ (continue_lifecycle_action server n detail) (continue-Sends detail))
        λ _ h. more (k.deletions handle) same

  pub run_pre-Sends :
      (o : Option DrainTask) (node_name : String) (event : InterruptionEvent)
      → Sends P (run_if_some (run_pre_drain_task server n) o node_name event)
  unfolding run_pre_drain_task
  run_pre-Sends none node_name event = λ h. same
  run_pre-Sends (some task) node_name event =
      >>=-Sends (attempt_returning (run_task server n task event)) _ (run_task-Sends task event)
        λ result h. more (k.metrics _ _ _) (more (k.emits _ _) same)

  pub run_cancel-Sends :
      (o : Option DrainTask) (node_name : String) (event : InterruptionEvent)
      → Sends P (run_if_some (run_cancel_drain_task server n) o node_name event)
  unfolding run_cancel_drain_task
  run_cancel-Sends none node_name event = λ h. same
  run_cancel-Sends (some task) node_name event =
      >>=-Sends (attempt_returning (run_task server n task event)) _ (run_task-Sends task event)
        λ result h. more (k.emits _ _) same

  pub run_post-Sends :
      (o : Option DrainTask) (node_name : String) (event : InterruptionEvent)
      → Sends P (run_if_some (run_post_drain_task server n) o node_name event)
  unfolding run_post_drain_task
  run_post-Sends none node_name event = λ h. same
  run_post-Sends (some task) node_name event =
      >>=-Sends (attempt_returning (run_task server n task event)) _ (run_task-Sends task event)
        λ result h. more (k.metrics _ _ _) (more (k.emits _ _) same)

  pub get_node_name-Sends : (event : InterruptionEvent) → Sends P (get_node_name server n event)
  unfolding get_node_name
  get_node_name-Sends event =
      if-Sends (not n.use_provider_id) _ _ (λ _ h. same)
        (λ _.
          on_error-Sends _ (get_node_name_from_provider_id server n event.provider_id) (k.names _))
