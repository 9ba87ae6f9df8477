-- ===== src/Handler/Requests.antt =====
-- Which requests the drain handler makes, from those that the methods of `Node` make.
pub mod DryRun
pub mod CordonOnly
use aws_node_termination_han.Common.{
  ◌≡◌, refl, String, Bool, true, false, not, ◌&&◌, ◌||◌, Option, none, some, if◌then◌else◌, str_eq,
  ℕ,
}
use aws_node_termination_han.Config.{Config}
use aws_node_termination_han.Event.{DrainTask, InterruptionEvent}
use aws_node_termination_han.Kube.{
  Result, ok, err, wrap, is_not_found, Request, emit, node_action, post_webhook, Server, M, return,
  ◌>>=◌, ◌>>◌, attempt, on_error, ask, tell,
}
use aws_node_termination_han.Kube.Trace.{
  Extends, same, more, Extends-trans, Sends, and_then-Sends, >>=-Sends, on_error-Sends, if-Sends,
}
use aws_node_termination_han.Node.{
  mark_with_event_id, is_unschedulable, get_node_name_from_provider_id, get_node_labels, cordon,
}
use aws_node_termination_han.Node.Pods.{fetch_pod_name_list, cordon_and_drain}
use aws_node_termination_han.Node.Taints
use aws_node_termination_han.Node.Reboot.{mark_for_uncordon_after_reboot}
use aws_node_termination_han.Store.{Store, RangeOrder}
use aws_node_termination_han.Handler.{
  failed, is_allowed_kind, run_if_some, uncordon_after_reboot_pre_drain, run_task, get_node_name,
  run_pre_drain_task, run_cancel_drain_task, run_post_drain_task,
}
use aws_node_termination_han.Handler.Drain.{
  allowed_kinds, found_labels, found_pods, found, after_cordon, after_drain, cordon_node,
  cordon_and_drain_node, only_cordons, settle, conclude, drain_found, drain_named, drain_event,
  handle_event,
}
use aws_node_termination_han.Handler.TaskRequests.{
  Keeps, pre_drain-Sends, run_task-Sends, run_pre-Sends, run_cancel-Sends, run_post-Sends,
  get_node_name-Sends,
}

module _ {P : Request → Type 0} (server : Server) (n : Config) (k : Keeps P server n) where
  after_cordon-Sends :
      (node_name : String) (result : Result (Unit {0}))
      → Sends P (after_cordon server n node_name result)
  unfolding after_cordon
  after_cordon-Sends node_name (ok u) = λ h. more (k.emits _ _) (more (k.metrics _ _ _) same)
  after_cordon-Sends node_name (err e) =
      if-Sends (is_not_found e) _ _ (λ _ h. same) (λ _ h. more (k.emits _ _) same)

  cordon_node-Sends : (node_name : String) → Sends P (cordon_node server n node_name)
  unfolding cordon_node
  cordon_node-Sends node_name =
      >>=-Sends (attempt (cordon server n node_name)) (after_cordon server n node_name)
        (k.cordons node_name) (after_cordon-Sends node_name)

  after_drain-Sends :
      (node_name : String) (result : Result (Unit {0}))
      → Sends P (after_drain server n node_name result)
  unfolding after_drain
  after_drain-Sends node_name (ok u) = λ h. more (k.emits _ _) (more (k.metrics _ _ _) same)
  after_drain-Sends node_name (err e) =
      if-Sends (is_not_found e) _ _ (λ _ h. same)
        (λ _ h. more (k.emits _ _) (more (k.metrics _ _ _) same))

  cordon_and_drain_node-Sends :
      (e : InterruptionEvent) (node_name : String)
      → only_cordons n e ≡ false
      → Sends P (cordon_and_drain_node server n node_name)
  unfolding cordon_and_drain_node
  cordon_and_drain_node-Sends e node_name drains =
      >>=-Sends (attempt (cordon_and_drain server n node_name n.emit_kubernetes_events))
        (after_drain server n node_name) (k.drains e node_name drains) (after_drain-Sends node_name)

  conclude-Sends :
      (node_found : Bool) (result : Result (Unit {0})) (node_name : String) (e : InterruptionEvent)
      → Sends P (conclude server n node_found result node_name e)
  unfolding conclude
  conclude-Sends node_found result node_name e =
      >>=-Sends
        (if not (str_eq n.webhook_url "") then tell (post_webhook e.event_id) else return tt) _
        (if-Sends (not (str_eq n.webhook_url "")) _ _ (λ _ h. more (k.hooks _) same) (λ _ h. same))
        λ _.
          >>=-Sends
            (if failed result
              then run_if_some (run_cancel_drain_task server n) e.cancel_drain_task node_name e
              else return tt)
            _
            (if-Sends (failed result) _ _
              (λ _. run_cancel-Sends server n k e.cancel_drain_task node_name e) (λ _ h. same))
            λ _.
              >>=-Sends
                (if not (failed result) || (not node_found && n.delete_sqs_msg_if_node_not_found)
                  then run_if_some (run_post_drain_task server n) e.post_drain_task node_name e
                  else return tt)
                _
                (if-Sends
                  (not (failed result) || (not node_found && n.delete_sqs_msg_if_node_not_found)) _
                  _ (λ _. run_post-Sends server n k e.post_drain_task node_name e) (λ _ h. same))
                λ _.
                  if-Sends
                    (not (failed result) && (n.enable_out_of_service_taint && not n.cordon_only)) _
                    _
                    (λ _.
                      on_error-Sends _ (Taints.taint_out_of_service server n node_name)
                        (k.out_of_service node_name))
                    (λ _ h. same)

  drain_found-Sends :
      (order : RangeOrder) (node_found : Bool) (node_name : String) (p : ℕ) (e : InterruptionEvent)
      (s : Store)
      → Sends P (drain_found server n order node_found node_name p e s)
  unfolding drain_found
  drain_found-Sends order node_found node_name p e s =
      >>=-Sends
        (if only_cordons n e
          then cordon_node server n node_name
          else cordon_and_drain_node server n node_name)
        _
        (if-Sends (only_cordons n e) _ _ (λ _. cordon_node-Sends node_name)
          (cordon_and_drain_node-Sends e node_name))
        λ result.
          >>=-Sends (conclude server n node_found result node_name e) _
            (conclude-Sends node_found result node_name e) λ last h. same

  drain_event-Sends :
      (order : RangeOrder) (node_name : String) (p : ℕ) (s : Store)
      → Sends P (drain_event server n order node_name p s)
  unfolding drain_event
  drain_event-Sends order node_name p s h =
      let labels = get_node_labels server n node_name h in
      let e = found_labels labels.0 (s.heap p) in
      Extends-trans (k.labels node_name h) (
        and_then-Sends
          (run_if_some (run_pre_drain_task server n) e.pre_drain_task node_name e labels.1) _
          (run_pre-Sends server n k e.pre_drain_task node_name e labels.1)
          λ _ h'. Extends-trans (k.pods node_name h') (
            drain_found-Sends order (found labels.0) node_name p
              (found_pods (fetch_pod_name_list server n node_name h').0 e) s
              (fetch_pod_name_list server n node_name h').1))

  drain_named-Sends :
      (order : RangeOrder) (p : ℕ) (s : Store) (name : Result String)
      → Sends P (drain_named server n order p s name)
  unfolding drain_named
  drain_named-Sends order p s (ok node_name) = drain_event-Sends order node_name p s
  drain_named-Sends order p s (err e) = λ h. same

  pub handle_event-Sends :
      (order : RangeOrder) (p : ℕ) (s : Store) → Sends P (handle_event server n order p s)
  unfolding handle_event
  handle_event-Sends order p s =
      if-Sends (not (is_allowed_kind (s.heap p).kind allowed_kinds)) _ _ (λ _ h. same)
        (λ _.
          >>=-Sends (attempt (get_node_name server n (s.heap p))) (drain_named server n order p s)
            (get_node_name-Sends server n k (s.heap p)) (drain_named-Sends order p s))
