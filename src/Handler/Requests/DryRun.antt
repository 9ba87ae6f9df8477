-- ===== src/Handler/Requests/DryRun.antt =====
-- A dry run of the drain handler.
use aws_node_termination_han.Common.{◌≡◌, refl, true, ℕ, List}
use aws_node_termination_han.Config.{Config}
use aws_node_termination_han.Kube.{Request, Server, M, return}
use aws_node_termination_han.Kube.Trace.{same, Extends, Sends, SparesNodes}
use aws_node_termination_han.Node.DryRun.{
  dry_mark_with_event_id, dry_taint_with, dry_is_unschedulable, dry_mark_for_uncordon_after_reboot,
  dry_get_node_name, dry_get_node_labels, dry_fetch_pod_name_list, dry_cordon, dry_cordon_and_drain,
  dry_taint_out_of_service,
}
use aws_node_termination_han.Store.{Store, RangeOrder}
use aws_node_termination_han.Handler.Drain.{handle_event}
use aws_node_termination_han.Handler.TaskRequests.{Keeps}
use aws_node_termination_han.Handler.Requests.{handle_event-Sends}

-- A run that only returns makes no request.
silent : {A : Type 0} {a : A} (m : M A) → m ≡ return a → Sends SparesNodes m
silent m e h = rw e same

reads :
    (server : Server) (n : Config)
    → Sends SparesNodes server.scale_up
    → n.dry_run ≡ true
    → Keeps SparesNodes server n
reads server n scales dry = record {
  emits = λ a b. refl;
  metrics = λ a b e. refl;
  hooks = λ a. refl;
  scalings = scales;
  pauses = λ d. refl;
  completions = λ d. refl;
  starts = λ d. refl;
  stops = λ d. refl;
  deletions = λ a. refl;
  marks = λ a b. silent _ (dry_mark_with_event_id server n dry a b);
  taints = λ a b c. silent _ (dry_taint_with server n dry a b c);
  looks = λ a. silent _ (dry_is_unschedulable server n dry a);
  reboots = dry_mark_for_uncordon_after_reboot server n dry;
  names = λ a. silent _ (dry_get_node_name server n dry a);
  labels = λ a. silent _ (dry_get_node_labels server n dry a);
  pods = λ a. silent _ (dry_fetch_pod_name_list server n dry a);
  cordons = λ a. silent _ (dry_cordon server n dry a);
  drains = λ e a only. silent _ (dry_cordon_and_drain server n dry a n.emit_kubernetes_events);
  out_of_service = λ a. silent _ (dry_taint_out_of_service server n dry a);
}

-- In a dry run the drain handler, whatever the event, its tasks, the configuration else and the
-- answers of the servers, makes no request that updates, labels, taints or cordons a node or that
-- evicts a pod, if the scaling up of Spot Guard makes none. Requests to the queue, to the scaling
-- groups and for events are not concerned.
pub handle_event-dry_run :
    (server : Server) (n : Config) (order : RangeOrder) (p : ℕ) (s : Store) (h : List Request)
    → Sends SparesNodes server.scale_up
    → n.dry_run ≡ true
    → Extends SparesNodes h (handle_event server n order p s h).1
handle_event-dry_run server n order p s h scales dry =
    handle_event-Sends server n (reads server n scales dry) order p s h
