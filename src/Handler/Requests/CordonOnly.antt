-- ===== src/Handler/Requests/CordonOnly.antt =====
-- The drain handler when it may only cordon.
use aws_node_termination_han.Common.{◌≡◌, refl, true, arith, ℕ, List}
use aws_node_termination_han.Config.{Config}
use aws_node_termination_han.Kube.{Request, Server}
use aws_node_termination_han.Kube.Trace.{Extends, Sends, IsGentle}
use aws_node_termination_han.Node.Gentle.{
  mark_with_event_id-IsGentle, is_unschedulable-IsGentle, get_node_name-IsGentle,
  get_node_labels-IsGentle, fetch_pod_name_list-IsGentle, cordon-IsGentle,
}
use aws_node_termination_han.Node.Gentle.Taints.{
  taint_with-IsGentle, mark_for_uncordon-IsGentle, taint_out_of_service-IsGentle,
}
use aws_node_termination_han.Store.{Store, RangeOrder}
use aws_node_termination_han.Handler.Drain.{only_cordons, handle_event}
use aws_node_termination_han.Handler.TaskRequests.{Keeps}
use aws_node_termination_han.Handler.Requests.{handle_event-Sends}

gentle :
    (server : Server) (n : Config)
    → Sends IsGentle server.scale_up
    → n.cordon_only ≡ true
    → Keeps IsGentle server n
unfolding only_cordons
gentle server n scales only = record {
  emits = λ a b. refl;
  metrics = λ a b e. refl;
  hooks = λ a. refl;
  scalings = scales;
  pauses = λ d. refl;
  completions = λ d. refl;
  starts = λ d. refl;
  stops = λ d. refl;
  deletions = λ a. refl;
  marks = mark_with_event_id-IsGentle server n;
  taints = taint_with-IsGentle server n;
  looks = is_unschedulable-IsGentle server n;
  reboots = mark_for_uncordon-IsGentle server n;
  names = get_node_name-IsGentle server n;
  labels = get_node_labels-IsGentle server n;
  pods = fetch_pod_name_list-IsGentle server n;
  cordons = cordon-IsGentle server n;
  drains = λ e a drains. ground (arith, only, drains);
  out_of_service = taint_out_of_service-IsGentle server n;
}

-- When the handler is configured to cordon only, and the scaling up of Spot Guard evicts no pod, the
-- drain handler asks the eviction API and the node drain for nothing. Its taints are not looked at.
handle_event-cordon_only :
    (server : Server) (n : Config) (order : RangeOrder) (p : ℕ) (s : Store) (h : List Request)
    → Sends IsGentle server.scale_up
    → n.cordon_only ≡ true
    → Extends IsGentle h (handle_event server n order p s h).1
handle_event-cordon_only server n order p s h scales only =
    handle_event-Sends server n (gentle server n scales only) order p s h
