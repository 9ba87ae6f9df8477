-- ===== src/Handler/Launch.antt =====
-- pkg/interruptionevent/asg/launch/handler.go: the handler that waits for a launched node.
use aws_node_termination_han.Common.{
  ℕ, String, Bool, true, false, not, ◌&&◌, List, [], ◌∷◌, if◌then◌else◌, str_eq, select,
}
use aws_node_termination_han.Config.{Config}
use aws_node_termination_han.Event.{InterruptionEvent, asg_launch_lifecycle_kind, str_contains}
use aws_node_termination_han.Kube.{
  Result, ok, err, wrap, KubeNode, every_node, label_is, list_nodes, Server, M, return, ◌>>=◌,
  attempt, on_error, ask,
}
use aws_node_termination_han.Store.{Store, cancel_interruption_event}
use aws_node_termination_han.Handler.{
  is_allowed_kind, get_node_name, run_post_drain_task, run_if_some,
}

abbrev pub instance_id_label : String
instance_id_label = "alpha.eksctl.io/instance-id"

-- `condition.Type == "Ready" && condition.Status != "True"` for some condition
unfoldable pub has_unready : List (String × String) → Bool
has_unready [] = false
has_unready ((kind, status) ∷ conditions) =
    if str_eq kind "Ready" && not (str_eq status "True") then true else has_unready conditions

-- The loop of `isNodeReady` over the nodes.
unfoldable pub all_ready : List KubeNode → Bool
all_ready [] = true
all_ready (node ∷ nodes) = if has_unready node.conditions then false else all_ready nodes

-- No node is no ready node.
unfoldable pub are_ready : List KubeNode → Bool
are_ready [] = false
are_ready (node ∷ nodes) = all_ready (node ∷ nodes)

module _ (server : Server) (n : Config) where
  unfoldable pub get_nodes_with_instance_from_label : String → M (List KubeNode)
  get_nodes_with_instance_from_label instance_id =
      on_error (wrap "list nodes using selector")
        (ask (list_nodes (label_is instance_id_label instance_id)) server.nodes)

  unfoldable pub get_nodes_with_instance_from_provider_id : String → M (List KubeNode)
  get_nodes_with_instance_from_provider_id instance_id = do
    nodes ← on_error (wrap "list all nodes") (ask (list_nodes every_node) server.nodes)
    return (select (λ node. str_contains node.provider_id instance_id) nodes)

  unfoldable pub get_nodes_with_instance_id : String → M (List KubeNode)
  get_nodes_with_instance_id instance_id = do
    nodes ← get_nodes_with_instance_from_label instance_id
    elim nodes [
      | [] ↦ get_nodes_with_instance_from_provider_id instance_id
      | node ∷ rest ↦ return (node ∷ rest)
    ]

  unfoldable pub is_node_ready : String → M Bool
  is_node_ready instance_id = do
    nodes ← on_error (wrap "find node(s) with instanceId") (get_nodes_with_instance_id instance_id)
    return (are_ready nodes)

  -- The node is ready: its name, then the task that completes the launch.
  unfoldable pub complete_launch : InterruptionEvent → M (Unit {0})
  complete_launch e = do
    node_name ← on_error (wrap "get node name for instanceID") (get_node_name server n e)
    run_if_some (run_post_drain_task server n) e.post_drain_task node_name e

  unfoldable pub handle_event : ℕ → Store → M (Result (Unit {0}) × Store)
  handle_event p s =
      if not (is_allowed_kind (s.heap p).kind (asg_launch_lifecycle_kind ∷ []))
      then return (ok tt, s)
      else do
        ready ← attempt (is_node_ready (s.heap p).instance_id)
        elim ready [
          | err e ↦ return (
            err (wrap "check if node is present and ready" e),
            cancel_interruption_event (s.heap p).event_id s,
          )
          | ok false ↦ return (ok tt, cancel_interruption_event (s.heap p).event_id s)
          | ok true ↦ do result ← attempt (complete_launch (s.heap p)); return (result, s)
        ]
