-- ===== src/Node/Pods.antt =====
-- pkg/node/node.go: the pods of a node, and draining it.
use aws_node_termination_han.Common.{
  String, Bool, not, Option, none, some, List, [], ◌∷◌, map, if◌then◌else◌, str_eq, any, select,
}
use aws_node_termination_han.Config.{Config}
use aws_node_termination_han.Kube.{
  Result, ok, err, Pod, list_pods, evict_pods, run_node_drain, pod_event, Server, M, return, ◌>>=◌,
  ◌>>◌, attempt, ask, tell, lift,
}
use aws_node_termination_han.Node.{
  fetch_kubernetes_node, maybe_mark_for_exclusion_from_load_balancers, cordon,
}

unfoldable pub is_daemon_set_pod : Pod → Bool
is_daemon_set_pod pod = any (λ kind. str_eq kind "DaemonSet") pod.owner_kinds

unfoldable pub filter_out_daemon_set_pods : Config → List Pod → List Pod
filter_out_daemon_set_pods n pods =
    if not n.ignore_daemon_sets then pods else select (λ pod. not (is_daemon_set_pod pod)) pods

-- One `AnnotatedEventf` for each pod.
unfoldable pub announce : String → List Pod → M (Unit {0})
announce node_name [] = return tt
announce node_name (pod ∷ pods) = do
  tell (pod_event pod.name pod.namespace node_name)
  announce node_name pods

module _ (server : Server) (n : Config) where
  unfoldable pub fetch_all_pods : String → M (List Pod)
  fetch_all_pods node_name =
      if n.dry_run
      then return []
      else ask (list_pods node_name n.use_apiserver_cache_to_list_pods) server.pods

  unfoldable pub fetch_pod_name_list : String → M (List String)
  fetch_pod_name_list node_name = do
    pods ← fetch_all_pods node_name
    return (map (λ pod. pod.name) pods)

  -- The variables `pods` and `err` after the block that announces the evictions.
  unfoldable pub pods_for_recorder :
      Bool → String → String → M (Option (List Pod) × Result (Unit {0}))
  pods_for_recorder recorder node_name k8s_name = if not recorder then return (none, ok tt) else do
    listed ← attempt (fetch_all_pods k8s_name)
    elim listed [
      | ok pods ↦ do announce node_name pods; return (some pods, ok tt)
      | err e ↦ λ h. (ok (server.pods_beside_error h, err e), h)
    ]

  -- `DeleteOrEvictPods` if there is a list of pods; otherwise `err` stays what it was.
  unfoldable pub evict_listed : Option (List Pod) × Result (Unit {0}) → M (Unit {0})
  evict_listed (some pods, _) = ask (evict_pods (filter_out_daemon_set_pods n pods)) server.done
  evict_listed (none, e) = lift e

  unfoldable pub cordon_and_drain : String → Bool → M (Unit {0})
  cordon_and_drain node_name recorder = if n.dry_run then return tt else do
    maybe_mark_for_exclusion_from_load_balancers server n node_name
    cordon server n node_name
    node ← fetch_kubernetes_node server n node_name
    pods ← pods_for_recorder recorder node_name node.name
    if n.use_apiserver_cache_to_list_pods
        then evict_listed pods
        else ask (run_node_drain node.name) server.done
