-- ===== src/Node.antt =====
-- pkg/node/node.go: fetching a node, cordoning, labels. A method of `Node` takes the settings; the
-- API server is the section's parameter.
pub mod Labels
pub mod Pods
pub mod Taints
pub mod Reboot
pub mod DryRun
pub mod Gentle
use Prim.Native.String
use Prim.Native.Char.{code}
use aws_node_termination_han.Common.{
  ℕ, suc, String, Bool, true, false, not, ◌&&◌, ◌||◌, Option, none, some, List, [], ◌∷◌, ◌==◌,
  if◌then◌else◌, str_eq, lookup, is_some,
}
use aws_node_termination_han.Common.Int.{ℤ, ◌-ℤ◌, ltb_ℤ}
use aws_node_termination_han.Config.{Config}
use aws_node_termination_han.Kube.{
  Error, Result, ok, err, wrap, KubeNode, Pod, NodeSelector, every_node, hostname_in, Request,
  list_nodes, get_node, merge_label, remove_path, list_pods, set_unschedulable, evict_pods,
  run_node_drain, pod_event, Server, M, return, fail, ◌>>=◌, ◌>>◌, attempt, on_error, ask, tell,
}
use aws_node_termination_han.Kube

abbrev pub uncordon_after_reboot_label_val : String
uncordon_after_reboot_label_val = "UncordonAfterReboot"

abbrev pub action_label_key : String
action_label_key = "aws-node-termination-handler/action"

abbrev pub action_label_time_key : String
action_label_time_key = "aws-node-termination-handler/action-time"

abbrev pub event_id_label_key : String
event_id_label_key = "aws-node-termination-handler/event-id"

abbrev pub exclude_from_load_balancers_label_key : String
exclude_from_load_balancers_label_key = "node.kubernetes.io/exclude-from-external-load-balancers"

abbrev pub exclude_from_load_balancers_label_value : String
exclude_from_load_balancers_label_value = "aws-node-termination-handler"

-- `&corev1.Node{ObjectMeta: metav1.ObjectMeta{Name: nodeName}, ...}`
abbrev pub blank_node : String → KubeNode
blank_node name = record {
  name = name;
  labels = [];
  annotations = [];
  unschedulable = false;
  taints = [];
  provider_id = "";
  conditions = [];
  deleting = false;
}

-- `strings.Split(nodeName, ".")[0]`
unfoldable pub short_node_name : String → String
short_node_name String.[] = String.[]
short_node_name (String.◌∷◌ c s) =
    if code c == b'.' then String.[] else String.◌∷◌ c (short_node_name s)

-- `strings.Replace(value, from, to, -1)` where `from` is one character
unfoldable pub replace_char : ℕ → String → String → String
replace_char from to String.[] = String.[]
replace_char from to (String.◌∷◌ c s) =
    if code c == from
    then Prim.Native.String.◌++◌ to (replace_char from to s)
    else String.◌∷◌ c (replace_char from to s)

unfoldable pub json_patch_escape : String → String
json_patch_escape value = replace_char b'/' "~1" (replace_char b'~' "~0" value)

unfoldable pub label_path : String → String
label_path key = Prim.Native.String.◌++◌ "/metadata/labels/" (json_patch_escape key)

-- `!ok || val == matchValue`
abbrev pub keeps_label : Option String → String → Bool
keeps_label none match_value = true
keeps_label (some val) match_value = str_eq val match_value

module _ (server : Server) (n : Config) where
  -- `&matchingNodes.Items[0]`, or the direct lookup if the list failed or is empty.
  unfoldable pub first_match : String → Result (List KubeNode) → M KubeNode
  first_match node_name (ok (node ∷ _)) = return node
  first_match node_name _ = ask (get_node node_name) server.node

  -- The node by its hostname label, or else by its name; in a dry run a blank node.
  unfoldable pub fetch_kubernetes_node : String → M KubeNode
  fetch_kubernetes_node node_name = if n.dry_run then return (blank_node node_name) else do
    matching_nodes ←
        attempt (ask (list_nodes (hostname_in node_name (short_node_name node_name))) server.nodes)
    first_match node_name matching_nodes

  -- With `skip_existing` a label that is there stays.
  unfoldable pub add_label : String → String → String → Bool → M (Unit {0})
  add_label node_name key value skip_existing = do
    node ← fetch_kubernetes_node node_name
    if skip_existing && is_some (lookup key node.labels)
        then return tt
        else if n.dry_run
        then return tt
        else on_error (wrap "node Patch failed when adding a label to the node")
            (ask (merge_label node.name key value) server.done)

  unfoldable pub remove_label : String → String → M (Unit {0})
  remove_label node_name key = do
    node ← fetch_kubernetes_node node_name
    if n.dry_run
        then return tt
        else on_error (wrap "node Patch failed when removing a label from the node")
            (ask (remove_path node.name (label_path key)) server.done)

  unfoldable pub remove_label_if_value_matches : String → String → String → M (Unit {0})
  remove_label_if_value_matches node_name key match_value = do
    node ← fetch_kubernetes_node node_name
    if keeps_label (lookup key node.labels) match_value
        then return tt
        else if n.dry_run
        then return tt
        else on_error (wrap "node Patch failed when removing a label from the node")
            (ask (remove_path node.name (label_path key)) server.done)

  unfoldable pub remove_labels : String → List String → M (Unit {0})
  remove_labels node_name [] = return tt
  remove_labels node_name (label ∷ labels) = do
    on_error (wrap "Unable to remove label from node") (remove_label node_name label)
    remove_labels node_name labels

  unfoldable pub remove_nth_labels : String → M (Unit {0})
  remove_nth_labels node_name = do
    remove_labels node_name (event_id_label_key ∷ action_label_key ∷ action_label_time_key ∷ [])
    on_error (wrap "Unable to remove label from node") (
        remove_label_if_value_matches node_name exclude_from_load_balancers_label_key
          exclude_from_load_balancers_label_value)

  unfoldable pub mark_with_event_id : String → String → M (Unit {0})
  mark_with_event_id node_name event_id =
      on_error (wrap "Unable to label node with event ID")
        (add_label node_name event_id_label_key event_id false)

  unfoldable pub maybe_mark_for_exclusion_from_load_balancers : String → M (Unit {0})
  maybe_mark_for_exclusion_from_load_balancers node_name =
      if not n.exclude_from_load_balancers
      then return tt
      else on_error (wrap "Unable to label node for exclusion from load balancers") (
          add_label node_name exclude_from_load_balancers_label_key
            exclude_from_load_balancers_label_value true)

  -- A dry run excuses a missing label.
  abbrev event_id_of : Option String → M String
  event_id_of (some val) = return val
  event_id_of none =
      if n.dry_run then return "" else fail (Error.new "Event ID Label was not found on the node")

  unfoldable pub get_event_id : String → M String
  get_event_id node_name = do
    node ←
        on_error (wrap "Could not get event ID label from node") (fetch_kubernetes_node node_name)
    event_id_of (lookup event_id_label_key node.labels)

  unfoldable pub get_node_labels : String → M (List (String × String))
  get_node_labels node_name =
      if n.dry_run then return [] else do node ← fetch_kubernetes_node node_name; return node.labels

  unfoldable pub is_labeled_with_action : String → M Bool
  is_labeled_with_action node_name = do
    node ←
        on_error (wrap "Unable to fetch kubernetes node from API") (fetch_kubernetes_node node_name)
    return (
        is_some (lookup action_label_key node.labels)
        && is_some (lookup event_id_label_key node.labels))

  -- The hostname label, which the code looks up under a key that ends in `=`, or the name.
  abbrev name_of : Option String → KubeNode → String
  name_of (some hostname) node = hostname
  name_of none node = node.name

  unfoldable pub node_with_provider_id : String → List KubeNode → M String
  node_with_provider_id provider_id [] =
      fail (Error.new "Node with ProviderID was not found in the cluster")
  node_with_provider_id provider_id (node ∷ nodes) =
      if str_eq node.provider_id provider_id
      then return (name_of (lookup "kubernetes.io/hostname=" node.labels) node)
      else node_with_provider_id provider_id nodes

  unfoldable pub get_node_name_from_provider_id : String → M String
  get_node_name_from_provider_id provider_id = if n.dry_run then return "" else do
    nodes ← ask (list_nodes every_node) server.nodes
    node_with_provider_id provider_id nodes

  -- Cordoning and uncordoning.
  unfoldable pub cordon : String → M (Unit {0})
  cordon node_name =
      if n.dry_run
      then return tt
      else do node ← fetch_kubernetes_node node_name; ask (set_unschedulable node true) server.done

  unfoldable pub uncordon : String → M (Unit {0})
  uncordon node_name = if n.dry_run then return tt else do
    node ←
        on_error (wrap "There was an error fetching the node in preparation for uncordoning")
          (fetch_kubernetes_node node_name)
    ask (set_unschedulable node false) server.done

  unfoldable pub is_unschedulable : String → M Bool
  is_unschedulable node_name =
      if n.dry_run
      then return false
      else do node ← fetch_kubernetes_node node_name; return node.unschedulable
