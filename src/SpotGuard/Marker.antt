-- ===== src/SpotGuard/Marker.antt =====
-- pkg/spotguard/self_monitor.go: what the self monitor keeps in the annotations of its own node, and
-- how it learns whether the node is terminating.
pub mod Restart
use Prim.Native.Char.{code}
use aws_node_termination_han.Common.{
  ℕ, String, Bool, true, false, ◌==◌, Option, none, some, if◌then◌else◌, lookup, insert, erase,
  is_some,
}
use aws_node_termination_han.Common.Int.{ℤ}
use aws_node_termination_han.Config.{Config}
use aws_node_termination_han.Kube.{
  wrap, Result, ok, err, get_node, update_node, KubeNode, Server, M, return, ◌>>=◌, ◌>>◌, attempt,
  on_error, ask, now,
}
use aws_node_termination_han.Std.{Std}

abbrev pub start_time_annotation : String
start_time_annotation = "spot-guard.aws.amazon.com/on-demand-start-time"

abbrev pub spot_asg_annotation : String
spot_asg_annotation = "spot-guard.aws.amazon.com/spot-asg-name"

abbrev pub on_demand_asg_annotation : String
on_demand_asg_annotation = "spot-guard.aws.amazon.com/on-demand-asg-name"

abbrev pub scale_down_done_annotation : String
scale_down_done_annotation = "spot-guard.aws.amazon.com/scale-down-completed"

abbrev pub annotated : String → String → KubeNode → KubeNode
annotated key value node = record node { annotations = insert key value node.annotations }

abbrev pub unmarked : KubeNode → KubeNode
unmarked node = record node { annotations = erase scale_down_done_annotation node.annotations }

-- What follows the last `/`, and nothing if there is none.
unfoldable pub after_slash : String → Option String
after_slash String.[] = none
after_slash (String.◌∷◌ c s) =
    let rest = after_slash s in
    elim rest [ some part ↦ some part | none ↦ if code c == 47 then some s else none ]

abbrev pub or_empty : Option String → String
or_empty none = ""
or_empty (some s) = s

module _ (std : Std) (server : Server) (n : Config) where
  abbrev pub own_node : M KubeNode
  own_node = ask (get_node n.node_name) server.node

  abbrev pub readable : Result ℤ → Option ℤ
  readable (ok time) = some time
  readable (err e) = none

  -- The start time of the annotation, if it can be read.
  abbrev pub stored_time : KubeNode → Option ℤ
  stored_time node = elim (lookup start_time_annotation node.annotations) [
    | none ↦ none
    | some text ↦ readable (std.rfc3339 text)
  ]

  abbrev pub with_start_time : ℤ → KubeNode → KubeNode
  with_start_time time node = annotated on_demand_asg_annotation n.on_demand_asg_name (
      annotated spot_asg_annotation n.spot_asg_name
        (annotated start_time_annotation (std.rfc3339_text time) node))

  -- An update that fails is only logged.
  abbrev pub create_start_time : KubeNode → M ℤ
  create_start_time node = do
    time ← now server
    updated ← attempt (ask (update_node (with_start_time time node)) server.done)
    return time

  abbrev pub time_or_create : KubeNode → Option ℤ → M ℤ
  time_or_create node (some time) = return time
  time_or_create node none = create_start_time node

  abbrev pub start_time_of : Result KubeNode → M ℤ
  start_time_of (err e) = now server
  start_time_of (ok node) = time_or_create node (stored_time node)

  unfoldable pub get_or_create_start_time : M ℤ
  get_or_create_start_time = attempt own_node >>= start_time_of

  unfoldable pub mark_scale_down_initiated : M (Unit {0})
  mark_scale_down_initiated = do
    node ← on_error (wrap "failed to get node") own_node
    time ← now server
    on_error (wrap "failed to update node annotation") (
        ask (update_node (annotated scale_down_done_annotation (std.rfc3339_text time) node))
          server.done)

  unfoldable pub clear_scale_down_marker : M (Unit {0})
  clear_scale_down_marker = do
    node ← on_error (wrap "failed to get node") own_node
    on_error (wrap "failed to clear node annotation")
        (ask (update_node (unmarked node)) server.done)

  abbrev pub is_marked : Result KubeNode → Bool
  is_marked (err e) = false
  is_marked (ok node) = is_some (lookup scale_down_done_annotation node.annotations)

  unfoldable pub is_scale_down_completed : M Bool
  is_scale_down_completed = attempt own_node >>= λ r. return (is_marked r)

  abbrev pub id_of : Result KubeNode → String
  id_of (err e) = ""
  id_of (ok node) = or_empty (after_slash node.provider_id)

  unfoldable pub get_instance_id : M String
  get_instance_id = attempt own_node >>= λ r. return (id_of r)

  -- Any error of the request counts as a node that is gone.
  abbrev pub is_gone : Result KubeNode → Bool
  is_gone (err e) = true
  is_gone (ok node) = node.deleting

  unfoldable pub is_this_node_terminating : M Bool
  is_this_node_terminating = attempt own_node >>= λ r. return (is_gone r)
