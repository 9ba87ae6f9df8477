-- ===== src/Node/Taints.antt =====
-- pkg/node/node.go: taints, which are written back with the whole node and retried on a conflict.
pub mod Deadline
pub mod Loop
pub mod RoundTrip
use Prim.Native.String.{len, slice}
use aws_node_termination_han.Common.{
  ℕ, zero, suc, String, Bool, true, false, not, ◌||◌, Option, none, some, List, [], ◌∷◌, ◌++◌, ltb,
  ◌==◌, if◌then◌else◌, str_eq, any, select, length,
}
use aws_node_termination_han.Common.Int.{ℤ, ◌+ℤ◌, ltb_ℤ}
use aws_node_termination_han.Config.{Config}
use aws_node_termination_han.Kube.{
  Error, Result, ok, err, wrap, is_conflict, TaintEffect, prefer_no_schedule, no_execute,
  no_schedule, Taint, KubeNode, get_node, update_node, sleep, Server, M, return, fail, ◌>>=◌, ◌>>◌,
  attempt, on_error, ask, tell, now,
}
use aws_node_termination_han.Node.{fetch_kubernetes_node}

abbrev pub spot_interruption_taint : String
spot_interruption_taint = "aws-node-termination-handler/spot-itn"

abbrev pub scheduled_maintenance_taint : String
scheduled_maintenance_taint = "aws-node-termination-handler/scheduled-maintenance"

abbrev pub asg_lifecycle_termination_taint : String
asg_lifecycle_termination_taint = "aws-node-termination-handler/asg-lifecycle-termination"

abbrev pub rebalance_recommendation_taint : String
rebalance_recommendation_taint = "aws-node-termination-handler/rebalance-recommendation"

-- 5 seconds and 750 milliseconds, in nanoseconds
abbrev pub max_retry_deadline : ℕ
max_retry_deadline = 5_000_000_000

abbrev pub conflict_retry_interval : ℕ
conflict_retry_interval = 750_000_000

unfoldable pub get_taint_effect : String → TaintEffect
get_taint_effect effect =
    if str_eq effect "PreferNoSchedule"
    then prefer_no_schedule
    else if str_eq effect "NoExecute"
    then no_execute
    else no_schedule

abbrev pub has_taint : String → List Taint → Bool
has_taint taint_key = any (λ taint. str_eq taint.key taint_key)

-- `none`: the key is there already, and the node stays as it is.
unfoldable pub add_taint_to_spec : String → String → TaintEffect → KubeNode → Option KubeNode
add_taint_to_spec taint_key taint_value effect node =
    if has_taint taint_key node.taints
    then none
    else some (record node {
      taints = node.taints ++ record { key = taint_key; value = taint_value; effect = effect } ∷ [];
    })

-- The other direction: `none` if no taint has the key.
unfoldable pub drop_taint_from_spec : String → KubeNode → Option KubeNode
drop_taint_from_spec taint_key node =
    let new_taints = select (λ taint. not (str_eq taint.key taint_key)) node.taints in
    if length new_taints == length node.taints
    then none
    else some (record node { taints = new_taints })

-- Values of taints have at most 63 bytes.
unfoldable pub taint_value_of : String → String
taint_value_of event_id = if ltb 63 (len event_id) then slice event_id 0 63 else event_id

-- The loop of `addTaint` and of `removeTaint`. `edit` is what they do to the node, `none` if
-- there is nothing to do; the answer says whether an update went through. A stale node is read
-- again before the loop gives up, and an update that meets a conflict is repeated on a fresh
-- node until the deadline.
module _ (server : Server) (edit : KubeNode → Option KubeNode) (get_error : Error → Error)
    (name : String) (retry_deadline : ℤ) where
  -- Whether a conflict leaves time for another round, which starts after a pause.
  unfoldable pub before_deadline : (Bool → KubeNode → M Bool) → KubeNode → Error → ℤ → M Bool
  before_deadline again fresh e time =
      if ltb_ℤ time retry_deadline
      then (do tell (sleep conflict_retry_interval); again true fresh)
      else fail e

  unfoldable pub after_update : (Bool → KubeNode → M Bool) → KubeNode → Result (Unit {0}) → M Bool
  after_update again fresh (ok _) = return true
  after_update again fresh (err e) =
      if is_conflict e then now server >>= before_deadline again fresh e else fail e

  unfoldable pub after_edit :
      (Bool → KubeNode → M Bool) → Bool → KubeNode → Option KubeNode → M Bool
  after_edit again refresh fresh none = if not refresh then again true fresh else return false
  after_edit again refresh fresh (some edited) = do
    updated ← attempt (do ask (update_node edited) server.done)
    after_update again edited updated

  unfoldable pub update_loop : ℕ → Bool → KubeNode → M Bool
  update_loop zero refresh fresh = fail Error.out_of_fuel
  update_loop (suc fuel) refresh fresh = do
    node ← if refresh then on_error get_error (ask (get_node name) server.node) else return fresh
    after_edit (update_loop fuel) refresh node (edit node)

-- Rounds of the loop: a second look, at most seven conflicts before the deadline, and the last try.
abbrev pub max_rounds : ℕ
max_rounds = 9

module _ (server : Server) (n : Config) where
  unfoldable pub add_taint : KubeNode → String → String → String → M (Unit {0})
  add_taint node taint_key taint_value effect_type = if n.dry_run then return tt else do
    time ← now server
    updated ←
        update_loop server (add_taint_to_spec taint_key taint_value (get_taint_effect effect_type))
          (wrap "failed to get node") node.name (time +ℤ ℤ.pos max_retry_deadline) max_rounds false
          node
    return tt

  unfoldable pub remove_taint : KubeNode → String → M Bool
  remove_taint node taint_key = do
    time ← now server
    update_loop server (drop_taint_from_spec taint_key) (λ _. Error.new "failed to get node")
        node.name (time +ℤ ℤ.pos max_retry_deadline) max_rounds false node

  unfoldable pub taint_with : String → String → String → M (Unit {0})
  taint_with taint_key node_name event_id = if not n.taint_node then return tt else do
    k8s_node ←
        on_error (wrap "Unable to fetch kubernetes node from API")
          (fetch_kubernetes_node server n node_name)
    add_taint k8s_node taint_key (taint_value_of event_id) n.taint_effect

  unfoldable pub taint_spot_itn : String → String → M (Unit {0})
  taint_spot_itn = taint_with spot_interruption_taint

  unfoldable pub taint_asg_lifecycle_termination : String → String → M (Unit {0})
  taint_asg_lifecycle_termination = taint_with asg_lifecycle_termination_taint

  unfoldable pub taint_rebalance_recommendation : String → String → M (Unit {0})
  taint_rebalance_recommendation = taint_with rebalance_recommendation_taint

  unfoldable pub taint_scheduled_maintenance : String → String → M (Unit {0})
  taint_scheduled_maintenance = taint_with scheduled_maintenance_taint

  unfoldable pub taint_out_of_service : String → M (Unit {0})
  taint_out_of_service node_name =
      if not n.enable_out_of_service_taint || n.cordon_only then return tt else do
        k8s_node ←
            on_error (wrap "Unable to fetch kubernetes node from API")
              (fetch_kubernetes_node server n node_name)
        add_taint k8s_node "node.kubernetes.io/out-of-service" "nodeshutdown" "NoExecute"

  unfoldable pub remove_taints : KubeNode → List String → M (Unit {0})
  remove_taints k8s_node [] = return tt
  remove_taints k8s_node (taint ∷ taints) = do
    on_error (λ _. Error.new "Unable to clean taint from node")
        (remove_taint k8s_node taint >>= λ _. return tt)
    remove_taints k8s_node taints

  unfoldable pub remove_nth_taints : String → M (Unit {0})
  remove_nth_taints node_name = if not n.taint_node then return tt else do
    k8s_node ←
        on_error (wrap "Unable to fetch kubernetes node from API")
          (fetch_kubernetes_node server n node_name)
    remove_taints k8s_node (
        spot_interruption_taint ∷ scheduled_maintenance_taint ∷ asg_lifecycle_termination_taint
        ∷ rebalance_recommendation_taint ∷ [])
