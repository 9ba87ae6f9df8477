-- ===== src/SpotGuard/Safety.antt =====
-- pkg/spotguard/safety_checker.go: whether an on-demand node may be drained. The API server may answer
-- each call anew; the lists that are read once for each pod have the number of pods already checked
-- as an argument. Reasons, which are only logged, are left out. A resource is a number of
-- milli-cores or of bytes.
use aws_node_termination_han.Common.{
  ℕ, suc, String, Bool, true, false, not, ◌&&◌, ◌||◌, ◌&&◌, List, [], ◌∷◌, if◌then◌else◌, str_eq,
  any,
}
use aws_node_termination_han.Common.Int.{ℤ, ◌+ℤ◌, ◌-ℤ◌, leb_ℤ, ltb_ℤ}
use aws_node_termination_han.Kube.{Result, ok, err}

pub record Workload : Type 0 where
  pub namespace : String
  pub name : String
  pub owner_kinds : List String
  pub is_terminating : Bool
  pub phase : String
  pub requests : List (ℤ × ℤ)  -- CPU and memory, for each container

pub record ClusterNode : Type 0 where
  pub name : String
  pub unschedulable : Bool
  pub conditions : List (String × String)
  pub allocatable_cpu : ℤ
  pub allocatable_memory : ℤ

-- The selector is an error if it cannot be read.
pub record DisruptionBudget : Type 0 where
  pub selector : Result (Workload → Bool)
  pub disruptions_allowed : ℤ

pub record ClusterView : Type 0 where
  pub node : Result ClusterNode
  pub pods_on_node : Result (List Workload)
  pub nodes_at : ℕ → Result (List ClusterNode)
  pub budgets_at : ℕ → Result (List DisruptionBudget)
  pub all_nodes : Result (List ClusterNode)
  pub all_pods : Result (List Workload)

-- The minimum wait is over.
abbrev pub can_scale_down_on_demand : ℤ → ℤ → ℤ → Bool
can_scale_down_on_demand now timestamp minimum_wait_duration =
    not (ltb_ℤ (now -ℤ timestamp) minimum_wait_duration)

unfoldable pub is_owned_by_daemon_set : Workload → Bool
is_owned_by_daemon_set pod = any (λ kind. str_eq kind "DaemonSet") pod.owner_kinds

-- The first condition of the type decides.
unfoldable pub is_ready : List (String × String) → Bool
is_ready [] = false
is_ready ((type_, status) ∷ conditions) =
    let rest = is_ready conditions in if str_eq type_ "Ready" then str_eq status "True" else rest

unfoldable pub sum_requests : List (ℤ × ℤ) → ℤ → ℤ → ℤ × ℤ
sum_requests [] cpu memory = (cpu, memory)
sum_requests ((c, m) ∷ requests) cpu memory = sum_requests requests (cpu +ℤ c) (memory +ℤ m)

-- What other pods take of the node does not count.
unfoldable pub pod_fits_on_node : Workload → ClusterNode → Bool
pod_fits_on_node pod node =
    let (cpu, memory) = sum_requests pod.requests (ℤ.pos 0) (ℤ.pos 0) in
    if ltb_ℤ node.allocatable_cpu cpu then false else not (ltb_ℤ node.allocatable_memory memory)

abbrev pub suits : Workload → String → ClusterNode → Bool
suits pod exclude_node node =
    if str_eq node.name exclude_node
    then false
    else if node.unschedulable
    then false
    else if not (is_ready node.conditions)
    then false
    else pod_fits_on_node pod node

unfoldable pub can_pod_schedule_elsewhere : Result (List ClusterNode) → Workload → String → Bool
can_pod_schedule_elsewhere (err e) pod exclude_node = false
can_pod_schedule_elsewhere (ok nodes) pod exclude_node = any (suits pod exclude_node) nodes

-- A budget whose selector cannot be read is passed over.
unfoldable pub is_violated : Workload → DisruptionBudget → Bool
is_violated pod budget = elim (budget.selector) [
  | err e ↦ false
  | ok matches ↦ if matches pod then leb_ℤ budget.disruptions_allowed (ℤ.pos 0) else false
]

-- Budgets that cannot be listed are taken for none.
unfoldable pub would_violate_pdb : Result (List DisruptionBudget) → Workload → Bool
would_violate_pdb (err e) pod = false
would_violate_pdb (ok budgets) pod = any (is_violated pod) budgets

-- The loop over the pods of the node, after so many that were checked.
unfoldable pub check_pods : ClusterView → String → ℕ → List Workload → Bool
check_pods view node_name checked [] = true
check_pods view node_name checked (pod ∷ pods) =
    let passed_over = check_pods view node_name checked pods in
    let rest = check_pods view node_name (suc checked) pods in
    if is_owned_by_daemon_set pod
    then passed_over
    else if pod.is_terminating
    then passed_over
    else if not (can_pod_schedule_elsewhere (view.nodes_at checked) pod node_name)
    then false
    else if would_violate_pdb (view.budgets_at checked) pod
    then false
    else rest

unfoldable pub sum_allocatable : List ClusterNode → ℤ → ℤ → ℤ × ℤ
sum_allocatable [] cpu memory = (cpu, memory)
sum_allocatable (node ∷ nodes) cpu memory =
    if is_ready node.conditions
    then sum_allocatable nodes (cpu +ℤ node.allocatable_cpu) (memory +ℤ node.allocatable_memory)
    else sum_allocatable nodes cpu memory

unfoldable pub sum_running : List Workload → ℤ → ℤ → ℤ × ℤ
sum_running [] cpu memory = (cpu, memory)
sum_running (pod ∷ pods) cpu memory =
    let (c, m) = sum_requests pod.requests cpu memory in
    if str_eq pod.phase "Running" then sum_running pods c m else sum_running pods cpu memory

unfoldable pub sum_used : List Workload → ℤ → ℤ → ℤ × ℤ
sum_used [] cpu memory = (cpu, memory)
sum_used (pod ∷ pods) cpu memory =
    let (c, m) = sum_requests pod.requests cpu memory in sum_used pods c m

abbrev pub is_zero : ℤ → Bool
is_zero a = leb_ℤ a (ℤ.pos 0) && leb_ℤ (ℤ.pos 0) a

-- Go's floating-point numbers, as parameters: a conversion, `/`, `*` and `>`.
pub record Floats (F : Type 0) : Type 0 where
  pub float64 : ℤ → F
  pub divided : F → F → F
  pub times : F → F → F
  pub greater : F → F → Bool

module _ {F : Type 0} (floats : Floats F) (max_utilization : F) where
  abbrev pub utilization : ℤ → ℤ → F
  utilization used remaining =
      floats.times (floats.divided (floats.float64 used) (floats.float64 remaining))
        (floats.float64 (ℤ.pos 100))

  abbrev pub higher : F → F → F
  higher cpu memory = if floats.greater memory cpu then memory else cpu

  abbrev pub is_too_high : ClusterNode → List ClusterNode → List Workload → Bool
  is_too_high node nodes pods =
      let (total_cpu, total_memory) = sum_allocatable nodes (ℤ.pos 0) (ℤ.pos 0) in
      let (used_cpu, used_memory) = sum_running pods (ℤ.pos 0) (ℤ.pos 0) in
      floats.greater
        (higher (utilization used_cpu (total_cpu -ℤ node.allocatable_cpu))
          (utilization used_memory (total_memory -ℤ node.allocatable_memory)))
        max_utilization

  abbrev pub has_buffer : ClusterNode → Result (List ClusterNode) → Result (List Workload) → Bool
  has_buffer node (err e) pods = false
  has_buffer node (ok nodes) (err e) = false
  has_buffer node (ok nodes) (ok pods) = not (is_too_high node nodes pods)

  unfoldable pub has_cluster_capacity_buffer : ClusterView → ClusterNode → Bool
  has_cluster_capacity_buffer view node = has_buffer node view.all_nodes view.all_pods

  abbrev pub drains_safely :
      ClusterView → String → Result ClusterNode → Result (List Workload) → Bool
  drains_safely view node_name (err e) pods = false
  drains_safely view node_name (ok node) (err e) = false
  drains_safely view node_name (ok node) (ok pods) =
      if check_pods view node_name 0 pods then has_cluster_capacity_buffer view node else false

  unfoldable pub can_safely_drain_node : ClusterView → String → Bool
  can_safely_drain_node view node_name = drains_safely view node_name view.node view.pods_on_node

  abbrev pub utilization_of : List ClusterNode → List Workload → F
  utilization_of nodes pods =
      let (total_cpu, total_memory) = sum_allocatable nodes (ℤ.pos 0) (ℤ.pos 0) in
      let (used_cpu, used_memory) = sum_used pods (ℤ.pos 0) (ℤ.pos 0) in
      if is_zero total_cpu || is_zero total_memory
      then floats.float64 (ℤ.pos 0)
      else higher (utilization used_memory total_memory) (utilization used_cpu total_cpu)

  -- The second list has the running pods; without one of the answers the cluster counts as full.
  unfoldable pub get_cluster_utilization : Result (List ClusterNode) → Result (List Workload) → F
  get_cluster_utilization (err e) pods = floats.float64 (ℤ.pos 100)
  get_cluster_utilization (ok nodes) (err e) = floats.float64 (ℤ.pos 100)
  get_cluster_utilization (ok nodes) (ok pods) = utilization_of nodes pods
