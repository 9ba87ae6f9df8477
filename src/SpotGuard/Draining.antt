-- ===== src/SpotGuard/Draining.antt =====
-- What the safety checks of pkg/spotguard/safety_checker.go promise when they let a node be drained.
use mathlib.Core.List.{Memᴰ}
use mathlib.Core.Path.{subst}
use aws_node_termination_han.Common.{
  ℕ, suc, ◌≡◌, ◌≢◌, refl, sym, ap, ◌∙◌, String, Bool, true, false, not, List, [], ◌∷◌,
  if◌then◌else◌, str_eq, str_eq_refl, ◌++◌, any-Mem, Mem-any, Mem-cases, Bool-cases, arith, ◌⊎◌,
  inl, inr,
}
use aws_node_termination_han.Common.Int.{ℤ, ◌+ℤ◌, ◌-ℤ◌, ◌≤ℤ◌, leb_ℤ, ltb_ℤ, +ℤ_parts, eq_of_parts}
use aws_node_termination_han.Kube.{Result, ok, err}
use aws_node_termination_han.SpotGuard.Safety.{
  Workload, ClusterNode, DisruptionBudget, ClusterView, is_owned_by_daemon_set, is_ready,
  sum_requests, sum_running, sum_allocatable, pod_fits_on_node, suits, can_pod_schedule_elsewhere,
  is_violated, would_violate_pdb, check_pods, Floats, higher, has_buffer,
  has_cluster_capacity_buffer, can_safely_drain_node, drains_safely,
}

-- What the containers of a pod, or several of them, request in all.
unfoldable pub requested : List (ℤ × ℤ) → ℤ × ℤ
requested [] = (ℤ.pos 0, ℤ.pos 0)
requested ((cpu, memory) ∷ rest) = let (c, m) = requested rest in (cpu +ℤ c, memory +ℤ m)

-- What the running pods of a list request, and what the ready nodes of a list have.
unfoldable pub running : List Workload → List (ℤ × ℤ)
running [] = []
running (pod ∷ pods) =
    if str_eq pod.phase "Running" then pod.requests ++ running pods else running pods

unfoldable pub allocatable : List ClusterNode → List (ℤ × ℤ)
allocatable [] = []
allocatable (node ∷ nodes) =
    if is_ready node.conditions
    then (node.allocatable_cpu, node.allocatable_memory) ∷ allocatable nodes
    else allocatable nodes

-- The pod alone would fit on the empty node.
abbrev pub Fits : Workload → ClusterNode → Type 0
Fits pod node =
    ((requested pod.requests).0 ≤ℤ node.allocatable_cpu)
    × ((requested pod.requests).1 ≤ℤ node.allocatable_memory)

+ℤ_assoc : (a b c : ℤ) → (a +ℤ b) +ℤ c ≡ a +ℤ (b +ℤ c)
+ℤ_assoc a b c =
    eq_of_parts ((a +ℤ b) +ℤ c) (a +ℤ (b +ℤ c))
      (omega (arith, +ℤ_parts a b, +ℤ_parts (a +ℤ b) c, +ℤ_parts b c, +ℤ_parts a (b +ℤ c)))

+ℤ_zero : (a : ℤ) → a +ℤ ℤ.pos 0 ≡ a
+ℤ_zero a = eq_of_parts (a +ℤ ℤ.pos 0) a (omega (arith, +ℤ_parts a (ℤ.pos 0)))

zero_+ℤ : (a : ℤ) → ℤ.pos 0 +ℤ a ≡ a
zero_+ℤ a = eq_of_parts (ℤ.pos 0 +ℤ a) a (omega (arith, +ℤ_parts (ℤ.pos 0) a))

pair_eq : {a b c d : ℤ} → a ≡ c → b ≡ d → Path (ℤ × ℤ) (a, b) (c, d)
pair_eq e f i = (e i, f i)

requested-append :
    (r l : List (ℤ × ℤ))
    → ((requested (r ++ l)).0 ≡ (requested r).0 +ℤ (requested l).0)
      × ((requested (r ++ l)).1 ≡ (requested r).1 +ℤ (requested l).1)
unfolding requested
requested-append [] l = (sym (zero_+ℤ (requested l).0), sym (zero_+ℤ (requested l).1))
requested-append ((c, m) ∷ r) l =
    let (e, f) = requested-append r l in
    (
      ap (λ x. c +ℤ x) e ∙ sym (+ℤ_assoc c (requested r).0 (requested l).0),
      ap (λ x. m +ℤ x) f ∙ sym (+ℤ_assoc m (requested r).1 (requested l).1),
    )

sum_requests_lem :
    (r : List (ℤ × ℤ)) (cpu memory : ℤ)
    → sum_requests r cpu memory ≡ (cpu +ℤ (requested r).0, memory +ℤ (requested r).1)
unfolding sum_requests requested
sum_requests_lem [] cpu memory = pair_eq (sym (+ℤ_zero cpu)) (sym (+ℤ_zero memory))
sum_requests_lem ((c, m) ∷ r) cpu memory =
    sum_requests_lem r (cpu +ℤ c) (memory +ℤ m)
    ∙ pair_eq (+ℤ_assoc cpu c (requested r).0) (+ℤ_assoc memory m (requested r).1)

-- The same from nothing.
sum_requests-requested : (r : List (ℤ × ℤ)) → sum_requests r (ℤ.pos 0) (ℤ.pos 0) ≡ requested r
sum_requests-requested r =
    sum_requests_lem r (ℤ.pos 0) (ℤ.pos 0)
    ∙ pair_eq (zero_+ℤ (requested r).0) (zero_+ℤ (requested r).1)

sum_running_lem :
    (pods : List Workload) (cpu memory : ℤ)
    → sum_running pods cpu memory
      ≡ (cpu +ℤ (requested (running pods)).0, memory +ℤ (requested (running pods)).1)
unfolding sum_running requested running
sum_running_lem [] cpu memory = pair_eq (sym (+ℤ_zero cpu)) (sym (+ℤ_zero memory))
sum_running_lem (pod ∷ pods) cpu memory = elim (Bool-cases (str_eq pod.phase "Running")) [
  | inr idle ↦ rw idle (sum_running_lem pods cpu memory)
  | inl runs ↦
      let (e, f) = requested-append pod.requests (running pods) in
      let r = requested pod.requests in
      let l = requested (running pods) in
      rw (runs, sum_requests_lem pod.requests cpu memory)
        (sum_running_lem pods (cpu +ℤ r.0) (memory +ℤ r.1)
          ∙ pair_eq (+ℤ_assoc cpu r.0 l.0 ∙ ap (λ x. cpu +ℤ x) (sym e))
              (+ℤ_assoc memory r.1 l.1 ∙ ap (λ x. memory +ℤ x) (sym f)))
]

sum_allocatable_lem :
    (nodes : List ClusterNode) (cpu memory : ℤ)
    → sum_allocatable nodes cpu memory
      ≡ (cpu +ℤ (requested (allocatable nodes)).0, memory +ℤ (requested (allocatable nodes)).1)
unfolding sum_allocatable requested allocatable
sum_allocatable_lem [] cpu memory = pair_eq (sym (+ℤ_zero cpu)) (sym (+ℤ_zero memory))
sum_allocatable_lem (node ∷ nodes) cpu memory = elim (Bool-cases (is_ready node.conditions)) [
  | inr down ↦ rw down (sum_allocatable_lem nodes cpu memory)
  | inl up ↦
      let r = requested (allocatable nodes) in
      rw up (
        sum_allocatable_lem nodes (cpu +ℤ node.allocatable_cpu) (memory +ℤ node.allocatable_memory)
        ∙ pair_eq (+ℤ_assoc cpu node.allocatable_cpu r.0)
            (+ℤ_assoc memory node.allocatable_memory r.1))
]

fits_of :
    (node : ClusterNode) (cpu memory : ℤ)
    → (if ltb_ℤ node.allocatable_cpu cpu then false else not (ltb_ℤ node.allocatable_memory memory))
      ≡ true
    → (cpu ≤ℤ node.allocatable_cpu) × (memory ≤ℤ node.allocatable_memory)
fits_of node cpu memory e = ground (arith, e)

Fits_lem : (pod : Workload) (node : ClusterNode) → pod_fits_on_node pod node ≡ true → Fits pod node
unfolding pod_fits_on_node
Fits_lem pod node e =
    fits_of node (requested pod.requests).0 (requested pod.requests).1
      (rw (sum_requests-requested pod.requests) at e)

-- Another node of the answer is ready, schedulable and large enough.
abbrev pub Placed : Result (List ClusterNode) → Workload → String → Type 0
Placed answer pod node_name =
    (nodes : List ClusterNode) × (answer ≡ ok nodes)
    × ((node : ClusterNode) × Memᴰ node nodes
        × (node.name ≢ node_name)
        × (node.unschedulable ≡ false)
        × (is_ready node.conditions ≡ true)
        × Fits pod node)

-- Every listed budget whose selector matches the pod allows a disruption.
abbrev pub Permitted : Result (List DisruptionBudget) → Workload → Type 0
Permitted answer pod =
    (budgets : List DisruptionBudget) (budget : DisruptionBudget) (matches : Workload → Bool)
    → answer ≡ ok budgets
    → Memᴰ budget budgets
    → budget.selector ≡ ok matches
    → matches pod ≡ true
    → ℤ.pos 1 ≤ℤ budget.disruptions_allowed

-- The pod is left to its daemon set, is on its way out, or was found a place and may be evicted.
abbrev pub IsSafe : ClusterView → String → Workload → Type 0
IsSafe view node_name pod =
    (is_owned_by_daemon_set pod ≡ true)
    ⊎ ((pod.is_terminating ≡ true)
        ⊎ ((checked : ℕ) × Placed (view.nodes_at checked) pod node_name
            × Permitted (view.budgets_at checked) pod))

-- From the tests of `suits`, in their order.
four :
    (a b c d : Bool)
    → (if a then false else if b then false else if not c then false else d) ≡ true
    → (a ≡ false) × (b ≡ false) × (c ≡ true) × (d ≡ true)
four true b c d e = cc e
four false true c d e = cc e
four false false false d e = cc e
four false false true d e = (refl, refl, refl, e)

Placed_lem :
    (answer : Result (List ClusterNode)) (pod : Workload) (node_name : String)
    → can_pod_schedule_elsewhere answer pod node_name ≡ true
    → Placed answer pod node_name
unfolding can_pod_schedule_elsewhere
Placed_lem (err e) pod node_name t = cc t
Placed_lem (ok nodes) pod node_name t =
    let (node, m, s) = any-Mem (suits pod node_name) nodes t in
    let (other, schedulable, ready, fits) =
      four (str_eq node.name node_name) node.unschedulable (is_ready node.conditions)
        (pod_fits_on_node pod node) s in
    (
      nodes,
      refl,
      (
        node,
        m,
        λ same. cc (sym other ∙ ap (λ x. str_eq x node_name) same ∙ str_eq_refl node_name),
        schedulable,
        ready,
        Fits_lem pod node fits,
      ),
    )

Permitted_lem :
    (answer : Result (List DisruptionBudget)) (pod : Workload)
    → would_violate_pdb answer pod ≡ false
    → Permitted answer pod
unfolding would_violate_pdb is_violated
Permitted_lem answer pod t budgets budget matches a m s p =
    elim (Bool-cases (leb_ℤ budget.disruptions_allowed (ℤ.pos 0))) [
      | inl none_left ↦
          let violated : is_violated pod budget ≡ true = rw (s, p) none_left in
          cc (
            sym t
            ∙ ap (λ r. would_violate_pdb r pod) a
            ∙ Mem-any (is_violated pod) budgets m violated)
      | inr left ↦ ground (arith, left)
    ]

-- What passing a pod says, by the order of the tests of the loop.
one_pod :
    (daemon terminating placed violated passed_over rest : Bool)
    → (if daemon
        then passed_over
        else if terminating
        then passed_over
        else if not placed
        then false
        else if violated
        then false
        else rest)
      ≡ true
    → (((daemon ≡ true) ⊎ (terminating ≡ true)) × (passed_over ≡ true))
      ⊎ ((placed ≡ true) × (violated ≡ false) × (rest ≡ true))
one_pod true t p v o r e = inl (inl refl, e)
one_pod false true p v o r e = inl (inr refl, e)
one_pod false false false v o r e = cc e
one_pod false false true true o r e = cc e
one_pod false false true false o r e = inr (refl, refl, e)

skipped_IsSafe :
    (view : ClusterView) (node_name : String) (pod : Workload)
    → (is_owned_by_daemon_set pod ≡ true) ⊎ (pod.is_terminating ≡ true)
    → IsSafe view node_name pod
skipped_IsSafe view node_name pod (inl d) = inl d
skipped_IsSafe view node_name pod (inr t) = inr (inl t)

among :
    (view : ClusterView) (node_name : String) (p pod : Workload) (pods : List Workload)
    → Memᴰ pod (p ∷ pods)
    → IsSafe view node_name p
    → (Memᴰ pod pods → IsSafe view node_name pod)
    → IsSafe view node_name pod
among view node_name p pod pods m safe rest = elim (Mem-cases m) [
  | inl e ↦ subst (IsSafe view node_name) (sym e) safe
  | inr r ↦ rest r
]

check_pods_lem :
    (view : ClusterView) (node_name : String) (checked : ℕ) (pods : List Workload)
    → check_pods view node_name checked pods ≡ true
    → (pod : Workload) → Memᴰ pod pods
    → IsSafe view node_name pod
unfolding check_pods
check_pods_lem view node_name checked [] t pod m = elim m [ ]
check_pods_lem view node_name checked (p ∷ pods) t pod m =
    elim (one_pod (is_owned_by_daemon_set p) p.is_terminating
      (can_pod_schedule_elsewhere (view.nodes_at checked) p node_name)
      (would_violate_pdb (view.budgets_at checked) p) _ _ t) [
        | inl skipped ↦
            among view node_name p pod pods m (skipped_IsSafe view node_name p skipped.0)
              (check_pods_lem view node_name checked pods skipped.1 pod)
        | inr tested ↦
            among view node_name p pod pods m
              (inr (
                inr (
                  checked,
                  Placed_lem (view.nodes_at checked) p node_name tested.0,
                  Permitted_lem (view.budgets_at checked) p tested.1,
                )))
              (check_pods_lem view node_name (suc checked) pods tested.2 pod)
      ]

module _ {F : Type 0} (floats : Floats F) (max_utilization : F) where
  -- Part of the resources that are left, in percent.
  abbrev pub Share : ℤ → ℤ → F
  Share used left =
      floats.times (floats.divided (floats.float64 used) (floats.float64 left))
        (floats.float64 (ℤ.pos 100))

  -- What the running pods request, of the resources of the ready nodes less those of the node, is in
  -- percent not above the limit: the memory where its share is the higher one, and else the CPU.
  abbrev pub IsUnloaded : ClusterNode → List ClusterNode → List Workload → Type 0
  IsUnloaded node nodes pods =
      let used = requested (running pods) in
      let total = requested (allocatable nodes) in
      let cpu = Share used.0 (total.0 -ℤ node.allocatable_cpu) in
      let memory = Share used.1 (total.1 -ℤ node.allocatable_memory) in
      (floats.greater memory cpu ≡ true → floats.greater memory max_utilization ≡ false)
      × (floats.greater memory cpu ≡ false → floats.greater cpu max_utilization ≡ false)

  abbrev pub HasBuffer : ClusterView → ClusterNode → Type 0
  HasBuffer view node =
      (nodes : List ClusterNode) × (pods : List Workload) × (view.all_nodes ≡ ok nodes)
      × (view.all_pods ≡ ok pods)
      × IsUnloaded node nodes pods

  unloaded_of :
      (cpu memory : F)
      → not (floats.greater (higher floats max_utilization cpu memory) max_utilization) ≡ true
      → (floats.greater memory cpu ≡ true → floats.greater memory max_utilization ≡ false)
        × (floats.greater memory cpu ≡ false → floats.greater cpu max_utilization ≡ false)
  unloaded_of cpu memory e = elim (Bool-cases (floats.greater memory cpu)) [
    | inl m ↦ (λ _. ground (arith, rw m at e), λ n. cc (sym m ∙ n))
    | inr c ↦ (λ n. cc (sym c ∙ n), λ _. ground (arith, rw c at e))
  ]

  -- The test of the code, on sums.
  abbrev IsBelow : ClusterNode → ℤ × ℤ → ℤ × ℤ → Type 0
  IsBelow node used total =
      not (
        floats.greater
          (higher floats max_utilization (Share used.0 (total.0 -ℤ node.allocatable_cpu))
            (Share used.1 (total.1 -ℤ node.allocatable_memory)))
          max_utilization)
      ≡ true

  buffer_lem :
      (view : ClusterView) (node : ClusterNode) (nodes : Result (List ClusterNode))
      (pods : Result (List Workload))
      → has_buffer floats max_utilization node nodes pods ≡ true
      → (ns : List ClusterNode) × (ps : List Workload) × (nodes ≡ ok ns)
        × (pods ≡ ok ps)
        × IsUnloaded node ns ps
  buffer_lem view node (err x) pods e = cc e
  buffer_lem view node (ok ns) (err x) e = cc e
  buffer_lem view node (ok ns) (ok ps) e =
      let used = requested (running ps) in
      let total = requested (allocatable ns) in
      let all_used : sum_running ps (ℤ.pos 0) (ℤ.pos 0) ≡ used =
        sum_running_lem ps (ℤ.pos 0) (ℤ.pos 0) ∙ pair_eq (zero_+ℤ used.0) (zero_+ℤ used.1) in
      let all_total : sum_allocatable ns (ℤ.pos 0) (ℤ.pos 0) ≡ total =
        sum_allocatable_lem ns (ℤ.pos 0) (ℤ.pos 0) ∙ pair_eq (zero_+ℤ total.0) (zero_+ℤ total.1) in
      let judged : IsBelow node used total =
        subst (λ u. IsBelow node u total) all_used
          (subst (λ x. IsBelow node (sum_running ps (ℤ.pos 0) (ℤ.pos 0)) x) all_total e) in
      (
        ns,
        ps,
        refl,
        refl,
        unloaded_of (Share used.0 (total.0 -ℤ node.allocatable_cpu))
            (Share used.1 (total.1 -ℤ node.allocatable_memory)) judged,
      )

  -- The buffer as the code tests it.
  has_cluster_capacity_buffer-HasBuffer :
      (view : ClusterView) (node : ClusterNode)
      → has_cluster_capacity_buffer floats max_utilization view node ≡ true
      → HasBuffer view node
  unfolding has_cluster_capacity_buffer
  has_cluster_capacity_buffer-HasBuffer view node e =
      buffer_lem view node view.all_nodes view.all_pods e

  abbrev Drained : ClusterView → String → Result ClusterNode → Result (List Workload) → Type 0
  Drained view node_name answer listed =
      (node : ClusterNode) × (pods : List Workload) × (answer ≡ ok node)
      × (listed ≡ ok pods)
      × HasBuffer view node
      × ((pod : Workload) → Memᴰ pod pods → IsSafe view node_name pod)

  drains_safely_lem :
      (view : ClusterView) (node_name : String) (answer : Result ClusterNode)
      (listed : Result (List Workload))
      → drains_safely floats max_utilization view node_name answer listed ≡ true
      → Drained view node_name answer listed
  drains_safely_lem view node_name (err e) listed t = cc t
  drains_safely_lem view node_name (ok node) (err e) t = cc t
  drains_safely_lem view node_name (ok node) (ok pods) t =
      elim (Bool-cases (check_pods view node_name 0 pods)) [
        | inl checked ↦ (
          node,
          pods,
          refl,
          refl,
          has_cluster_capacity_buffer-HasBuffer view node (rw checked at t),
          check_pods_lem view node_name 0 pods checked,
        )
        | inr unchecked ↦ cc (rw unchecked at t)
      ]

  -- A node is only found safe to drain if it and its pods could be read; if what the running pods of the
  -- cluster request, of the resources of its ready nodes less those of this node, is in percent not
  -- above the limit; and if each of the node's pods belongs to a daemon set, is terminating, or requests no
  -- more than another node has that is ready and schedulable, while every listed disruption budget for
  -- it allows a disruption.
  pub can_safely_drain_node_sound :
      (view : ClusterView) (node_name : String)
      → can_safely_drain_node floats max_utilization view node_name ≡ true
      → (node : ClusterNode) × (pods : List Workload) × (view.node ≡ ok node)
        × (view.pods_on_node ≡ ok pods)
        × HasBuffer view node
        × ((pod : Workload) → Memᴰ pod pods → IsSafe view node_name pod)
  unfolding can_safely_drain_node
  can_safely_drain_node_sound view node_name t =
      drains_safely_lem view node_name view.node view.pods_on_node t
