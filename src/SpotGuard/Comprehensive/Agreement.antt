-- ===== src/SpotGuard/Comprehensive/Agreement.antt =====
-- The comprehensive check against the checks that it stands for, `IsSpotASGHealthy`,
-- `AreSpotNodesReady` and `IsSpotCapacityStable`.
use aws_node_termination_han.Common.{
  ◌≡◌, refl, sym, ap, ◌∙◌, String, Bool, true, false, Option, none, some, List, [], ◌∷◌, str_eq,
  str_eq_iff, if◌then◌else◌, any, map, arith, Bool-cases, inl, inr,
}
use aws_node_termination_han.Common.Int.{ℤ}
use aws_node_termination_han.Kube.{
  Request, Result, ok, err, wrap, every_node, list_nodes, describe_asg, read_clock, KubeNode,
  Server, and_then, rethrow, ask, on_error, ◌>>=◌,
}
use aws_node_termination_han.SpotGuard.Comprehensive.{
  SpotAsgHealthStatus, id_or_empty, is_listed_node, listed_nodes, group_status, rated,
  first_spot_group, with_nodes, check_spot_asg_comprehensive,
}
use aws_node_termination_han.SpotGuard.Health.{
  GroupInstance, SpotGroup, Observation, Verdict, extract_instance_id_from_provider_id, has_id,
  is_spot_node, spot_nodes, all_ready, is_spot_asg_healthy, are_spot_nodes_ready, after_group,
  is_spot_capacity_stable,
}

-- What the three checks say of the observation is what the status says.
abbrev pub Agrees : ℤ → Option ℤ → SpotAsgHealthStatus → Observation → Type 0
Agrees stability_duration previous status o =
    (is_spot_asg_healthy o.groups ≡ ok status.is_healthy)
    × (are_spot_nodes_ready o.groups_again o.nodes ≡ ok status.nodes_ready)
    × (is_spot_capacity_stable stability_duration previous o ≡ record {
      is_restored = status.is_stable;
      healthy_since = status.healthy_since;
      failure = none;
    })

-- For an ID that is not empty an instance without one makes no difference.
any-has_id :
    (instances : List GroupInstance) (x : String)
    → str_eq x "" ≡ false
    → any (λ i. str_eq i x) (map id_or_empty instances) ≡ any (has_id x) instances
any-has_id [] x e = refl
any-has_id (i ∷ instances) x e =
    elim (i.instance_id)
      as (λ found.
        (if str_eq (elim found [ none ↦ "" | some f ↦ f ]) x
          then true
          else any (λ j. str_eq j x) (map id_or_empty instances))
        ≡ (if elim found [ none ↦ false | some f ↦ str_eq f x ]
            then true
            else any (has_id x) instances)) [
              | none ↦ ground (arith, any-has_id instances x e, str_eq_iff "" x, str_eq_iff x "")
              | some f ↦ rw (any-has_id instances x e)
            ]

is_listed_node-eq :
    (instances : List GroupInstance) (node : KubeNode)
    → is_listed_node (map id_or_empty instances) node ≡ is_spot_node instances node
is_listed_node-eq instances node =
    let x : String = extract_instance_id_from_provider_id node.provider_id in
    elim (Bool-cases (str_eq x "")) [ inl e ↦ rw e | inr e ↦ rw e (any-has_id instances x e) ]

listed_nodes-eq :
    (instances : List GroupInstance) (nodes : List KubeNode)
    → listed_nodes (map id_or_empty instances) nodes ≡ spot_nodes instances nodes
unfolding listed_nodes spot_nodes
listed_nodes-eq instances [] = refl
listed_nodes-eq instances (node ∷ nodes) =
    rw (is_listed_node-eq instances node, listed_nodes-eq instances nodes)

abbrev verdict_of : SpotAsgHealthStatus → Verdict
verdict_of status = record {
  is_restored = status.is_stable;
  healthy_since = status.healthy_since;
  failure = none;
}

rated-Agrees :
    (d : ℤ) (previous : Option ℤ) (healthy ready : Bool) (ids : List String) (time : ℤ)
    → let status =
        rated d previous
          (record {
            is_healthy = healthy;
            nodes_ready = false;
            is_stable = false;
            instance_ids = ids;
            healthy_since = none;
          })
          ready
          time in
      (healthy ≡ status.is_healthy)
      × (ready ≡ status.nodes_ready)
      × (after_group time d previous (ok healthy) (ok ready) ≡ verdict_of status)
rated-Agrees d previous false ready ids time = (refl, refl, refl)
rated-Agrees d previous true false ids time = (refl, refl, refl)
rated-Agrees d none true true ids time = (refl, refl, refl)
rated-Agrees d (some since) true true ids time = (refl, refl, refl)

-- Without ready nodes nothing is restored.
unready :
    (d time : ℤ) (previous : Option ℤ) (healthy : Bool)
    → after_group time d previous (ok healthy) (ok false)
      ≡ record { is_restored = false; healthy_since = none; failure = none }
unready d time previous true = refl
unready d time previous false = refl

ok-injective : {A : Type 0} {a b : A} → ok a ≡ ok b → a ≡ b
ok-injective e = cc e

module _ (server : Server) (spot_groups : List Request → Result (List SpotGroup))
    (asg_name : String) (d : ℤ) (previous : Option ℤ) where
  seen : Result (List SpotGroup) → Result (List KubeNode) → List Request → Observation
  seen groups nodes h = record {
    groups = groups;
    groups_again = groups;
    nodes = nodes;
    time = server.time (read_clock ∷ h);
  }

  found-Agrees :
      (asg : SpotGroup) (rest : List SpotGroup) (found nodes : List KubeNode) (h : List Request)
      (status : SpotAsgHealthStatus)
      → spot_nodes asg.instances nodes ≡ found
      → (with_nodes server spot_groups d previous (group_status asg) found h).0 ≡ ok status
      → Agrees d previous status (seen (ok (asg ∷ rest)) (ok nodes) h)
  unfolding seen is_spot_asg_healthy are_spot_nodes_ready is_spot_capacity_stable
  found-Agrees asg rest [] nodes h status e run =
      let same = ok-injective run in
      (
        ap (λ (s : SpotAsgHealthStatus). ok s.is_healthy) same,
        rw e (ap (λ (s : SpotAsgHealthStatus). ok s.nodes_ready) same),
        rw e (
            unready d (server.time (read_clock ∷ h)) previous (group_status asg).is_healthy
            ∙ ap verdict_of same),
      )
  found-Agrees asg rest (node ∷ found) nodes h status e run =
      let same = ok-injective run in
      let (healthy, ready, verdict) =
        rated-Agrees d previous (group_status asg).is_healthy (all_ready (node ∷ found))
          (group_status asg).instance_ids (server.time (read_clock ∷ h)) in
      (
        ap ok healthy ∙ ap (λ (s : SpotAsgHealthStatus). ok s.is_healthy) same,
        rw e (ap ok ready ∙ ap (λ (s : SpotAsgHealthStatus). ok s.nodes_ready) same),
        rw e (verdict ∙ ap verdict_of same),
      )

  nodes-Agrees :
      (asg : SpotGroup) (rest : List SpotGroup) (nodes : Result (List KubeNode)) (h : List Request)
      (status : SpotAsgHealthStatus)
      → (and_then (rethrow (wrap "failed to list nodes") (nodes, h)) (λ nodes.
          with_nodes server spot_groups d previous
            (group_status asg)
            (listed_nodes (group_status asg).instance_ids nodes))).0
        ≡ ok status
      → Agrees d previous status (seen (ok (asg ∷ rest)) nodes h)
  nodes-Agrees asg rest (ok nodes) h status run =
      found-Agrees asg rest (listed_nodes (map id_or_empty asg.instances) nodes) nodes h status
        (sym (listed_nodes-eq asg.instances nodes)) run
  nodes-Agrees asg rest (err e) h status run = cc run

  groups-Agrees :
      (groups : Result (List SpotGroup)) (h : List Request) (status : SpotAsgHealthStatus)
      → (and_then (rethrow (wrap "failed to describe ASG") (groups, h)) (λ groups.
          first_spot_group groups >>= λ asg.
          on_error (wrap "failed to list nodes") (ask (list_nodes every_node) server.nodes)
          >>= λ nodes.
              with_nodes server spot_groups d previous
                (group_status asg)
                (listed_nodes (group_status asg).instance_ids nodes))).0
        ≡ ok status
      → Agrees d previous status
          (seen groups (server.nodes (list_nodes every_node ∷ h)) (list_nodes every_node ∷ h))
  unfolding first_spot_group
  groups-Agrees (ok []) h status run = cc run
  groups-Agrees (ok (asg ∷ rest)) h status run =
      nodes-Agrees asg rest (server.nodes (list_nodes every_node ∷ h)) (list_nodes every_node ∷ h)
        status run
  groups-Agrees (err e) h status run = cc run

-- When the comprehensive check returns a status, the three checks that it stands for agree with it on
-- the same answers: on the health of the group, the readiness of its nodes, and on the stability with
-- the time since which capacity is healthy.
pub check_spot_asg_comprehensive-Agrees :
    (server : Server) (spot_groups : List Request → Result (List SpotGroup)) (asg_name : String)
    (stability_duration : ℤ) (previous : Option ℤ) (h : List Request) (status : SpotAsgHealthStatus)
    → (check_spot_asg_comprehensive server spot_groups asg_name stability_duration previous h).0
      ≡ ok status
    → Agrees stability_duration previous status (record {
      groups = spot_groups (describe_asg asg_name ∷ h);
      groups_again = spot_groups (describe_asg asg_name ∷ h);
      nodes = server.nodes (list_nodes every_node ∷ describe_asg asg_name ∷ h);
      time = server.time (read_clock ∷ list_nodes every_node ∷ describe_asg asg_name ∷ h);
    })
unfolding check_spot_asg_comprehensive seen
check_spot_asg_comprehensive-Agrees server spot_groups asg_name d previous h status run =
    groups-Agrees server spot_groups asg_name d previous (spot_groups (describe_asg asg_name ∷ h))
      (describe_asg asg_name ∷ h) status run
