-- ===== src/SpotGuard/Comprehensive.antt =====
-- pkg/spotguard/health_checker.go: `CheckSpotASGComprehensive`, which the self monitor calls. It asks for
-- the group once, for the nodes once, and reads the clock only if the group has nodes.
pub mod Agreement
use aws_node_termination_han.Common.{
  ℕ, String, Bool, true, false, ◌&&◌, ◌||◌, not, Option, none, some, List, [], ◌∷◌, if◌then◌else◌,
  str_eq, any, map,
}
use aws_node_termination_han.Common.Int.{ℤ, ◌-ℤ◌, leb_ℤ}
use aws_node_termination_han.Kube.{
  Request, new, wrap, Result, ok, err, every_node, list_nodes, describe_asg, KubeNode, Server, M,
  return, fail, ◌>>=◌, on_error, ask, now,
}
use aws_node_termination_han.SpotGuard.Health.{
  GroupInstance, SpotGroup, count_in_service, extract_instance_id_from_provider_id, all_ready,
}

pub record SpotAsgHealthStatus : Type 0 where
  pub is_healthy : Bool
  pub nodes_ready : Bool
  pub is_stable : Bool
  pub instance_ids : List String
  pub healthy_since : Option ℤ

-- An instance without an ID counts as one with an empty ID.
abbrev pub id_or_empty : GroupInstance → String
id_or_empty i = elim i.instance_id [ none ↦ "" | some found ↦ found ]

abbrev pub is_listed_node : List String → KubeNode → Bool
is_listed_node instance_ids node =
    let instance_id = extract_instance_id_from_provider_id node.provider_id in
    not (str_eq instance_id "") && any (λ i. str_eq i instance_id) instance_ids

unfoldable pub listed_nodes : List String → List KubeNode → List KubeNode
listed_nodes instance_ids [] = []
listed_nodes instance_ids (node ∷ nodes) =
    let rest = listed_nodes instance_ids nodes in
    if is_listed_node instance_ids node then node ∷ rest else rest

-- The first check: the capacity and the IDs.
abbrev pub group_status : SpotGroup → SpotAsgHealthStatus
group_status asg = record {
  is_healthy = leb_ℤ asg.desired_capacity (count_in_service asg.instances (ℤ.pos 0));
  nodes_ready = false;
  is_stable = false;
  instance_ids = map id_or_empty asg.instances;
  healthy_since = none;
}

-- The third check, at the given time.
abbrev pub stability_of : ℤ → Option ℤ → SpotAsgHealthStatus → ℤ → SpotAsgHealthStatus
stability_of stability_duration none status time = record status { healthy_since = some time }
stability_of stability_duration (some since) status time = record status {
  healthy_since = some since;
  is_stable = leb_ℤ stability_duration (time -ℤ since);
}

abbrev pub rated : ℤ → Option ℤ → SpotAsgHealthStatus → Bool → ℤ → SpotAsgHealthStatus
rated stability_duration previous status ready time =
    let seen = record status { nodes_ready = ready } in
    if not status.is_healthy || not ready
    then seen
    else stability_of stability_duration previous seen time

unfoldable pub first_spot_group : List SpotGroup → M SpotGroup
first_spot_group [] = fail (new "ASG not found")
first_spot_group (asg ∷ rest) = return asg

module _ (server : Server) (spot_groups : List Request → Result (List SpotGroup)) where
  -- The second check and the third.
  abbrev pub with_nodes : ℤ → Option ℤ → SpotAsgHealthStatus → List KubeNode → M SpotAsgHealthStatus
  with_nodes stability_duration previous status [] = return status
  with_nodes stability_duration previous status (node ∷ nodes) = now server >>= λ time.
      return (rated stability_duration previous status (all_ready (node ∷ nodes)) time)

  unfoldable pub check_spot_asg_comprehensive : String → ℤ → Option ℤ → M SpotAsgHealthStatus
  check_spot_asg_comprehensive asg_name stability_duration previous = do
    groups ← on_error (wrap "failed to describe ASG") (ask (describe_asg asg_name) spot_groups)
    asg ← first_spot_group groups
    nodes ← on_error (wrap "failed to list nodes") (ask (list_nodes every_node) server.nodes)
    let status = group_status asg
    with_nodes stability_duration previous status (listed_nodes status.instance_ids nodes)
