-- ===== src/SpotGuard/Health.antt =====
-- pkg/spotguard/health_checker.go: whether the capacity of the spot group is back, as
-- `IsSpotCapacityRestored` finds it. The answers of the calls and the clock are an `Observation`; the
-- group is described twice, and may have changed between the two.
pub mod Stability
use Prim.Native.Char.{code}
use aws_node_termination_han.Common.{
  ℕ, String, Bool, true, false, ◌&&◌, not, ◌==◌, Option, none, some, List, [], ◌∷◌, if◌then◌else◌,
  str_eq, any,
}
use aws_node_termination_han.Common.Int.{ℤ, ◌+ℤ◌, ◌-ℤ◌, leb_ℤ}
use aws_node_termination_han.Kube.{Error, new, wrap, Result, ok, err, KubeNode}
use aws_node_termination_han.SpotGuard.Safety.{is_ready}

pub record GroupInstance : Type 0 where
  pub instance_id : Option String
  pub lifecycle_state : String
  pub health_status : String

pub record SpotGroup : Type 0 where
  pub desired_capacity : ℤ
  pub instances : List GroupInstance

pub record Observation : Type 0 where
  pub groups : Result (List SpotGroup)
  pub groups_again : Result (List SpotGroup)
  pub nodes : Result (List KubeNode)
  pub time : ℤ

-- What a check returns.
pub record Verdict : Type 0 where
  pub is_restored : Bool
  pub healthy_since : Option ℤ
  pub failure : Option Error

unfoldable pub count_in_service : List GroupInstance → ℤ → ℤ
count_in_service [] in_service_count = in_service_count
count_in_service (i ∷ instances) in_service_count =
    let next =
      if str_eq i.lifecycle_state "InService" && str_eq i.health_status "Healthy"
      then in_service_count +ℤ ℤ.pos 1
      else in_service_count in
    count_in_service instances next

unfoldable pub is_spot_asg_healthy : Result (List SpotGroup) → Result Bool
is_spot_asg_healthy (err e) = err (wrap "failed to describe ASG" e)
is_spot_asg_healthy (ok []) = err (new "ASG not found")
is_spot_asg_healthy (ok (asg ∷ rest)) =
    ok (leb_ℤ asg.desired_capacity (count_in_service asg.instances (ℤ.pos 0)))

-- What follows the last `/` of a text, or else the given part.
unfoldable pub last_part : String → String → String
last_part String.[] part = part
last_part (String.◌∷◌ c s) part = last_part s (if code c == 47 then s else part)

-- The prefix `i-`.
unfoldable pub looks_like_instance_id : String → Bool
looks_like_instance_id (String.◌∷◌ a (String.◌∷◌ b s)) = code a == 105 && code b == 45
looks_like_instance_id _ = false

unfoldable pub extract_instance_id_from_provider_id : String → String
extract_instance_id_from_provider_id provider_id =
    let instance_id = last_part provider_id provider_id in
    if looks_like_instance_id instance_id then instance_id else ""

abbrev pub has_id : String → GroupInstance → Bool
has_id instance_id i = elim i.instance_id [ none ↦ false | some found ↦ str_eq found instance_id ]

abbrev pub is_spot_node : List GroupInstance → KubeNode → Bool
is_spot_node instances node =
    let instance_id = extract_instance_id_from_provider_id node.provider_id in
    not (str_eq instance_id "") && any (has_id instance_id) instances

unfoldable pub spot_nodes : List GroupInstance → List KubeNode → List KubeNode
spot_nodes instances [] = []
spot_nodes instances (node ∷ nodes) =
    let rest = spot_nodes instances nodes in
    if is_spot_node instances node then node ∷ rest else rest

unfoldable pub all_ready : List KubeNode → Bool
all_ready [] = true
all_ready (node ∷ nodes) =
    let rest = all_ready nodes in
    if node.unschedulable then false else if not (is_ready node.conditions) then false else rest

abbrev pub found_ready : List KubeNode → Bool
found_ready [] = false
found_ready (node ∷ nodes) = all_ready (node ∷ nodes)

unfoldable pub are_spot_nodes_ready : Result (List SpotGroup) → Result (List KubeNode) → Result Bool
are_spot_nodes_ready (err e) nodes = err (wrap "failed to describe ASG" e)
are_spot_nodes_ready (ok []) nodes = err (new "ASG not found")
are_spot_nodes_ready (ok (asg ∷ rest)) (err e) = err (wrap "failed to list nodes" e)
are_spot_nodes_ready (ok (asg ∷ rest)) (ok nodes) =
    ok (found_ready (spot_nodes asg.instances nodes))

abbrev pub timed : ℤ → ℤ → Option ℤ → Verdict
timed now stability_duration none = record {
  is_restored = false;
  healthy_since = some now;
  failure = none;
}
timed now stability_duration (some since) = record {
  is_restored = leb_ℤ stability_duration (now -ℤ since);
  healthy_since = some since;
  failure = none;
}

abbrev pub after_nodes : ℤ → ℤ → Option ℤ → Result Bool → Verdict
after_nodes now stability_duration healthy_since (err e) = record {
  is_restored = false;
  healthy_since = healthy_since;
  failure = some e;
}
after_nodes now stability_duration healthy_since (ok false) = record {
  is_restored = false;
  healthy_since = none;
  failure = none;
}
after_nodes now stability_duration healthy_since (ok true) =
    timed now stability_duration healthy_since

abbrev pub after_group : ℤ → ℤ → Option ℤ → Result Bool → Result Bool → Verdict
after_group now stability_duration healthy_since (err e) nodes_ready = record {
  is_restored = false;
  healthy_since = none;
  failure = some e;
}
after_group now stability_duration healthy_since (ok false) nodes_ready = record {
  is_restored = false;
  healthy_since = none;
  failure = none;
}
after_group now stability_duration healthy_since (ok true) nodes_ready =
    after_nodes now stability_duration healthy_since nodes_ready

unfoldable pub is_spot_capacity_stable : ℤ → Option ℤ → Observation → Verdict
is_spot_capacity_stable stability_duration healthy_since o =
    after_group o.time stability_duration healthy_since (is_spot_asg_healthy o.groups)
      (are_spot_nodes_ready o.groups_again o.nodes)

-- An error keeps the time that the caller knew.
abbrev pub kept_on_error : Option ℤ → Verdict → Verdict
kept_on_error healthy_since v = elim v.failure [
  | some e ↦ record { is_restored = false; healthy_since = healthy_since; failure = some e }
  | none ↦ v
]

unfoldable pub is_spot_capacity_restored : ℤ → Option ℤ → Observation → Verdict
is_spot_capacity_restored stability_duration healthy_since o =
    kept_on_error healthy_since (is_spot_capacity_stable stability_duration healthy_since o)
