-- ===== src/Examples/Cluster.antt =====
-- The theorems on the requests to the cluster and to the scaling groups at concrete inputs.
use aws_node_termination_han.Common.{
  ◌≡◌, refl, true, false, none, some, [], ◌∷◌, str_eq, lookup, not, arith,
}
use aws_node_termination_han.Common.Int.{ℤ, ◌+ℤ◌}
use aws_node_termination_han.Config.{default_config}
use aws_node_termination_han.Kube.{ok, wrap, Result, no_schedule, describe_asg, read_clock}
use aws_node_termination_han.Kube.Trace.{Extends, IsGentle}
use aws_node_termination_han.Node.Taints.{
  add_taint_to_spec, update_loop, max_rounds, max_retry_deadline,
}
use aws_node_termination_han.Node.Taints.Loop.{IsTold, update_loop-IsTold}
use aws_node_termination_han.Node.Taints.Deadline.{
  slept, slept-append, IsClock, IsPlain, IsEnded, update_loop-IsEnded,
}
use aws_node_termination_han.Handler.{failed}
use aws_node_termination_han.SpotGuard.{FallbackEvent, FallbackTracker}
use aws_node_termination_han.SpotGuard.Executor.{
  decrease_asg_capacity, drain_node, execute_scale_down,
}
use aws_node_termination_han.SpotGuard.ScaleDown.{
  IsPermitted, Lowered, decrease_asg_capacity-IsPermitted, drain_node-cached,
  execute_scale_down-begun,
}
use aws_node_termination_han.Examples.{server, node_a}

clock : IsClock server
unfolding slept ◌+ℤ◌
clock g h = ground (arith, slept-append g h)

plain : IsPlain server (wrap "failed to get node")
plain = (λ h e. cc e, λ e clash. cc clash)

update_loop-IsTold_example :
    IsTold server
      (add_taint_to_spec "maintenance" "true" no_schedule)
      (wrap "failed to get node")
      "node-a"
      (update_loop server
        (add_taint_to_spec "maintenance" "true" no_schedule)
        (wrap "failed to get node")
        "node-a"
        (ℤ.pos max_retry_deadline)
        max_rounds
        false
        node_a
        [])
update_loop-IsTold_example =
    update_loop-IsTold server (add_taint_to_spec "maintenance" "true" no_schedule)
      (wrap "failed to get node") "node-a" (ℤ.pos max_retry_deadline) max_rounds false node_a []

update_loop-IsEnded_example : IsEnded (
    update_loop server
      (add_taint_to_spec "maintenance" "true" no_schedule)
      (wrap "failed to get node")
      "node-a"
      (server.time (read_clock ∷ []) +ℤ ℤ.pos max_retry_deadline)
      max_rounds
      false
      node_a
      (read_clock ∷ []))
update_loop-IsEnded_example =
    update_loop-IsEnded server (add_taint_to_spec "maintenance" "true" no_schedule)
      (wrap "failed to get node") "node-a" [] clock plain node_a

abbrev fallback : FallbackEvent
fallback = record {
  event_id = "fallback-1";
  timestamp = ℤ.pos 0;
  spot_asg_name = "spot";
  on_demand_asg_name = "on-demand";
  on_demand_instance_id = "i-0abc";
  on_demand_node_name = "node-a";
  spot_capacity_restored = false;
  scale_down_initiated = false;
  minimum_wait_duration = ℤ.pos 0;
  spot_healthy_since = none;
}

abbrev pub tracker : FallbackTracker
tracker = record { events = ("fallback-1", 0) ∷ []; heap = λ p. fallback }

tracked : lookup "fallback-1" tracker.events ≡ some 0
unfolding lookup str_eq
tracked = refl

decrease_asg_capacity-IsPermitted_example :
    Extends
      (IsPermitted "on-demand" (server.groups (describe_asg "on-demand" ∷ [])))
      []
      (decrease_asg_capacity server "on-demand" []).1
    × ((decrease_asg_capacity server "on-demand" []).0 ≡ ok tt
        → Lowered server "on-demand" [] (decrease_asg_capacity server "on-demand" []).1)
decrease_asg_capacity-IsPermitted_example = decrease_asg_capacity-IsPermitted server "on-demand" []

drain_node-cached_example :
    Extends IsGentle []
      (drain_node server
        (record default_config { use_apiserver_cache_to_list_pods = true })
        "node-a"
        []).1
drain_node-cached_example =
    drain_node-cached server (record default_config { use_apiserver_cache_to_list_pods = true })
      "node-a" [] refl

execute_scale_down-begun_example :
    (r : Result (Unit {0}) × FallbackTracker) × ((execute_scale_down server default_config none 3 0
        tracker []).0
      ≡ ok r)
    × ((r.1.heap 0).scale_down_initiated ≡ not (failed r.0))
execute_scale_down-begun_example =
    execute_scale_down-begun server default_config 3 0 tracker [] tracked
