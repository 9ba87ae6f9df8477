-- ===== src/SpotGuard/ScaleUp.antt =====
-- pkg/spotguard/spotguard.go: a replacement for a spot instance, from the spot group or else from the
-- on-demand group.
use aws_node_termination_han.Common.{
  ℕ, zero, suc, ◌*◌, String, Bool, true, false, ◌&&◌, ◌||◌, List, [], ◌∷◌, if◌then◌else◌, str_eq,
  ltb, select, length, any,
}
use aws_node_termination_han.Common.Int.{ℤ, ◌+ℤ◌, ◌-ℤ◌, ltb_ℤ, leb_ℤ, scale}
use aws_node_termination_han.Config.{Config}
use aws_node_termination_han.Kube.{
  Result, ok, err, new, wrap, out_of_fuel, Activity, AutoScalingGroup, describe_asg,
  set_desired_capacity, describe_activities, await_tick, Server, M, return, fail, ◌>>=◌, ◌>>◌,
  attempt, on_error, ask, tell, now,
}
use aws_node_termination_han.Std.{Std}
use aws_node_termination_han.Store.{second}
use aws_node_termination_han.SpotGuard.Executor.{first_group}
use aws_node_termination_han.SpotGuard.Search.{contains, to_lower}

abbrev pub capacity_keywords : List String
capacity_keywords =
    "InsufficientInstanceCapacity" ∷ "Insufficient capacity" ∷ "capacity-not-available"
    ∷ "Max spot instance count exceeded" ∷ "Spot request could not be fulfilled"
    ∷ "UnfulfillableCapacity " ∷ []

abbrev pub tick_interval : ℕ
tick_interval = 10 * second

-- A failed or cancelled activity whose description or cause has one of the keywords.
unfoldable pub is_capacity_issue : Activity → Bool
is_capacity_issue activity =
    (str_eq activity.status_code "Failed" || str_eq activity.status_code "Cancelled")
    && any
        (λ keyword.
          contains (to_lower activity.description) (to_lower keyword)
          || contains (to_lower activity.cause) (to_lower keyword))
        capacity_keywords

-- Activities from before the cutoff are passed over.
unfoldable pub has_capacity_issue : ℤ → List Activity → Bool
has_capacity_issue cutoff [] = false
has_capacity_issue cutoff (activity ∷ activities) =
    let rest = has_capacity_issue cutoff activities in
    if ltb_ℤ activity.start_time cutoff
    then rest
    else if is_capacity_issue activity
    then true
    else rest

abbrev pub in_service_count : AutoScalingGroup → ℕ
in_service_count asg = length (select (λ in_service. in_service) asg.in_service)

-- An error of the check is only logged.
abbrev pub finds_issue : Result Bool → Bool
finds_issue (ok issue) = issue
finds_issue (err e) = false

module _ (std : Std) (server : Server) (n : Config) where
  abbrev pub raise_capacity : String → AutoScalingGroup → M (Unit {0})
  raise_capacity asg_name asg =
      let new_desired = asg.desired_capacity +ℤ ℤ.pos 1 in
      if ltb_ℤ asg.max_size new_desired
      then fail (new "cannot scale up ASG: would exceed max size")
      else on_error (wrap "failed to set desired capacity for ASG")
          (ask (set_desired_capacity asg_name new_desired) server.done)

  unfoldable pub scale_up_asg : String → M (Unit {0})
  scale_up_asg asg_name = do
    groups ← on_error (wrap "failed to describe ASG") (ask (describe_asg asg_name) server.groups)
    asg ← first_group groups
    raise_capacity asg_name asg

  unfoldable pub get_in_service_instance_count : String → M ℕ
  get_in_service_instance_count asg_name = do
    groups ← on_error (wrap "failed to describe ASG") (ask (describe_asg asg_name) server.groups)
    asg ← first_group groups
    return (in_service_count asg)

  -- A throttled request is no error.
  abbrev pub judged : ℤ → Result (List Activity) → M Bool
  judged scale_start_time (ok activities) =
      return (has_capacity_issue (scale_start_time -ℤ ℤ.pos (5 * second)) activities)
  judged scale_start_time (err e) =
      if contains (std.error_text e) "Throttling" || contains (std.error_text e) "Rate exceeded"
      then return false
      else fail (wrap "failed to describe scaling activities for ASG" e)

  unfoldable pub check_for_capacity_issues : String → ℤ → M Bool
  check_for_capacity_issues asg_name scale_start_time =
      attempt (ask (describe_activities asg_name) server.activities) >>= judged scale_start_time

  abbrev pub capacity_check_timeout : ℤ
  capacity_check_timeout = scale second n.spot_guard_capacity_check_timeout

  abbrev pub after_elapsed : M Bool → ℤ → ℤ → M Bool
  after_elapsed again start_time time =
      if leb_ℤ capacity_check_timeout (time -ℤ start_time) then return false else again

  abbrev pub after_check : M Bool → ℤ → Result Bool → M Bool
  after_check again start_time issue =
      if finds_issue issue then return false else now server >>= after_elapsed again start_time

  -- The body of the loop once the instances are counted; after an error the loop goes on at once.
  abbrev pub after_count : M Bool → String → ℕ → ℤ → ℤ → Result ℕ → M Bool
  after_count again asg_name initial_count scale_start_time start_time (err e) = again
  after_count again asg_name initial_count scale_start_time start_time (ok current_count) =
      if ltb initial_count current_count
      then return true
      else attempt (check_for_capacity_issues asg_name scale_start_time)
        >>= after_check again start_time

  -- The loop over the ticks.
  unfoldable pub await_instance : ℕ → String → ℕ → ℤ → ℤ → M Bool
  await_instance zero asg_name initial_count scale_start_time start_time = fail out_of_fuel
  await_instance (suc fuel) asg_name initial_count scale_start_time start_time =
      tell (await_tick tick_interval)
      >> attempt (get_in_service_instance_count asg_name)
      >>= after_count (await_instance fuel asg_name initial_count scale_start_time start_time)
          asg_name initial_count scale_start_time start_time

  unfoldable pub wait_for_new_instance : ℕ → String → ℤ → M Bool
  wait_for_new_instance fuel asg_name scale_start_time = do
    start_time ← now server
    initial_count ← get_in_service_instance_count asg_name
    await_instance fuel asg_name initial_count scale_start_time start_time

  unfoldable pub fallback_to_on_demand : ℕ → M (Unit {0})
  fallback_to_on_demand fuel = do
    on_demand_scale_start_time ← now server
    on_error (wrap "failed to scale up on-demand ASG") (scale_up_asg n.on_demand_asg_name)
    success ←
        on_error (wrap "error waiting for on-demand instance")
          (wait_for_new_instance fuel n.on_demand_asg_name on_demand_scale_start_time)
    if success
        then return tt
        else fail (new "timeout waiting for on-demand instance to reach InService")

  abbrev pub or_fallback : ℕ → Result Bool → M (Unit {0})
  or_fallback fuel (ok true) = return tt
  or_fallback fuel (ok false) = fallback_to_on_demand fuel
  or_fallback fuel (err out_of_fuel) = fail out_of_fuel
  or_fallback fuel (err e) = fallback_to_on_demand fuel

  abbrev pub after_spot_scale_up : ℕ → ℤ → Result (Unit {0}) → M (Unit {0})
  after_spot_scale_up fuel scale_start_time (err e) = fallback_to_on_demand fuel
  after_spot_scale_up fuel scale_start_time (ok _) =
      attempt (wait_for_new_instance fuel n.spot_asg_name scale_start_time) >>= or_fallback fuel

  unfoldable pub scale_up_with_fallback : ℕ → M (Unit {0})
  scale_up_with_fallback fuel = do
    scale_start_time ← now server
    scaled ← attempt (scale_up_asg n.spot_asg_name)
    after_spot_scale_up fuel scale_start_time scaled

-- The server with which the drain task of a rebalance recommendation runs `ScaleUpWithFallback`, on so
-- many ticks for each wait.
abbrev pub guarded : Std → Server → Config → ℕ → Server
guarded std server n fuel = record server { scale_up = scale_up_with_fallback std server n fuel }
