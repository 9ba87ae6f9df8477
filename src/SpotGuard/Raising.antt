-- ===== src/SpotGuard/Raising.antt =====
-- What `ScaleUpWithFallback` asks of the scaling groups.
use aws_node_termination_han.Common.{
  ℕ, zero, suc, ◌<◌, ◌≡◌, refl, ◌⊎◌, inl, inr, arith, String, Bool, true, false, ◌||◌, List, [],
  ◌∷◌, if◌then◌else◌, ltb,
}
use aws_node_termination_han.Common.Int.{ℤ, pos, ◌+ℤ◌, ◌-ℤ◌, ◌≤ℤ◌, ltb_ℤ, leb_ℤ}
use aws_node_termination_han.Config.{Config}
use aws_node_termination_han.Kube.{
  Result, ok, err, status, wrap, new, code, skip, out_of_fuel, Activity, AutoScalingGroup, Request,
  describe_asg, set_desired_capacity, describe_activities, await_tick, read_clock, Server, M,
  return, fail, ◌>>=◌, attempt, on_error, ask, now,
}
use aws_node_termination_han.Kube.Trace.{Extends, same, more}
use aws_node_termination_han.Kube.Runs.{
  Satisfies, Runs, >>=-Runs, attempt-Runs, return-Runs, fail-Runs, ask-Runs, tell-Runs, if-Runs,
  Runs-map, answered-Runs, on_error-Runs,
}
use aws_node_termination_han.Kube.Total.{Anything}
use aws_node_termination_han.Std.{Std}
use aws_node_termination_han.SpotGuard.Executor.{first_group}
use aws_node_termination_han.SpotGuard.Search.{contains}
use aws_node_termination_han.SpotGuard.ScaleUp.{
  tick_interval, in_service_count, finds_issue, raise_capacity, scale_up_asg,
  get_in_service_instance_count, judged, check_for_capacity_issues, capacity_check_timeout,
  after_elapsed, after_check, after_count, await_instance, wait_for_new_instance,
  fallback_to_on_demand, or_fallback, after_spot_scale_up, scale_up_with_fallback,
}

-- A group as an answer showed it.
abbrev pub Shown : Server → String → AutoScalingGroup → Type 0
Shown server asg_name asg =
    (h : List Request) × (others : List AutoScalingGroup) × (server.groups
        (describe_asg asg_name ∷ h)
      ≡ ok (asg ∷ others))

-- Groups and their activities are described, the clock is read, ticks are awaited, and a capacity is only
-- set to one more than a description of that group showed, within its maximum.
abbrev pub IsRaise : Server → Request → Type 0
IsRaise server (set_desired_capacity asg_name capacity) =
    (asg : AutoScalingGroup) × Shown server asg_name asg
    × (capacity ≡ asg.desired_capacity +ℤ pos 1)
    × (capacity ≤ℤ asg.max_size)
IsRaise server (describe_asg asg_name) = Unit {0}
IsRaise server (describe_activities asg_name) = Unit {0}
IsRaise server (await_tick d) = Unit {0}
IsRaise server read_clock = Unit {0}
IsRaise server _ = ⊥

-- More instances were shown in service than the number.
abbrev Grown : Server → String → ℕ → Type 0
Grown server asg_name initial =
    (asg : AutoScalingGroup) × Shown server asg_name asg × (initial < in_service_count asg)

within : (a b : ℤ) → ltb_ℤ b a ≡ false → a ≤ℤ b
within a b e = ground (arith, e)

satisfied : (Q : Unit {0} → Type 0) (r : Result (Unit {0})) → r ≡ ok tt → Satisfies Q r → Q tt
satisfied Q (ok u) e q = q
satisfied Q (err x) e q = cc e

module _ (std : Std) (server : Server) (n : Config) where
  abbrev Counted : String → ℕ → Type 0
  Counted asg_name k =
      (asg : AutoScalingGroup) × Shown server asg_name asg × (k ≡ in_service_count asg)

  first-Runs :
      {A : Type 0} {Q : A → Type 0} (asg_name : String) (f : AutoScalingGroup → M A)
      (groups : List AutoScalingGroup) (h : List Request)
      → server.groups (describe_asg asg_name ∷ h) ≡ ok groups
      → ((asg : AutoScalingGroup) → Shown server asg_name asg → Runs (IsRaise server) Q (f asg))
      → Runs (IsRaise server) Q (first_group groups >>= f)
  unfolding first_group
  first-Runs asg_name f [] h e r = fail-Runs (new "ASG not found")
  first-Runs asg_name f (asg ∷ others) h e r = r asg (h, others, e)

  -- A description of the group, followed by code that uses the group that it shows.
  described-Runs :
      {A : Type 0} {Q : A → Type 0} (asg_name : String) (f : AutoScalingGroup → M A)
      → ((asg : AutoScalingGroup) → Shown server asg_name asg → Runs (IsRaise server) Q (f asg))
      → Runs (IsRaise server) Q (
          on_error (wrap "failed to describe ASG") (ask (describe_asg asg_name) server.groups)
          >>= λ groups. first_group groups >>= f)
  described-Runs asg_name f r =
      >>=-Runs
        (on_error (wrap "failed to describe ASG") (ask (describe_asg asg_name) server.groups)) _
        (on_error-Runs (wrap "failed to describe ASG") (ask (describe_asg asg_name) server.groups)
          (answered-Runs (describe_asg asg_name) server.groups tt))
        λ groups (h, e). first-Runs asg_name f groups h e r

  count-Runs :
      (asg_name : String)
      → Runs
          (IsRaise server)
          (Counted asg_name)
          (get_in_service_instance_count std server n asg_name)
  unfolding get_in_service_instance_count
  count-Runs asg_name = described-Runs asg_name _ λ asg s. return-Runs _ (asg, s, refl)

  pub scale_up_asg-Runs :
      (asg_name : String) → Runs (IsRaise server) Anything (scale_up_asg std server n asg_name)
  unfolding scale_up_asg
  scale_up_asg-Runs asg_name =
      described-Runs asg_name (raise_capacity std server n asg_name) λ asg s.
        if-Runs (ltb_ℤ asg.max_size (asg.desired_capacity +ℤ pos 1)) _ _ (λ _. fail-Runs _)
          (λ fits.
            on_error-Runs (wrap _)
              (ask (set_desired_capacity asg_name (asg.desired_capacity +ℤ pos 1)) server.done)
              (ask-Runs (set_desired_capacity asg_name (asg.desired_capacity +ℤ pos 1)) server.done
                (asg, s, refl, within (asg.desired_capacity +ℤ pos 1) asg.max_size fits)))

  judged-Runs :
      (scale_start : ℤ) (r : Result (List Activity))
      → Runs (IsRaise server) Anything (judged std server n scale_start r)
  judged-Runs scale_start (ok activities) = return-Runs _ tt
  judged-Runs scale_start (err e) =
      if-Runs
        (contains (std.error_text e) "Throttling" || contains (std.error_text e) "Rate exceeded") _
        _ (λ _. return-Runs false tt) (λ _. fail-Runs _)

  pub check-Runs :
      (asg_name : String) (scale_start : ℤ)
      → Runs (IsRaise server) Anything (check_for_capacity_issues std server n asg_name scale_start)
  unfolding check_for_capacity_issues
  check-Runs asg_name scale_start =
      >>=-Runs (attempt (ask (describe_activities asg_name) server.activities))
        (judged std server n scale_start)
        (attempt-Runs (ask (describe_activities asg_name) server.activities)
          (ask-Runs (describe_activities asg_name) server.activities tt))
        λ r _. judged-Runs scale_start r

  now-Runs : Runs (IsRaise server) Anything (now server)
  now-Runs = record { sends = λ h. more tt same; gives = λ h. tt }

  -- What a success of the wait says.
  abbrev Waited : String → ℕ → M Bool → Type 0
  Waited asg_name initial m =
      Runs (IsRaise server) (λ b. b ≡ true → Grown server asg_name initial) m

  after_check-Runs :
      (asg_name : String) (initial : ℕ) (again : M Bool) (start : ℤ) (issue : Result Bool)
      → Waited asg_name initial again
      → Waited asg_name initial (after_check std server n again start issue)
  after_check-Runs asg_name initial again start issue r =
      if-Runs (finds_issue issue) _ _ (λ _. return-Runs false (λ e. cc e))
        (λ _. >>=-Runs (now server) (after_elapsed std server n again start) now-Runs λ time _.
          if-Runs (leb_ℤ (capacity_check_timeout std server n) (time -ℤ start)) _ _
            (λ _. return-Runs false (λ e. cc e)) (λ _. r))

  after_count-Runs :
      (asg_name : String) (initial : ℕ) (again : M Bool) (scale_start start : ℤ) (r : Result ℕ)
      → Satisfies (Counted asg_name) r
      → Waited asg_name initial again
      → Waited asg_name initial
          (after_count std server n again asg_name initial scale_start start r)
  after_count-Runs asg_name initial again scale_start start (err e) s w = w
  after_count-Runs asg_name initial again scale_start start (ok current) (asg, shown, e) w =
      if-Runs (ltb initial current) _ _
        (λ grown. return-Runs true (λ _. (asg, shown, ground (arith, grown, e))))
        (λ _.
          >>=-Runs (attempt (check_for_capacity_issues std server n asg_name scale_start))
            (after_check std server n again start)
            (attempt-Runs (check_for_capacity_issues std server n asg_name scale_start)
              (check-Runs asg_name scale_start))
            λ issue _. after_check-Runs asg_name initial again start issue w)

  await-Runs :
      (fuel : ℕ) (asg_name : String) (initial : ℕ) (scale_start start : ℤ)
      → Waited asg_name initial
          (await_instance std server n fuel asg_name initial scale_start start)
  unfolding await_instance
  await-Runs zero asg_name initial scale_start start = fail-Runs out_of_fuel
  await-Runs (suc fuel) asg_name initial scale_start start =
      tell-Runs (await_tick tick_interval) _ tt (
        >>=-Runs (attempt (get_in_service_instance_count std server n asg_name))
          (after_count std server n
            (await_instance std server n fuel asg_name initial scale_start start) asg_name initial
            scale_start start)
          (attempt-Runs (get_in_service_instance_count std server n asg_name) (count-Runs asg_name))
          λ r s.
            after_count-Runs asg_name initial _ scale_start start r s
              (await-Runs fuel asg_name initial scale_start start))

  -- The group was shown with fewer instances in service, and with more.
  abbrev More : String → Type 0
  More asg_name =
      (before : AutoScalingGroup) × Shown server asg_name before
      × Grown server asg_name (in_service_count before)

  awaited-Runs :
      (asg_name : String) (initial : ℕ) (asg : AutoScalingGroup)
      → Shown server asg_name asg
      → initial ≡ in_service_count asg
      → (m : M Bool) → Waited asg_name initial m
      → Runs (IsRaise server) (λ b. b ≡ true → More asg_name) m
  awaited-Runs asg_name initial asg shown e m w =
      Runs-map m
        (λ b grown t. let (after, s, p) = grown t in (asg, shown, (after, s, ground (arith, p, e))))
        w

  pub wait-Runs :
      (fuel : ℕ) (asg_name : String) (scale_start : ℤ)
      → Runs
          (IsRaise server)
          (λ b. b ≡ true → More asg_name)
          (wait_for_new_instance std server n fuel asg_name scale_start)
  unfolding wait_for_new_instance
  wait-Runs fuel asg_name scale_start =
      >>=-Runs (now server)
        (λ start. get_in_service_instance_count std server n asg_name >>= λ initial.
          await_instance std server n fuel asg_name initial scale_start start)
        now-Runs
        λ start _.
          >>=-Runs (get_in_service_instance_count std server n asg_name)
            (λ initial. await_instance std server n fuel asg_name initial scale_start start)
            (count-Runs asg_name)
            λ initial (asg, shown, e).
              awaited-Runs asg_name initial asg shown e
                (await_instance std server n fuel asg_name initial scale_start start)
                (await-Runs fuel asg_name initial scale_start start)

  -- What the success of `ScaleUpWithFallback` says.
  abbrev Replaced : Unit {0} → Type 0
  Replaced u = More n.spot_asg_name ⊎ More n.on_demand_asg_name

  abbrev waited_for : ℕ → ℤ → M (Unit {0})
  waited_for fuel start =
      on_error (wrap "error waiting for on-demand instance")
        (wait_for_new_instance std server n fuel n.on_demand_asg_name start)
      >>= λ success.
          if success
          then return tt
          else fail (new "timeout waiting for on-demand instance to reach InService")

  fallback-Runs :
      (fuel : ℕ) → Runs (IsRaise server) Replaced (fallback_to_on_demand std server n fuel)
  unfolding fallback_to_on_demand
  fallback-Runs fuel =
      >>=-Runs (now server)
        (λ start.
          on_error (wrap "failed to scale up on-demand ASG")
            (scale_up_asg std server n n.on_demand_asg_name)
          >>= λ _. waited_for fuel start)
        now-Runs
        λ start _.
          >>=-Runs
            (on_error (wrap "failed to scale up on-demand ASG")
              (scale_up_asg std server n n.on_demand_asg_name))
            (λ _. waited_for fuel start)
            (on_error-Runs (wrap _) (scale_up_asg std server n n.on_demand_asg_name)
              (scale_up_asg-Runs n.on_demand_asg_name))
            λ _ _.
              >>=-Runs
                (on_error (wrap "error waiting for on-demand instance")
                  (wait_for_new_instance std server n fuel n.on_demand_asg_name start))
                _
                (on_error-Runs (wrap _)
                  (wait_for_new_instance std server n fuel n.on_demand_asg_name start)
                  (wait-Runs fuel n.on_demand_asg_name start))
                λ success m.
                  if-Runs success _ _ (λ s. return-Runs tt (inr (m s))) (λ _. fail-Runs _)

  or_fallback-Runs :
      (fuel : ℕ) (r : Result Bool)
      → Satisfies (λ b. b ≡ true → More n.spot_asg_name) r
      → Runs (IsRaise server) Replaced (or_fallback std server n fuel r)
  or_fallback-Runs fuel (ok true) m = return-Runs tt (inl (m refl))
  or_fallback-Runs fuel (ok false) m = fallback-Runs fuel
  or_fallback-Runs fuel (err out_of_fuel) m = fail-Runs out_of_fuel
  or_fallback-Runs fuel (err (status _)) m = fallback-Runs fuel
  or_fallback-Runs fuel (err (new _)) m = fallback-Runs fuel
  or_fallback-Runs fuel (err (wrap _ _)) m = fallback-Runs fuel
  or_fallback-Runs fuel (err (code _)) m = fallback-Runs fuel
  or_fallback-Runs fuel (err (skip _)) m = fallback-Runs fuel

  scaled-Runs :
      (fuel : ℕ) (scale_start : ℤ) (r : Result (Unit {0}))
      → Runs (IsRaise server) Replaced (after_spot_scale_up std server n fuel scale_start r)
  scaled-Runs fuel scale_start (err e) = fallback-Runs fuel
  scaled-Runs fuel scale_start (ok _) =
      >>=-Runs (attempt (wait_for_new_instance std server n fuel n.spot_asg_name scale_start))
        (or_fallback std server n fuel)
        (attempt-Runs (wait_for_new_instance std server n fuel n.spot_asg_name scale_start)
          (wait-Runs fuel n.spot_asg_name scale_start))
        λ r m. or_fallback-Runs fuel r m

  scale_up-Runs :
      (fuel : ℕ) → Runs (IsRaise server) Replaced (scale_up_with_fallback std server n fuel)
  unfolding scale_up_with_fallback
  scale_up-Runs fuel =
      >>=-Runs (now server)
        (λ scale_start.
          attempt (scale_up_asg std server n n.spot_asg_name)
          >>= after_spot_scale_up std server n fuel scale_start)
        now-Runs
        λ scale_start _.
          >>=-Runs (attempt (scale_up_asg std server n n.spot_asg_name))
            (after_spot_scale_up std server n fuel scale_start)
            (attempt-Runs (scale_up_asg std server n n.spot_asg_name)
              (scale_up_asg-Runs n.spot_asg_name))
            λ r _. scaled-Runs fuel scale_start r

  -- Scaling up with the fallback sets a capacity only to one more than a description of that group showed,
  -- and never above the group's maximum, however long it waits, and makes no other request but for
  -- descriptions and the time.
  pub scale_up_with_fallback-IsRaise :
      (fuel : ℕ) (h : List Request)
      → Extends (IsRaise server) h (scale_up_with_fallback std server n fuel h).1
  scale_up_with_fallback-IsRaise fuel = (scale_up-Runs fuel).sends
