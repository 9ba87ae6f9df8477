-- ===== src/SpotGuard/Waiting.antt =====
-- The wait for a new instance of `waitForNewInstance`: when it ends, and with what.
use aws_node_termination_han.Common.{
  ℕ, zero, suc, ◌+◌, ◌*◌, ◌≤◌, ◌≡◌, refl, sym, ◌∙◌, arith, String, Bool, true, false, List, [], ◌∷◌,
  ◌++◌, ◌||◌, ltb, Bool-cases, inl, inr,
}
use aws_node_termination_han.Common.Int.{ℤ, pos, pos_part, ◌+ℤ◌, ◌-ℤ◌, ◌≤ℤ◌, leb_ℤ, scale}
use aws_node_termination_han.Config.{Config}
use aws_node_termination_han.Kube.{
  Error, wrap, Result, ok, err, out_of_fuel, Activity, AutoScalingGroup, Request, describe_asg,
  describe_activities, await_tick, read_clock, Server, M,
}
use aws_node_termination_han.Std.{Std}
use aws_node_termination_han.Store.{second}
use aws_node_termination_han.SpotGuard.ScaleUp.{
  tick_interval, in_service_count, finds_issue, get_in_service_instance_count, judged,
  check_for_capacity_issues, capacity_check_timeout, after_check, after_count, await_instance,
  wait_for_new_instance,
}
use aws_node_termination_han.SpotGuard.Executor.{first_group}
use aws_node_termination_han.SpotGuard.Search.{contains}

-- The ticks that a history has waited for.
unfoldable pub ticks : List Request → ℕ
ticks [] = 0
ticks (await_tick d ∷ h) = suc (ticks h)
ticks (q ∷ h) = ticks h

pub ticks-append : (g h : List Request) → ticks (g ++ h) ≡ ticks g + ticks h
unfolding ticks
ticks-append [] h = ground arith
ticks-append (await_tick d ∷ g) h = ground (arith, ticks-append g h)
ticks-append (q ∷ g) h = ticks-append g h

-- A ticker of ten seconds that is made when the clock is read: no tick comes early.
abbrev pub IsTicker : Server → List Request → Type 0
IsTicker server h =
    (g : List Request)
    → (server.time (read_clock ∷ h) +ℤ pos (tick_interval * ticks g))
      ≤ℤ server.time (read_clock ∷ g ++ read_clock ∷ h)

-- The group is found whenever it is described.
abbrev pub IsFound : Server → String → Type 0
IsFound server asg_name =
    (h : List Request)
    → (asg : AutoScalingGroup) × (others : List AutoScalingGroup) × (server.groups
          (describe_asg asg_name ∷ h)
        ≡ ok (asg ∷ others))

-- The last tick comes when the timeout is up.
late :
    (start time secs : ℤ) (k : ℕ)
    → (start +ℤ pos (tick_interval * suc k)) ≤ℤ time
    → pos_part secs ≤ 10 * suc k
    → leb_ℤ (scale second secs) (time -ℤ start) ≡ true
unfolding ◌+ℤ◌ ◌-ℤ◌ scale
late start time (pos secs) k passed enough = ground (arith, passed, enough)
late start time (ℤ.negsuc secs) k passed enough = ground (arith, passed)

module _ (std : Std) (server : Server) (n : Config) (asg_name : String) where
  -- The count, when the group is found.
  count_lem :
      (h : List Request) (asg : AutoScalingGroup) (others : List AutoScalingGroup)
      → server.groups (describe_asg asg_name ∷ h) ≡ ok (asg ∷ others)
      → get_in_service_instance_count std server n asg_name h
        ≡ (ok (in_service_count asg), describe_asg asg_name ∷ h)
  unfolding get_in_service_instance_count first_group
  count_lem h asg others e = rw e refl

  judged_history :
      (scale_start : ℤ) (r : Result (List Activity)) (h : List Request)
      → (judged std server n scale_start r h).1 ≡ h
  judged_history scale_start (ok activities) h = refl
  judged_history scale_start (err e) h =
      elim (Bool-cases
        (contains (std.error_text e) "Throttling" || contains (std.error_text e) "Rate exceeded")) [
          | inl t ↦ rw t refl
          | inr t ↦ rw t refl
        ]

  abbrev Ends : M Bool → List Request → Type 0
  Ends m h = (b : Bool) × ((m h).0 ≡ ok b)

  after_check-Ends :
      (again : M Bool) (start : ℤ) (issue : Result Bool) (h : List Request)
      → (leb_ℤ (capacity_check_timeout std server n) (server.time (read_clock ∷ h) -ℤ start) ≡ false
          → Ends again (read_clock ∷ h))
      → Ends (after_check std server n again start issue) h
  after_check-Ends again start issue h k = elim (Bool-cases (finds_issue issue)) [
    | inl i ↦ rw i (false, refl)
    | inr i ↦
        elim (Bool-cases
          (leb_ℤ (capacity_check_timeout std server n) (server.time (read_clock ∷ h) -ℤ start))) [
            | inl l ↦ rw (i, l) (false, refl)
            | inr l ↦ rw (i, l) (k l)
          ]
  ]

  after_count-Ends :
      (again : M Bool) (initial current : ℕ) (scale_start start : ℤ) (h : List Request)
      → (leb_ℤ
              (capacity_check_timeout std server n)
              (server.time (read_clock ∷ describe_activities asg_name ∷ h) -ℤ start)
            ≡ false
          → Ends again (read_clock ∷ describe_activities asg_name ∷ h))
      → Ends (after_count std server n again asg_name initial scale_start start (ok current)) h
  unfolding check_for_capacity_issues
  after_count-Ends again initial current scale_start start h k =
      elim (Bool-cases (ltb initial current)) [
        | inl more ↦ rw more (true, refl)
        | inr more ↦
            rw
              (
                more,
                judged_history scale_start (server.activities (describe_activities asg_name ∷ h))
                    (describe_activities asg_name ∷ h),
              )
              (after_check-Ends again start
                (check_for_capacity_issues std server n asg_name scale_start h).0
                (describe_activities asg_name ∷ h) k)
      ]

  module _ (h : List Request) (ticker : IsTicker server h) (exists : IsFound server asg_name) where
    abbrev start : ℤ
    start = server.time (read_clock ∷ h)

    abbrev Loops : ℕ → ℕ → ℤ → List Request → Type 0
    Loops fuel initial scale_start g =
        Ends (await_instance std server n fuel asg_name initial scale_start start)
          (g ++ read_clock ∷ h)

    one_round :
        (f initial : ℕ) (scale_start : ℤ) (g : List Request)
        → ((leb_ℤ (capacity_check_timeout std server n) (
                server.time (
                  read_clock
                    ∷ describe_activities asg_name
                    ∷ describe_asg asg_name
                    ∷ await_tick tick_interval
                    ∷ g
                  ++ read_clock ∷ h)
                -ℤ start)
              ≡ false)
            → Loops f initial scale_start (
                read_clock
                ∷ describe_activities asg_name
                ∷ describe_asg asg_name
                ∷ await_tick tick_interval
                ∷ g))
        → Loops (suc f) initial scale_start g
    unfolding await_instance
    one_round f initial scale_start g k =
        let before = await_tick tick_interval ∷ g ++ read_clock ∷ h in
        let (asg, others, e) = exists before in
        rw (count_lem before asg others e) (
          after_count-Ends (await_instance std server n f asg_name initial scale_start start)
            initial (in_service_count asg) scale_start start (describe_asg asg_name ∷ before) k)

    loop :
        (f initial : ℕ) (scale_start : ℤ) (g : List Request)
        → pos_part n.spot_guard_capacity_check_timeout ≤ 10 * (ticks g + suc f)
        → Loops (suc f) initial scale_start g
    unfolding ticks
    loop zero initial scale_start g enough = one_round zero initial scale_start g λ early.
        let g' =
          describe_activities asg_name ∷ describe_asg asg_name ∷ await_tick tick_interval ∷ g in
        cc (
          sym early
          ∙ late start (server.time (read_clock ∷ g' ++ read_clock ∷ h))
              n.spot_guard_capacity_check_timeout (ticks g) (ticker g') (ground (arith, enough)))
    loop (suc f) initial scale_start g enough = one_round (suc f) initial scale_start g λ early.
        loop f initial scale_start
          (read_clock
            ∷ describe_activities asg_name
            ∷ describe_asg asg_name
            ∷ await_tick tick_interval
            ∷ g)
          (ground (arith, enough))

  -- While the group is found at every tick, the wait ends with an answer, within as many ticks as
  -- have ten seconds each up to the timeout, and one.
  pub wait_for_new_instance-Ends :
      (h : List Request) (scale_start : ℤ) (fuel : ℕ)
      → IsTicker server h
      → IsFound server asg_name
      → pos_part n.spot_guard_capacity_check_timeout ≤ 10 * suc fuel
      → Ends (wait_for_new_instance std server n (suc fuel) asg_name scale_start) h
  unfolding wait_for_new_instance ticks
  wait_for_new_instance-Ends h scale_start fuel ticker exists enough =
      let (asg, others, e) = exists (read_clock ∷ h) in
      rw (count_lem (read_clock ∷ h) asg others e) (
        loop h ticker exists fuel (in_service_count asg) scale_start (describe_asg asg_name ∷ [])
          (ground (arith, enough)))

  unfound :
      (h : List Request) (e : Error)
      → server.groups (describe_asg asg_name ∷ h) ≡ err e
      → get_in_service_instance_count std server n asg_name h
        ≡ (err (wrap "failed to describe ASG" e), describe_asg asg_name ∷ h)
  unfolding get_in_service_instance_count
  unfound h e g = rw g refl

  loop_endless :
      ((g : List Request)
        → (e : Error) × (server.groups (describe_asg asg_name ∷ await_tick tick_interval ∷ g)
            ≡ err e))
      → (fuel initial : ℕ) (scale_start start : ℤ) (h : List Request)
      → (await_instance std server n fuel asg_name initial scale_start start h).0 ≡ err out_of_fuel
  unfolding await_instance
  loop_endless fails zero initial scale_start start h = refl
  loop_endless fails (suc fuel) initial scale_start start h =
      let (e, g) = fails h in
      rw (unfound (await_tick tick_interval ∷ h) e g) (
        loop_endless fails fuel initial scale_start start
          (describe_asg asg_name ∷ await_tick tick_interval ∷ h))

  -- If the group is found when the wait begins, and every description of it after a tick fails, the
  -- wait goes on forever, whatever its timeout: no number of ticks ends it.
  pub wait_for_new_instance_endless :
      (fuel : ℕ) (scale_start : ℤ) (h : List Request) (asg : AutoScalingGroup)
      (others : List AutoScalingGroup)
      → server.groups (describe_asg asg_name ∷ read_clock ∷ h) ≡ ok (asg ∷ others)
      → ((g : List Request)
          → (e : Error) × (server.groups (describe_asg asg_name ∷ await_tick tick_interval ∷ g)
              ≡ err e))
      → (wait_for_new_instance std server n fuel asg_name scale_start h).0 ≡ err out_of_fuel
  unfolding wait_for_new_instance
  wait_for_new_instance_endless fuel scale_start h asg others found fails =
      rw (count_lem (read_clock ∷ h) asg others found) (
        loop_endless fails fuel (in_service_count asg) scale_start (server.time (read_clock ∷ h))
          (describe_asg asg_name ∷ read_clock ∷ h))
