-- ===== src/SpotGuard/Growing.antt =====
-- What the success of `ScaleUpWithFallback` says of the groups.
use mathlib.Core.Path.{subst}
use aws_node_termination_han.Common.{
  ℕ, zero, suc, ◌<◌, ◌≡◌, refl, ap, ◌∙◌, ◌⊎◌, inl, inr, arith, String, Bool, true, false, List, [],
  ◌∷◌, if◌then◌else◌, ltb, Bool-cases,
}
use aws_node_termination_han.Common.Int.{ℤ, ◌-ℤ◌, leb_ℤ}
use aws_node_termination_han.Config.{Config}
use aws_node_termination_han.Kube.{
  Error, Result, ok, err, status, wrap, new, code, skip, out_of_fuel, AutoScalingGroup, Request,
  describe_asg, await_tick, read_clock, Server, M, rethrow, return, fail, on_error,
}
use aws_node_termination_han.Kube.Gives.{>>=-ok}
use aws_node_termination_han.Kube.Trace.{Extends, same, more, Extends-trans, Extends-map}
use aws_node_termination_han.Kube.Total.{Anything}
use aws_node_termination_han.Std.{Std}
use aws_node_termination_han.SpotGuard.Executor.{first_group}
use aws_node_termination_han.SpotGuard.Raising.{check-Runs, scale_up_asg-Runs, wait-Runs}
use aws_node_termination_han.SpotGuard.ScaleUp.{
  tick_interval, in_service_count, finds_issue, scale_up_asg, get_in_service_instance_count,
  check_for_capacity_issues, capacity_check_timeout, after_check, after_count, await_instance,
  wait_for_new_instance, fallback_to_on_demand, or_fallback, after_spot_scale_up,
  scale_up_with_fallback,
}

abbrev pub Later : List Request → List Request → Type 0
Later = Extends Anything

rethrow-ok :
    {A : Type 0} (f : Error → Error) (r : Result A × List Request) (a : A)
    → (rethrow f r).0 ≡ ok a
    → (r.0 ≡ ok a) × ((rethrow f r).1 ≡ r.1)
rethrow-ok f (ok b, h) a e = (e, refl)
rethrow-ok f (err x, h) a e = cc e

module _ (std : Std) (server : Server) (n : Config) where
  -- The group, as it was described after a history.
  abbrev pub ShownAt : String → List Request → AutoScalingGroup → Type 0
  ShownAt asg_name g asg =
      (others : List AutoScalingGroup) × (server.groups (describe_asg asg_name ∷ g)
        ≡ ok (asg ∷ others))

  -- Some time after the history more instances than the number are shown.
  abbrev pub Grown : String → ℕ → List Request → Type 0
  Grown asg_name initial h =
      (g : List Request) × (asg : AutoScalingGroup) × Later h g
      × ShownAt asg_name g asg
      × (initial < in_service_count asg)

  -- A description after the history shows the group, and a later one shows it with more instances.
  abbrev pub More : String → List Request → Type 0
  More asg_name h =
      (g : List Request) × (before : AutoScalingGroup) × Later h g
      × ShownAt asg_name g before
      × Grown asg_name (in_service_count before) (describe_asg asg_name ∷ g)

  earlier :
      (asg_name : String) (initial : ℕ) (h g : List Request)
      → Later h g
      → Grown asg_name initial g
      → Grown asg_name initial h
  earlier asg_name initial h g l (g', asg, l', shown, grown) =
      (g', asg, Extends-trans l l', shown, grown)

  before_then :
      (asg_name : String) (h g : List Request) → Later h g → More asg_name g → More asg_name h
  before_then asg_name h g l (g', asg, l', shown, rest) = (g', asg, Extends-trans l l', shown, rest)

  -- What a count says of the group, and the request that it makes.
  count_lem :
      (asg_name : String) (g : List Request) (r : Result (List AutoScalingGroup))
      → server.groups (describe_asg asg_name ∷ g) ≡ r
      → ((get_in_service_instance_count std server n asg_name g).1 ≡ describe_asg asg_name ∷ g)
        × ((k : ℕ)
            → (get_in_service_instance_count std server n asg_name g).0 ≡ ok k
            → (asg : AutoScalingGroup) × ShownAt asg_name g asg × (k ≡ in_service_count asg))
  unfolding get_in_service_instance_count first_group
  count_lem asg_name g (err x) e = (rw e refl, λ k c. cc (rw e at c))
  count_lem asg_name g (ok []) e = (rw e refl, λ k c. cc (rw e at c))
  count_lem asg_name g (ok (asg ∷ others)) e =
      (rw e refl, λ k c. (asg, (others, e), ok_injective (rw e at c)))
    where
      ok_injective : {A : Type 0} {a b : A} → ok a ≡ ok b → b ≡ a
      ok_injective e = cc e

  looked :
      (asg_name : String) (scale_start : ℤ) (g : List Request)
      → Later g (check_for_capacity_issues std server n asg_name scale_start g).1
  looked asg_name scale_start g =
      Extends-map (λ q p. tt) ((check-Runs std server n asg_name scale_start).sends g)

  -- What is left of a round after the check of the activities.
  checked_lem :
      (asg_name : String) (initial : ℕ) (again : M Bool) (start : ℤ) (issue : Result Bool)
      (g : List Request)
      → ((g' : List Request) → (again g').0 ≡ ok true → Grown asg_name initial g')
      → (after_check std server n again start issue g).0 ≡ ok true
      → Grown asg_name initial g
  checked_lem asg_name initial again start issue g ih e = elim (Bool-cases (finds_issue issue)) [
    | inl found ↦ cc (rw found at e)
    | inr none_found ↦
        let late =
          leb_ℤ (capacity_check_timeout std server n) (server.time (read_clock ∷ g) -ℤ start) in
        elim (Bool-cases late) [
          | inl over ↦ cc (rw (none_found, over) at e)
          | inr early ↦
              earlier asg_name initial g (read_clock ∷ g) (more tt same)
                (ih (read_clock ∷ g) (rw (none_found, early) at e))
        ]
  ]

  -- A round, from the count on, which has been made after `g`.
  counted_lem :
      (asg_name : String) (initial : ℕ) (again : M Bool) (scale_start start : ℤ) (r : Result ℕ)
      (g : List Request)
      → ((k : ℕ)
          → r ≡ ok k
          → (asg : AutoScalingGroup) × ShownAt asg_name g asg × (k ≡ in_service_count asg))
      → ((g' : List Request) → (again g').0 ≡ ok true → Grown asg_name initial g')
      → (after_count std server n again asg_name initial scale_start start r
          (describe_asg asg_name ∷ g)).0
        ≡ ok true
      → Grown asg_name initial g
  counted_lem asg_name initial again scale_start start (err x) g shown ih e =
      earlier asg_name initial g (describe_asg asg_name ∷ g) (more tt same)
        (ih (describe_asg asg_name ∷ g) e)
  counted_lem asg_name initial again scale_start start (ok k) g shown ih e =
      elim (Bool-cases (ltb initial k)) [
        | inl more_now ↦
            let (asg, s, c) = shown k refl in (g, asg, same, s, ground (arith, more_now, c))
        | inr as_many ↦
            let asked = describe_asg asg_name ∷ g in
            let checked = check_for_capacity_issues std server n asg_name scale_start asked in
            earlier asg_name initial g checked.1
              (Extends-trans (more tt same) (looked asg_name scale_start asked))
              (checked_lem asg_name initial again start checked.0 checked.1 ih (rw as_many at e))
      ]

  await-Grown :
      (fuel : ℕ) (asg_name : String) (initial : ℕ) (scale_start start : ℤ) (h : List Request)
      → (await_instance std server n fuel asg_name initial scale_start start h).0 ≡ ok true
      → Grown asg_name initial h
  unfolding await_instance
  await-Grown zero asg_name initial scale_start start h e = cc e
  await-Grown (suc fuel) asg_name initial scale_start start h e =
      let g = await_tick tick_interval ∷ h in
      let (asked, shown) = count_lem asg_name g (server.groups (describe_asg asg_name ∷ g)) refl in
      earlier asg_name initial h g (more tt same) (
        counted_lem asg_name initial
          (await_instance std server n fuel asg_name initial scale_start start) scale_start start
          (get_in_service_instance_count std server n asg_name g).0 g shown
          (λ g' e'. await-Grown fuel asg_name initial scale_start start g' e') (rw asked at e))

  wait-More :
      (fuel : ℕ) (asg_name : String) (scale_start : ℤ) (h : List Request)
      → (wait_for_new_instance std server n fuel asg_name scale_start h).0 ≡ ok true
      → More asg_name h
  unfolding wait_for_new_instance
  wait-More fuel asg_name scale_start h e =
      let g = read_clock ∷ h in
      let (asked, shown) = count_lem asg_name g (server.groups (describe_asg asg_name ∷ g)) refl in
      let (initial, counted, rest) =
        >>=-ok (get_in_service_instance_count std server n asg_name g)
          (λ initial. await_instance std server n fuel asg_name initial scale_start (server.time g))
          true e in
      let (before, s, c) = shown initial counted in
      (
        g,
        before,
        more tt same,
        s,
        subst (λ k. Grown asg_name k (describe_asg asg_name ∷ g)) c
            (await-Grown fuel asg_name initial scale_start (server.time g)
              (describe_asg asg_name ∷ g) (rw asked at rest)),
      )

  scaled : (asg_name : String) (g : List Request) → Later g (scale_up_asg std server n asg_name g).1
  scaled asg_name g = Extends-map (λ q p. tt) ((scale_up_asg-Runs std server n asg_name).sends g)

  only_true :
      (success : Bool) (e : Error) (h : List Request)
      → ((if success then return tt else fail e) h).0 ≡ ok tt
      → success ≡ true
  only_true true e h run = refl
  only_true false e h run = cc run

  fallback-More :
      (fuel : ℕ) (h : List Request)
      → (fallback_to_on_demand std server n fuel h).0 ≡ ok tt
      → More n.on_demand_asg_name h
  unfolding fallback_to_on_demand
  fallback-More fuel h e =
      let g = read_clock ∷ h in
      let raise = scale_up_asg std server n n.on_demand_asg_name in
      let wait = wait_for_new_instance std server n fuel n.on_demand_asg_name (server.time g) in
      let (u, went, rest) =
        >>=-ok (on_error (wrap "failed to scale up on-demand ASG") raise g) _ tt e in
      let (_, history) = rethrow-ok (wrap "failed to scale up on-demand ASG") (raise g) u went in
      let (success, waited, last) =
        >>=-ok (on_error (wrap "error waiting for on-demand instance") wait (raise g).1) _ tt
          (rw history at rest) in
      let (ended, _) =
        rethrow-ok (wrap "error waiting for on-demand instance") (wait (raise g).1) success
          waited in
      before_then n.on_demand_asg_name h (raise g).1
        (Extends-trans (more tt same) (scaled n.on_demand_asg_name g))
        (wait-More fuel n.on_demand_asg_name (server.time g) (raise g).1
          (ended ∙ ap ok (only_true success _ _ last)))

  abbrev Replaced : List Request → Type 0
  Replaced h = More n.spot_asg_name h ⊎ More n.on_demand_asg_name h

  or_fallback-Replaced :
      (fuel : ℕ) (h : List Request) (r : Result Bool) (g : List Request)
      → Later h g
      → (r ≡ ok true → More n.spot_asg_name h)
      → (or_fallback std server n fuel r g).0 ≡ ok tt
      → Replaced h
  or_fallback-Replaced fuel h (ok true) g l m e = inl (m refl)
  or_fallback-Replaced fuel h (ok false) g l m e =
      inr (before_then n.on_demand_asg_name h g l (fallback-More fuel g e))
  or_fallback-Replaced fuel h (err out_of_fuel) g l m e = cc e
  or_fallback-Replaced fuel h (err (status _)) g l m e =
      inr (before_then n.on_demand_asg_name h g l (fallback-More fuel g e))
  or_fallback-Replaced fuel h (err (new _)) g l m e =
      inr (before_then n.on_demand_asg_name h g l (fallback-More fuel g e))
  or_fallback-Replaced fuel h (err (wrap _ _)) g l m e =
      inr (before_then n.on_demand_asg_name h g l (fallback-More fuel g e))
  or_fallback-Replaced fuel h (err (code _)) g l m e =
      inr (before_then n.on_demand_asg_name h g l (fallback-More fuel g e))
  or_fallback-Replaced fuel h (err (skip _)) g l m e =
      inr (before_then n.on_demand_asg_name h g l (fallback-More fuel g e))

  waited :
      (fuel : ℕ) (asg_name : String) (scale_start : ℤ) (g : List Request)
      → Later g (wait_for_new_instance std server n fuel asg_name scale_start g).1
  waited fuel asg_name scale_start g =
      Extends-map (λ q p. tt) ((wait-Runs std server n fuel asg_name scale_start).sends g)

  after_spot-Replaced :
      (fuel : ℕ) (scale_start : ℤ) (h : List Request) (r : Result (Unit {0})) (g : List Request)
      → Later h g
      → (after_spot_scale_up std server n fuel scale_start r g).0 ≡ ok tt
      → Replaced h
  after_spot-Replaced fuel scale_start h (err x) g l e =
      inr (before_then n.on_demand_asg_name h g l (fallback-More fuel g e))
  after_spot-Replaced fuel scale_start h (ok u) g l e =
      let wait = wait_for_new_instance std server n fuel n.spot_asg_name scale_start g in
      or_fallback-Replaced fuel h wait.0 wait.1
        (Extends-trans l (waited fuel n.spot_asg_name scale_start g))
        (λ success.
          before_then n.spot_asg_name h g l (wait-More fuel n.spot_asg_name scale_start g success))
        e

  -- When scaling up with the fallback succeeds, one of its two groups was described since it began, and a
  -- later description showed it with more instances in service than that one.
  pub scale_up_with_fallback_replaces :
      (fuel : ℕ) (h : List Request)
      → (scale_up_with_fallback std server n fuel h).0 ≡ ok tt
      → More n.spot_asg_name h ⊎ More n.on_demand_asg_name h
  unfolding scale_up_with_fallback
  scale_up_with_fallback_replaces fuel h e =
      let g = read_clock ∷ h in
      let raised = scale_up_asg std server n n.spot_asg_name g in
      after_spot-Replaced fuel (server.time g) h raised.0 raised.1
        (Extends-trans (more tt same) (scaled n.spot_asg_name g)) e
