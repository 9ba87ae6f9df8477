-- ===== src/SpotGuard/ScaleDown.antt =====
-- What a scale-down does to the group, to the node and to the tracker.
use aws_node_termination_han.Common.{
  ℕ, ◌*◌, ◌%◌, ◌≡◌, refl, String, Bool, true, false, not, none, some, List, [], ◌∷◌, arith, lookup,
}
use aws_node_termination_han.Common.Int.{ℤ, ◌-ℤ◌, ◌≤ℤ◌, ltb_ℤ, pos_part}
use aws_node_termination_han.Config.{Config}
use aws_node_termination_han.Kube.{
  Result, ok, err, wrap, Request, sleep, describe_asg, set_desired_capacity, AutoScalingGroup,
  Server, on_error, ask, and_then, rethrow, read_clock, ◌>>=◌,
}
use aws_node_termination_han.Kube.Trace.{
  Extends, same, more, Extends-trans, Sends, >>=-Sends, on_error-Sends, if-Sends, IsGentle,
}
use aws_node_termination_han.Node.{
  maybe_mark_for_exclusion_from_load_balancers, cordon, fetch_kubernetes_node, add_label,
}
use aws_node_termination_han.Node.Pods.{cordon_and_drain, pods_for_recorder, evict_listed}
use aws_node_termination_han.Node.Gentle.{add_label-IsGentle, fetch-IsGentle, cordon-IsGentle}
use aws_node_termination_han.Handler.{failed}
use aws_node_termination_han.SpotGuard.{FallbackTracker, update_event}
use aws_node_termination_han.SpotGuard.Executor.{
  first_group, lower_capacity, decrease_asg_capacity, drain_node, scale_down_on_demand_node,
  execute_scale_down, begun, recorded,
}
use aws_node_termination_han.Store.{second}

-- The requests that a group's description permits: a new capacity is one less than the capacity,
-- and not below the minimal size; without a group there is none.
abbrev pub IsPermitted : String → Result (List AutoScalingGroup) → Request → Type 0
IsPermitted asg_name (ok (asg ∷ rest)) (set_desired_capacity group size) =
    (group ≡ asg_name) × (size ≡ asg.desired_capacity -ℤ ℤ.pos 1) × (asg.min_size ≤ℤ size)
IsPermitted asg_name (ok []) (set_desired_capacity group size) = ⊥
IsPermitted asg_name (err e) (set_desired_capacity group size) = ⊥
IsPermitted asg_name groups _ = Unit {0}

module _ (server : Server) (asg_name : String) where
  lower-Permitted :
      (asg : AutoScalingGroup) (rest : List AutoScalingGroup)
      → Sends (IsPermitted asg_name (ok (asg ∷ rest))) (lower_capacity server asg_name asg)
  unfolding lower_capacity
  lower-Permitted asg rest =
      if-Sends (ltb_ℤ (asg.desired_capacity -ℤ ℤ.pos 1) asg.min_size) _ _ (λ _ h. same)
        λ within.
          >>=-Sends
            (on_error _
              (ask (set_desired_capacity asg_name (asg.desired_capacity -ℤ ℤ.pos 1)) server.done))
            _
            (on_error-Sends _
              (ask (set_desired_capacity asg_name (asg.desired_capacity -ℤ ℤ.pos 1)) server.done)
              (λ h. more (refl, refl, ground (arith, within)) same))
            λ _ h. more tt (more tt same)

  described-Permitted :
      (r : Result (List AutoScalingGroup)) (h : List Request)
      → Extends
          (IsPermitted asg_name r)
          h
          (and_then
            (rethrow (wrap "failed to describe ASG") (r, describe_asg asg_name ∷ h))
            (λ groups. first_group groups >>= lower_capacity server asg_name)).1
  unfolding first_group
  described-Permitted (ok []) h = more tt same
  described-Permitted (ok (asg ∷ rest)) h =
      Extends-trans (more tt same) (lower-Permitted asg rest (describe_asg asg_name ∷ h))
  described-Permitted (err e) h = more tt same

  -- The group was described, the capacity of the described group less one was asked for and
  -- granted, and after a pause the group was described once more.
  abbrev pub Lowered : List Request → List Request → Type 0
  Lowered h h' =
      (asg : AutoScalingGroup) × (rest : List AutoScalingGroup) × (server.groups
          (describe_asg asg_name ∷ h)
        ≡ ok (asg ∷ rest))
      × (server.done (
            set_desired_capacity asg_name (asg.desired_capacity -ℤ ℤ.pos 1)
            ∷ describe_asg asg_name
            ∷ h)
          ≡ ok tt)
      × (h'
          ≡ describe_asg asg_name
            ∷ sleep (2 * second)
            ∷ set_desired_capacity asg_name (asg.desired_capacity -ℤ ℤ.pos 1)
            ∷ describe_asg asg_name
            ∷ h)

  granted-Lowered :
      (asg : AutoScalingGroup) (rest : List AutoScalingGroup) (h : List Request) (low : Bool)
      (r : Result (Unit {0}))
      → server.groups (describe_asg asg_name ∷ h) ≡ ok (asg ∷ rest)
      → ltb_ℤ (asg.desired_capacity -ℤ ℤ.pos 1) asg.min_size ≡ low
      → server.done (
          set_desired_capacity asg_name (asg.desired_capacity -ℤ ℤ.pos 1)
          ∷ describe_asg asg_name
          ∷ h)
        ≡ r
      → (decrease_asg_capacity server asg_name h).0 ≡ ok tt
      → Lowered h (decrease_asg_capacity server asg_name h).1
  unfolding decrease_asg_capacity first_group lower_capacity
  granted-Lowered asg rest h true r g l d e = cc (rw (g, l) at e)
  granted-Lowered asg rest h false (err x) g l d e = cc (rw (g, l, d) at e)
  granted-Lowered asg rest h false (ok u) g l d e = (asg, rest, g, d, rw (g, l, d) refl)

  found-Lowered :
      (h : List Request) (r : Result (List AutoScalingGroup))
      → server.groups (describe_asg asg_name ∷ h) ≡ r
      → (decrease_asg_capacity server asg_name h).0 ≡ ok tt
      → Lowered h (decrease_asg_capacity server asg_name h).1
  unfolding decrease_asg_capacity first_group
  found-Lowered h (err x) g e = cc (rw g at e)
  found-Lowered h (ok []) g e = cc (rw g at e)
  found-Lowered h (ok (asg ∷ rest)) g e = granted-Lowered asg rest h _ _ g refl refl e

  -- `decreaseASGCapacity` asks for no capacity but that of the group that it was asked to, one less than
  -- the group's description says and not below its minimal size, and for none if the description
  -- fails or names no group; and if it succeeds, it has asked for that capacity and was granted it.
  pub decrease_asg_capacity-IsPermitted :
      (h : List Request)
      → Extends
          (IsPermitted asg_name (server.groups (describe_asg asg_name ∷ h)))
          h
          (decrease_asg_capacity server asg_name h).1
        × ((decrease_asg_capacity server asg_name h).0 ≡ ok tt
            → Lowered h (decrease_asg_capacity server asg_name h).1)
  unfolding decrease_asg_capacity
  decrease_asg_capacity-IsPermitted h = (
    described-Permitted (server.groups (describe_asg asg_name ∷ h)) h,
    found-Lowered h (server.groups (describe_asg asg_name ∷ h)) refl,
  )

marks-IsGentle :
    (server : Server) (n : Config) (node_name : String)
    → Sends IsGentle (maybe_mark_for_exclusion_from_load_balancers server n node_name)
unfolding maybe_mark_for_exclusion_from_load_balancers
marks-IsGentle server n node_name =
    if-Sends (not n.exclude_from_load_balancers) _ _ (λ _ h. same)
      λ _.
        on_error-Sends _ (add_label server n node_name _ _ true)
          (add_label-IsGentle server n node_name _ _ true)

-- With the option to list pods from the API server's cache, the drain of a scale-down, which has
-- no recorder, evicts no pod, whatever pods the node runs.
pub drain_node-cached :
    (server : Server) (n : Config) (node_name : String) (h : List Request)
    → n.use_apiserver_cache_to_list_pods ≡ true
    → Extends IsGentle h (drain_node server n node_name h).1
unfolding drain_node cordon_and_drain pods_for_recorder evict_listed
drain_node-cached server n node_name h cached =
    (if-Sends n.dry_run _ _ (λ _ h. same)
        λ _.
          >>=-Sends (maybe_mark_for_exclusion_from_load_balancers server n node_name) _
            (marks-IsGentle server n node_name)
            λ _. >>=-Sends (cordon server n node_name) _ (cordon-IsGentle server n node_name) λ _.
              >>=-Sends (fetch_kubernetes_node server n node_name) _
                (fetch-IsGentle server n node_name) λ node. rw cached (λ h. same))
      h

recorded-begun :
    (p : ℕ) (t : FallbackTracker) (r : Result (Unit {0}))
    → lookup (t.heap p).event_id t.events ≡ some p
    → ((recorded (t.heap p).event_id (update_event (t.heap p).event_id begun t) r).heap
        p).scale_down_initiated
      ≡ not (failed r)
unfolding update_event
recorded-begun p t (ok u) tracked = ground (arith, tracked)
recorded-begun p t (err e) tracked = ground (arith, tracked)

-- A scale-down of a tracked event that is not cancelled always returns, and the event counts as
-- begun exactly if it succeeded: after a failure the event is active again.
pub execute_scale_down-begun :
    (server : Server) (n : Config) (ticks p : ℕ) (t : FallbackTracker) (h : List Request)
    → lookup (t.heap p).event_id t.events ≡ some p
    → (r : Result (Unit {0}) × FallbackTracker) × ((execute_scale_down server n none ticks p t h).0
        ≡ ok r)
      × ((r.1.heap p).scale_down_initiated ≡ not (failed r.0))
unfolding execute_scale_down
execute_scale_down-begun server n ticks p t h tracked =
    let marked = update_event (t.heap p).event_id begun t in
    let (r, _) =
      scale_down_on_demand_node server n ticks (marked.heap p)
        (sleep (pos_part (server.time (read_clock ∷ h)) % 30 * second) ∷ read_clock ∷ h) in
    ((r, recorded (t.heap p).event_id marked r), refl, recorded-begun p t r tracked)
