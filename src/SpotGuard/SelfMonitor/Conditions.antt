-- ===== src/SpotGuard/SelfMonitor/Conditions.antt =====
-- On what conditions the self monitor scales its node down.
use aws_node_termination_han.Common.{
  ℕ, ◌≡◌, ◌⊎◌, inl, inr, refl, ap, ◌∙◌, Bool, true, false, not, List, ◌∷◌, if◌then◌else◌, arith,
}
use aws_node_termination_han.Common.Int.{ℤ, ◌-ℤ◌, ◌≤ℤ◌, ltb_ℤ, scale}
use aws_node_termination_han.Config.{Config}
use aws_node_termination_han.Kube.{
  Request, Result, ok, err, get_node, read_clock, check_safety, Server, M, return, ◌>>=◌, attempt,
  now,
}
use aws_node_termination_han.Kube.Gives.{>>=-ok}
use aws_node_termination_han.Std.{Std}
use aws_node_termination_han.Store.{second}
use aws_node_termination_han.SpotGuard.Comprehensive.{SpotAsgHealthStatus}
use aws_node_termination_han.SpotGuard.Marker.{is_marked, is_scale_down_completed}
use aws_node_termination_han.SpotGuard.Safety.{can_safely_drain_node}
use aws_node_termination_han.SpotGuard.SelfMonitor.{
  SelfMonitor, Surroundings, DrainVerdict, can_drain, utilization_too_high, unsafe, check_group,
  drain_verdict, attempt_pre_scale_with_fallback,
}
use aws_node_termination_han.SpotGuard.SelfMonitor.Checks.{
  or_no, pre_scale, after_verdict, with_status, after_minimum_wait, check_and_scale_down,
}

abbrev pub IsFit : SpotAsgHealthStatus → Type 0
IsFit status = (status.is_healthy ≡ true) × (status.nodes_ready ≡ true) × (status.is_stable ≡ true)

chosen :
    (a b : Bool)
    → ok (if a then can_drain else if b then utilization_too_high else unsafe) ≡ ok can_drain
    → a ≡ true
chosen true b e = refl
chosen false true e = cc e
chosen false false e = cc e

-- Three tests in a row, with the same answer where one fails.
three :
    {A : Type 0} (P : A → Type 0) (none_ seen yes_ : A) (a b c : Bool)
    → P (if not a then none_ else if not b then none_ else if not c then seen else yes_)
    → (P none_ → ⊥)
    → (P seen → ⊥)
    → (a ≡ true) × (b ≡ true) × (c ≡ true) × P yes_
three P none_ seen yes_ true true true p f g = (refl, refl, refl, p)
three P none_ seen yes_ true true false p f g = absurd (g p)
three P none_ seen yes_ true false c p f g = absurd (f p)
three P none_ seen yes_ false b c p f g = absurd (f p)

module _ {F : Type 0} (std : Std) (server : Server) (n : Config) (world : Surroundings F) where
  -- The node may be drained, by the answers after the requests.
  abbrev pub DrainsSafely : F → List Request → Type 0
  DrainsSafely max_utilization h =
      can_safely_drain_node world.numbers.floats max_utilization (world.view (check_safety ∷ h))
        n.node_name
      ≡ true

  pre_scale-no :
      (fuel : ℕ) (m m' : SelfMonitor F) (h : List Request)
      → (pre_scale std server n world fuel m h).0 ≡ ok (true, m')
      → ⊥
  pre_scale-no fuel m m' h run =
      let (outcome, _, e) =
        >>=-ok (attempt_pre_scale_with_fallback std server n world fuel m.max_utilization h)
          (λ outcome. return (false, record m { max_utilization = outcome.1 })) (true, m') run in
      cc e

  maybe_pre_scale-no :
      (fuel : ℕ) (m m' : SelfMonitor F) (enabled : Bool) (h : List Request)
      → ((if enabled then pre_scale std server n world fuel m else return (false, m)) h).0
        ≡ ok (true, m')
      → ⊥
  maybe_pre_scale-no fuel m m' true h run = pre_scale-no fuel m m' h run
  maybe_pre_scale-no fuel m m' false h run = cc run

  verdict-yes :
      (fuel ticks : ℕ) (m m' : SelfMonitor F) (verdict : DrainVerdict) (h : List Request)
      → (after_verdict std server n world fuel ticks m verdict h).0 ≡ ok (true, m')
      → verdict ≡ can_drain
  verdict-yes fuel ticks m m' can_drain h run = refl
  verdict-yes fuel ticks m m' utilization_too_high h run =
      absurd (maybe_pre_scale-no fuel m m' n.enable_pre_scale h run)
  verdict-yes fuel ticks m m' unsafe h run = cc run

  verdict-DrainsSafely :
      (max_utilization : F) (h : List Request) (verdict : DrainVerdict)
      → (drain_verdict std server n world max_utilization h).0 ≡ ok verdict
      → verdict ≡ can_drain
      → DrainsSafely max_utilization h
  unfolding drain_verdict
  verdict-DrainsSafely max_utilization h verdict run e = chosen _ _ (run ∙ ap ok e)

  -- What a yes says once the status of the group is known, which the last history was left by.
  status-yes :
      (fuel ticks : ℕ) (m m' : SelfMonitor F) (status : SpotAsgHealthStatus) (h : List Request)
      → (with_status std server n world fuel ticks m status h).0 ≡ ok (true, m')
      → IsFit status × DrainsSafely m.max_utilization h
  status-yes fuel ticks m m' status h run =
      let seen = record m { healthy_since = status.healthy_since } in
      let (healthy, ready, stable, rest) =
        three (λ (k : M (Bool × SelfMonitor F)). (k h).0 ≡ ok (true, m')) (return (false, m))
          (return (false, seen))
          (drain_verdict std server n world m.max_utilization
            >>= after_verdict std server n world fuel ticks seen)
          status.is_healthy status.nodes_ready status.is_stable run (λ e. cc e) (λ e. cc e) in
      let (verdict, given, e) =
        >>=-ok (drain_verdict std server n world m.max_utilization h)
          (after_verdict std server n world fuel ticks seen) (true, m') rest in
      (
        (healthy, ready, stable),
        verdict-DrainsSafely m.max_utilization h verdict given (
            verdict-yes fuel ticks seen m' verdict
              (drain_verdict std server n world m.max_utilization h).1 e),
      )

  result-yes :
      (fuel ticks : ℕ) (m m' : SelfMonitor F) (r : Result SpotAsgHealthStatus) (h : List Request)
      → (or_no (with_status std server n world fuel ticks m) m r h).0 ≡ ok (true, m')
      → ((status : SpotAsgHealthStatus) × (r ≡ ok status) × IsFit status)
        × DrainsSafely m.max_utilization h
  result-yes fuel ticks m m' (err e) h run = cc run
  result-yes fuel ticks m m' (ok status) h run =
      let (fit, safe) = status-yes fuel ticks m m' status h run in ((status, refl, fit), safe)

  abbrev pub checked : SelfMonitor F → List Request → Result SpotAsgHealthStatus × List Request
  checked m =
      check_group std server n world (scale second n.spot_guard_spot_stability_duration)
        m.healthy_since

  waited-yes :
      (fuel ticks : ℕ) (m m' : SelfMonitor F) (time : ℤ) (early : Bool) (h : List Request)
      → ltb_ℤ (time -ℤ m.start_time) (scale second n.spot_guard_minimum_wait_duration) ≡ early
      → ((if early
            then return (false, m)
            else attempt (checked m) >>= or_no (with_status std server n world fuel ticks m) m)
          h).0
        ≡ ok (true, m')
      → (scale second n.spot_guard_minimum_wait_duration ≤ℤ (time -ℤ m.start_time))
        × ((status : SpotAsgHealthStatus) × ((checked m h).0 ≡ ok status) × IsFit status)
        × DrainsSafely m.max_utilization (checked m h).1
  waited-yes fuel ticks m m' time true h e run = cc run
  waited-yes fuel ticks m m' time false h e run =
      let (fit, safe) = result-yes fuel ticks m m' (checked m h).0 (checked m h).1 run in
      (ground (arith, e), fit, safe)

  marked-yes :
      (fuel ticks : ℕ) (m m' : SelfMonitor F) (marked : Bool) (h : List Request)
      → ((if marked
            then return (true, m)
            else now server >>= after_minimum_wait std server n world fuel ticks m)
          h).0
        ≡ ok (true, m')
      → (marked ≡ true)
        ⊎ ((scale second n.spot_guard_minimum_wait_duration
              ≤ℤ (server.time (read_clock ∷ h) -ℤ m.start_time))
            × ((status : SpotAsgHealthStatus) × ((checked m (read_clock ∷ h)).0 ≡ ok status)
                × IsFit status)
            × DrainsSafely m.max_utilization (checked m (read_clock ∷ h)).1)
  marked-yes fuel ticks m m' true h run = inl refl
  marked-yes fuel ticks m m' false h run =
      inr (waited-yes fuel ticks m m' (server.time (read_clock ∷ h)) _ (read_clock ∷ h) refl run)

  -- A check that says that the scale-down was begun has found the node marked by an earlier one, or
  -- else the minimal time was over, the spot group was healthy, with nodes that were ready, and
  -- stable, and the node could be drained safely, in that order of the answers.
  pub check_and_scale_down_sound :
      (fuel ticks : ℕ) (m m' : SelfMonitor F) (h : List Request)
      → (check_and_scale_down std server n world fuel ticks m h).0 ≡ ok (true, m')
      → let first = get_node n.node_name ∷ h in
        (is_marked std server n (server.node first) ≡ true)
        ⊎ ((scale second n.spot_guard_minimum_wait_duration
              ≤ℤ (server.time (read_clock ∷ first) -ℤ m.start_time))
            × ((status : SpotAsgHealthStatus) × ((checked m (read_clock ∷ first)).0 ≡ ok status)
                × IsFit status)
            × DrainsSafely m.max_utilization (checked m (read_clock ∷ first)).1)
  unfolding check_and_scale_down is_scale_down_completed
  check_and_scale_down_sound fuel ticks m m' h run =
      marked-yes fuel ticks m m' (is_marked std server n (server.node (get_node n.node_name ∷ h)))
        (get_node n.node_name ∷ h) run
