-- ===== src/SpotGuard/Monitor.antt =====
-- pkg/spotguard/monitor.go: the monitor that looks at all tracked fallbacks, check by check. What
-- `executeScaleDown` does is in SpotGuard.Executor.
pub mod Idle
use aws_node_termination_han.Common.{
  ℕ, ◌*◌, String, Bool, true, false, ◌&&◌, not, Option, none, some, List, [], ◌∷◌, if◌then◌else◌,
}
use aws_node_termination_han.Common.Int.{ℤ, leb_ℤ}
use aws_node_termination_han.Config.{Config}
use aws_node_termination_han.Kube.{
  Request, check_health, check_safety, Error, Result, ok, Server, M, return, ◌>>=◌, now,
}
use aws_node_termination_han.Store.{RangeOrder, second}
use aws_node_termination_han.SpotGuard.{
  FallbackEvent, FallbackTracker, get_active_events, update_event, cleanup_old_events,
}
use aws_node_termination_han.SpotGuard.Executor.{execute_scale_down}
use aws_node_termination_han.SpotGuard.Health.{Observation, Verdict, is_spot_capacity_restored}
use aws_node_termination_han.SpotGuard.Safety.{
  ClusterView, Floats, can_scale_down_on_demand, can_safely_drain_node,
}

pub record MonitorConfig (F : Type 0) : Type 0 where
  pub check_interval : ℕ
  pub spot_stability_duration : ℕ
  pub max_cluster_utilization : F
  pub pod_eviction_timeout : ℕ
  pub cleanup_interval : ℕ
  pub max_event_age : ℕ

unfoldable pub default_monitor_config : {F : Type 0} → Floats F → MonitorConfig F
default_monitor_config floats = record {
  check_interval = 30 * second;
  spot_stability_duration = 120 * second;
  max_cluster_utilization = floats.float64 (ℤ.pos 75);
  pod_eviction_timeout = 300 * second;
  cleanup_interval = 600 * second;
  max_event_age = 86_400 * second;
}

-- What the monitor's parts are answered, and whether its context is done.
pub record Outlook (F : Type 0) : Type 0 where
  pub floats : Floats F
  pub max_utilization : F  -- of the safety checker
  pub observed : List Request → Observation
  pub view : List Request → ClusterView
  pub cancelled : List Request → Option Error
  pub order : RangeOrder

-- The tickers of `Start`: which of them comes next is left to the clock.
pub data Ticker : Type 0 where
  check_ticker cleanup_ticker : Ticker

-- Without a time there is none to compare.
abbrev pub same_time : Option ℤ → Option ℤ → Bool
same_time none none = true
same_time none (some u) = false
same_time (some t) none = false
same_time (some t) (some u) = leb_ℤ t u && leb_ℤ u t

abbrev pub healthy_from : Option ℤ → FallbackEvent → FallbackEvent
healthy_from healthy_since e = record e { spot_healthy_since = healthy_since }

module _ {F : Type 0} (server : Server) (n : Config) (config : MonitorConfig F)
    (outlook : Outlook F) where
  abbrev pub observe : String → M Observation
  observe asg_name h =
      (ok (outlook.observed (check_health asg_name ∷ h)), check_health asg_name ∷ h)

  abbrev pub drains : String → M Bool
  drains node_name h = (
    ok (
        can_safely_drain_node outlook.floats outlook.max_utilization
          (outlook.view (check_safety ∷ h)) node_name),
    check_safety ∷ h,
  )

  abbrev pub with_healthy_since : ℕ → Verdict → FallbackTracker → FallbackTracker
  with_healthy_since p v t =
      if same_time v.healthy_since (t.heap p).spot_healthy_since
      then t
      else update_event (t.heap p).event_id (healthy_from v.healthy_since) t

  -- With the error of the check, if there was one, apart.
  abbrev pub after_verdict :
      ℕ → FallbackTracker → Verdict → Option Error → M (Bool × FallbackTracker)
  after_verdict p t v (some e) = return (false, t)
  after_verdict p t v none =
      if not v.is_restored
      then return (false, with_healthy_since p v t)
      else drains (t.heap p).on_demand_node_name >>= λ can_drain.
          return (can_drain, with_healthy_since p v t)

  abbrev pub after_observation : ℕ → FallbackTracker → Observation → M (Bool × FallbackTracker)
  after_observation p t o =
      let v =
        is_spot_capacity_restored (ℤ.pos config.spot_stability_duration)
          (t.heap p).spot_healthy_since o in
      after_verdict p t v v.failure

  abbrev pub after_time : ℕ → FallbackTracker → ℤ → M (Bool × FallbackTracker)
  after_time p t time =
      let e = t.heap p in
      if not (can_scale_down_on_demand time e.timestamp e.minimum_wait_duration)
      then return (false, t)
      else observe e.spot_asg_name >>= after_observation p t

  unfoldable pub should_scale_down_event : ℕ → FallbackTracker → M (Bool × FallbackTracker)
  should_scale_down_event p t = now server >>= after_time p t

  abbrev pub context_error : M (Option Error)
  context_error h = (ok (outlook.cancelled h), h)

  -- An error of the scale-down is logged.
  abbrev pub after_decision : ℕ → ℕ → Bool × FallbackTracker → M FallbackTracker
  after_decision ticks p (false, t) = return t
  after_decision ticks p (true, t) = context_error >>= λ cancelled.
      execute_scale_down server n cancelled ticks p t >>= λ (r, t'). return t'

  unfoldable pub check_event : ℕ → ℕ → FallbackTracker → M FallbackTracker
  check_event ticks p t =
      if (t.heap p).scale_down_initiated
      then return t
      else should_scale_down_event p t >>= after_decision ticks p

  unfoldable pub check_events : ℕ → List ℕ → FallbackTracker → M FallbackTracker
  check_events ticks [] t = return t
  check_events ticks (p ∷ ps) t = check_event ticks p t >>= check_events ticks ps

  -- `checkAndScaleDown`; `ticks` counts the looks at the pods of each scale-down.
  unfoldable pub check_active_events : ℕ → FallbackTracker → M FallbackTracker
  check_active_events ticks t = check_events ticks (get_active_events outlook.order t) t

  unfoldable pub cleanup : FallbackTracker → M FallbackTracker
  cleanup t = now server >>= λ time.
      return (cleanup_old_events outlook.order time (ℤ.pos config.max_event_age) t)

  abbrev pub on_tick : ℕ → Ticker → FallbackTracker → M FallbackTracker
  on_tick ticks check_ticker t = check_active_events ticks t
  on_tick ticks cleanup_ticker t = cleanup t

  -- The loop of `Start`, for the ticks that come before its context is done.
  unfoldable pub run_ticks : ℕ → List Ticker → FallbackTracker → M FallbackTracker
  run_ticks ticks [] t = return t
  run_ticks ticks (c ∷ cs) t = on_tick ticks c t >>= run_ticks ticks cs
