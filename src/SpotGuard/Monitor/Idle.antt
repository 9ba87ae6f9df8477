-- ===== src/SpotGuard/Monitor/Idle.antt =====
-- When the monitor of Spot Guard does nothing but look.
use mathlib.Core.Path.{subst}
use aws_node_termination_han.Common.{
  ℕ, ◌≡◌, ◌⊎◌, inl, inr, refl, sym, ◌∙◌, arith, Bool, true, false, not, Option, none, some, List,
  [], ◌∷◌, lookup, Bool-cases, Option-cases,
}
use aws_node_termination_han.Common.Int.{ℤ, ◌-ℤ◌, ◌≤ℤ◌, ltb_ℤ}
use aws_node_termination_han.Config.{Config}
use aws_node_termination_han.Kube.{
  Request, read_clock, check_health, check_safety, Error, Result, ok, Server, M, and_then,
}
use aws_node_termination_han.Kube.Trace.{Extends, same, more, Extends-trans}
use aws_node_termination_han.SpotGuard.{
  FallbackEvent, FallbackTracker, get_active_events, update_event, cleanup_old_events,
}
use aws_node_termination_han.SpotGuard.Health.{Verdict, is_spot_capacity_restored}
use aws_node_termination_han.SpotGuard.Safety.{can_scale_down_on_demand, can_safely_drain_node}
use aws_node_termination_han.SpotGuard.Monitor.{
  MonitorConfig, Outlook, Ticker, check_ticker, cleanup_ticker, same_time, with_healthy_since,
  after_verdict, after_decision, should_scale_down_event, check_event, check_events,
  check_active_events, cleanup, on_tick, run_ticks,
}

-- The requests of a look.
abbrev pub is_look : Request → Bool
is_look read_clock = true
is_look (check_health asg_name) = true
is_look check_safety = true
is_look _ = false

abbrev pub IsLook : Request → Type 0
IsLook q = is_look q ≡ true

-- The scale-downs that have begun are the same.
abbrev pub SameBegun : FallbackTracker → FallbackTracker → Type 0
SameBegun t t' = (q : ℕ) → (t'.heap q).scale_down_initiated ≡ (t.heap q).scale_down_initiated

module _ {F : Type 0} (server : Server) (n : Config) (config : MonitorConfig F)
    (outlook : Outlook F) where
  -- What the check of the event's group finds after a history.
  abbrev pub verdict_at : FallbackEvent → List Request → Verdict
  verdict_at e g =
      is_spot_capacity_restored (ℤ.pos config.spot_stability_duration) e.spot_healthy_since
        (outlook.observed (check_health e.spot_asg_name ∷ g))

  abbrev pub drains_at : FallbackEvent → List Request → Bool
  drains_at e g =
      can_safely_drain_node outlook.floats outlook.max_utilization
        (outlook.view (check_safety ∷ check_health e.spot_asg_name ∷ g)) e.on_demand_node_name

  -- The event is ripe when it is looked at after the history: its scale-down has not begun, its minimal
  -- time is over by the clock that is read then, and the answers to the next two requests say that
  -- its spot capacity is restored and that its node can be drained safely.
  abbrev pub IsRipe : FallbackEvent → List Request → Type 0
  IsRipe e h =
      (e.scale_down_initiated ≡ false)
      × (e.minimum_wait_duration ≤ℤ (server.time (read_clock ∷ h) -ℤ e.timestamp))
      × ((verdict_at e (read_clock ∷ h)).is_restored ≡ true)
      × (drains_at e (read_clock ∷ h) ≡ true)

  -- In the round over these events that starts in this state, one of them is ripe when its turn comes.
  pub data Finds (ticks : ℕ) : List ℕ → FallbackTracker → List Request → Type 0 where
    this :
        {p : ℕ} {ps : List ℕ} {t : FallbackTracker} {h : List Request}
        → IsRipe (t.heap p) h
        → Finds ticks (p ∷ ps) t h
    further :
        {p : ℕ} {ps : List ℕ} {t : FallbackTracker} {h : List Request} (t' : FallbackTracker)
        → (check_event server n config outlook ticks p t h).0 ≡ ok t'
        → Finds ticks ps t' (check_event server n config outlook ticks p t h).1
        → Finds ticks (p ∷ ps) t h

  -- On one of the ticks to come from this state, a round finds a ripe event.
  pub data Permitted (ticks : ℕ) : List Ticker → FallbackTracker → List Request → Type 0 where
    at_once :
        {cs : List Ticker} {t : FallbackTracker} {h : List Request}
        → Finds ticks (get_active_events outlook.order t) t h
        → Permitted ticks (check_ticker ∷ cs) t h
    after_tick :
        {c : Ticker} {cs : List Ticker} {t : FallbackTracker} {h : List Request}
        (t' : FallbackTracker)
        → (on_tick server n config outlook ticks c t h).0 ≡ ok t'
        → Permitted ticks cs t' (on_tick server n config outlook ticks c t h).1
        → Permitted ticks (c ∷ cs) t h

  -- A run that ends, has only looked, and has begun no scale-down.
  abbrev pub Looks : FallbackTracker → List Request → Result FallbackTracker × List Request → Type 0
  Looks t h r = (t' : FallbackTracker) × (r.0 ≡ ok t') × Extends IsLook h r.1 × SameBegun t t'

  abbrev Idle :
      Type 0 → FallbackTracker → List Request → Result FallbackTracker × List Request → Type 0
  Idle P t h r = P ⊎ Looks t h r

  later :
      {P Q : Type 0} (t t' : FallbackTracker) (h g : List Request)
      (r : Result FallbackTracker × List Request)
      → Extends IsLook h g
      → SameBegun t t'
      → (P → Q)
      → Idle P t' g r
      → Idle Q t h r
  later t t' h g r e s f i = elim i [
    | inl p ↦ inl (f p)
    | inr (t2, run, e2, s2) ↦ inr (t2, run, Extends-trans e e2, λ q. s2 q ∙ s q)
  ]

  -- Two parts in a row; `P'` is what the second part may find.
  and_then-Idle :
      {P Q : Type 0} (P' : FallbackTracker → List Request → Type 0) (t : FallbackTracker)
      (h : List Request) (r : Result FallbackTracker × List Request)
      (f : FallbackTracker → M FallbackTracker)
      → Idle P t h r
      → (P → Q)
      → ((t' : FallbackTracker) → r.0 ≡ ok t' → P' t' r.1 → Q)
      → ((t' : FallbackTracker) → Idle (P' t' r.1) t' r.1 (f t' r.1))
      → Idle Q t h (and_then r f)
  and_then-Idle {Q = Q} P' t h (x, g) f i first second k = elim i [
    | inl p ↦ inl (first p)
    | inr (t', run, e, s) ↦
        subst (λ (y : Result FallbackTracker). Idle Q t h (and_then (y, g) f)) (sym run)
          (later t t' h g (f t' g) e s (second t' run) (k t'))
  ]

  with_healthy_since-SameBegun :
      (p : ℕ) (v : Verdict) (t : FallbackTracker)
      → SameBegun t (with_healthy_since server n config outlook p v t)
  unfolding update_event
  with_healthy_since-SameBegun p v t q =
      elim (Bool-cases (same_time v.healthy_since (t.heap p).spot_healthy_since)) [
        | inl e ↦ rw e refl
        | inr e ↦ elim (Option-cases (lookup (t.heap p).event_id t.events)) [
          | inl absent ↦ rw (e, absent) refl
          | inr (r, found) ↦ ground (arith, e, found)
        ]
      ]

  -- What follows the check of the group, whose error is apart.
  verdict-Idle :
      {P : Type 0} (ticks p : ℕ) (t : FallbackTracker) (v : Verdict) (failure : Option Error)
      (h : List Request)
      → (v.is_restored ≡ true
          → can_safely_drain_node outlook.floats outlook.max_utilization
              (outlook.view (check_safety ∷ h))
              (t.heap p).on_demand_node_name
            ≡ true
          → P)
      → Idle P t h (
          and_then
            (after_verdict server n config outlook p t v failure h)
            (after_decision server n config outlook ticks p))
  verdict-Idle ticks p t v (some e) h k = inr (t, refl, same, λ q. refl)
  verdict-Idle ticks p t v none h k =
      let t' = with_healthy_since server n config outlook p v t in
      let begun = with_healthy_since-SameBegun p v t in
      let safe =
        can_safely_drain_node outlook.floats outlook.max_utilization
          (outlook.view (check_safety ∷ h)) (t.heap p).on_demand_node_name in
      elim (Bool-cases v.is_restored) [
        | inr missing ↦ rw missing (inr (t', refl, same, begun))
        | inl restored ↦ elim (Bool-cases safe) [
          | inr unsafe ↦ rw (restored, unsafe) (inr (t', refl, more refl same, begun))
          | inl fine ↦ inl (k restored fine)
        ]
      ]

  over : (a b : ℤ) → not (ltb_ℤ a b) ≡ true → b ≤ℤ a
  over a b e = ground (arith, e)

  event-Idle :
      (ticks p : ℕ) (t : FallbackTracker) (h : List Request)
      → Idle (IsRipe (t.heap p) h) t h (check_event server n config outlook ticks p t h)
  unfolding check_event should_scale_down_event
  event-Idle ticks p t h = elim (Bool-cases (t.heap p).scale_down_initiated) [
    | inl begun ↦ rw begun (inr (t, refl, same, λ q. refl))
    | inr fresh ↦
        let e = t.heap p in
        let v = verdict_at e (read_clock ∷ h) in
        let waited =
          can_scale_down_on_demand (server.time (read_clock ∷ h)) e.timestamp
            e.minimum_wait_duration in
        elim (Bool-cases waited) [
          | inr early ↦ rw (fresh, early) (inr (t, refl, more refl same, λ q. refl))
          | inl late ↦
              let run : Idle (IsRipe e h) t h (
                  and_then
                    (after_verdict server n config outlook p t v v.failure
                      (check_health e.spot_asg_name ∷ read_clock ∷ h))
                    (after_decision server n config outlook ticks p)) =
                later t t h (check_health e.spot_asg_name ∷ read_clock ∷ h) _
                  (more refl (more refl same)) (λ q. refl) (λ x. x)
                  (verdict-Idle ticks p t v v.failure
                    (check_health e.spot_asg_name ∷ read_clock ∷ h)
                    (λ restored safe. (
                      fresh,
                      over (server.time (read_clock ∷ h) -ℤ e.timestamp) e.minimum_wait_duration
                          late,
                      restored,
                      safe,
                    ))) in
              elim run [ inl ripe ↦ inl ripe | inr looks ↦ inr (rw (fresh, late) looks) ]
        ]
  ]

  events-Idle :
      (ticks : ℕ) (ps : List ℕ) (t : FallbackTracker) (h : List Request)
      → Idle (Finds ticks ps t h) t h (check_events server n config outlook ticks ps t h)
  unfolding check_events
  events-Idle ticks [] t h = inr (t, refl, same, λ q. refl)
  events-Idle ticks (p ∷ ps) t h =
      and_then-Idle (Finds ticks ps) t h (check_event server n config outlook ticks p t h)
        (check_events server n config outlook ticks ps) (event-Idle ticks p t h)
        (λ ripe. Finds.this ripe) (λ t' run found. Finds.further t' run found)
        (λ t'. events-Idle ticks ps t' (check_event server n config outlook ticks p t h).1)

  -- What a tick may find.
  abbrev Found : ℕ → Ticker → FallbackTracker → List Request → Type 0
  Found ticks check_ticker t h = Finds ticks (get_active_events outlook.order t) t h
  Found ticks cleanup_ticker t h = ⊥

  tick-Idle :
      (ticks : ℕ) (c : Ticker) (t : FallbackTracker) (h : List Request)
      → Idle (Found ticks c t h) t h (on_tick server n config outlook ticks c t h)
  unfolding check_active_events cleanup cleanup_old_events
  tick-Idle ticks check_ticker t h = events-Idle ticks (get_active_events outlook.order t) t h
  tick-Idle ticks cleanup_ticker t h = inr (_, refl, more refl same, λ q. refl)

  on_one_tick :
      (ticks : ℕ) (c : Ticker) (cs : List Ticker) (t : FallbackTracker) (h : List Request)
      → Found ticks c t h
      → Permitted ticks (c ∷ cs) t h
  on_one_tick ticks check_ticker cs t h found = Permitted.at_once found
  on_one_tick ticks cleanup_ticker cs t h found = absurd found

-- Whatever ticks come, and whatever events there are, the monitor ends its rounds with requests for
-- the time, the health of groups and the safety of nodes alone, and with no scale-down begun or taken
-- back, unless on one of the ticks it comes to an event whose scale-down has not begun, whose minimal
-- time is over by the clock that it reads then, whose spot capacity the check that it makes then finds
-- restored, and whose node the answer that it gets then shows to be safe to drain.
pub run_ticks-Looks :
    {F : Type 0} (server : Server) (n : Config) (config : MonitorConfig F) (outlook : Outlook F)
    (ticks : ℕ) (cs : List Ticker) (t : FallbackTracker) (h : List Request)
    → Permitted server n config outlook ticks cs t h
      ⊎ Looks server n config outlook t h (run_ticks server n config outlook ticks cs t h)
unfolding run_ticks
run_ticks-Looks server n config outlook ticks [] t h = inr (t, refl, same, λ q. refl)
run_ticks-Looks server n config outlook ticks (c ∷ cs) t h =
    and_then-Idle server n config outlook (Permitted server n config outlook ticks cs) t h
      (on_tick server n config outlook ticks c t h) (run_ticks server n config outlook ticks cs)
      (tick-Idle server n config outlook ticks c t h)
      (on_one_tick server n config outlook ticks c cs t h)
      (λ t' run permitted. Permitted.after_tick t' run permitted)
      (λ t'.
        run_ticks-Looks server n config outlook ticks cs t'
          (on_tick server n config outlook ticks c t h).1)
