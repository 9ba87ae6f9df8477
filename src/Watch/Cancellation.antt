-- ===== src/Watch/Cancellation.antt =====
-- What a cancellation does, and which handler an event is for.
use aws_node_termination_han.Common.{
  ℕ, ◌≡◌, refl, String, true, false, some, List, [], ◌∷◌, ap, arith, str_eq, str_eq_iff, lookup,
  lookup-erase, inl, inr, Bool-cases,
}
use aws_node_termination_han.Config.{Config}
use aws_node_termination_han.Event.{InterruptionEvent, asg_launch_lifecycle_kind}
use aws_node_termination_han.Kube.{ok, Request, Server, return, ◌>>=◌}
use aws_node_termination_han.Store.{
  Store, RangeOrder, cancel_interruption_event, should_uncordon_node, is_ignored,
}
use aws_node_termination_han.Store.Range.{IsRange}
use aws_node_termination_han.Store.Uncordon.{should_uncordon_node_iff}
use aws_node_termination_han.Handler.{is_allowed_kind}
use aws_node_termination_han.Handler.Drain
use aws_node_termination_han.Handler.Launch
use aws_node_termination_han.Watch.{
  free_worker, process_interruption_event, watch_for_cancellation_events,
}

module _ (server : Server) (n : Config) (order : RangeOrder) (e : InterruptionEvent)
    (s : Store) where
  still_held :
      (k : String) (p : ℕ)
      → IsRange order
      → (s.heap p).node_name ≡ e.node_name
      → is_ignored s (s.heap p).event_id ≡ false
      → str_eq e.event_id k ≡ false
      → lookup k s.interruption_event_store ≡ some p
      → should_uncordon_node order e.node_name (cancel_interruption_event e.event_id s) ≡ false
  unfolding cancel_interruption_event
  still_held k p range here counted other there =
      elim (Bool-cases
        (should_uncordon_node order e.node_name (cancel_interruption_event e.event_id s))) [
          | inl uncordons ↦
              let free =
                (should_uncordon_node_iff order e.node_name (cancel_interruption_event e.event_id s)
                    range).0
                  uncordons in
              ground (
                arith,
                free.1 k p (rw (lookup-erase e.event_id k s.interruption_event_store, other) there),
              )
          | inr stays ↦ stays
        ]

  -- If another stored event that is not ignored is for the same node, a cancellation drops the
  -- cancelled event from the store and makes no request.
  pub watch_for_cancellation_events-held :
      (k : String) (p : ℕ) (h : List Request)
      → IsRange order
      → (s.heap p).node_name ≡ e.node_name
      → is_ignored s (s.heap p).event_id ≡ false
      → str_eq e.event_id k ≡ false
      → lookup k s.interruption_event_store ≡ some p
      → watch_for_cancellation_events server n order e s h
        ≡ (ok (cancel_interruption_event e.event_id s), h)
  unfolding watch_for_cancellation_events
  watch_for_cancellation_events-held k p h range here counted other there =
      rw (still_held k p range here counted other there) refl

no_launch : is_allowed_kind asg_launch_lifecycle_kind Drain.allowed_kinds ≡ false
unfolding is_allowed_kind str_eq
no_launch = refl

apart :
    (kind : String)
    → is_allowed_kind kind Drain.allowed_kinds ≡ true
    → is_allowed_kind kind (asg_launch_lifecycle_kind ∷ []) ≡ false
unfolding is_allowed_kind
apart kind drains = elim (Bool-cases (str_eq kind asg_launch_lifecycle_kind)) [
  | inl launches ↦
      let same : kind ≡ asg_launch_lifecycle_kind =
        (str_eq_iff kind asg_launch_lifecycle_kind).0 launches in
      cc (drains, ap (λ k. is_allowed_kind k Drain.allowed_kinds) same, no_launch)
  | inr other ↦ rw other refl
]

handle_event-drain_kind :
    (server : Server) (n : Config) (p : ℕ) (s : Store)
    → is_allowed_kind (s.heap p).kind Drain.allowed_kinds ≡ true
    → Launch.handle_event server n p s ≡ return (ok tt, s)
unfolding Launch.handle_event
handle_event-drain_kind server n p s drains = rw (apart (s.heap p).kind drains) refl

-- A worker that gets an event of one of the drain handler's kinds runs the drain handler on it and
-- then frees its token: the launch handler, which comes first, makes no request and leaves the
-- store alone.
pub process_interruption_event-drain_kind :
    (server : Server) (n : Config) (order : RangeOrder) (p : ℕ) (s : Store)
    → is_allowed_kind (s.heap p).kind Drain.allowed_kinds ≡ true
    → process_interruption_event server n order (some p) s
      ≡ (Drain.handle_event server n order p s >>= λ drained. return (free_worker drained.1))
unfolding process_interruption_event
process_interruption_event-drain_kind server n order p s drains =
    rw (handle_event-drain_kind server n p s drains) refl
