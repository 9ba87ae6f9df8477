-- ===== src/Handler/Settle.antt =====
-- How the drain handler leaves the store.
use aws_node_termination_han.Common.{
  ℕ, ◌≡◌, ◌≢◌, refl, String, Bool, true, false, some, List, arith, if◌then◌else◌, str_eq_iff,
  lookup-erase,
}
use aws_node_termination_han.Common.Int.{ℤ}
use aws_node_termination_han.Config.{Config}
use aws_node_termination_han.Event.{InterruptionEvent}
use aws_node_termination_han.Kube.{Result, ok, err, Request, Server, return, attempt}
use aws_node_termination_han.Kube.Total.{Yields, >>=-Yields, attempt-Yields, if-Yields}
use aws_node_termination_han.Node.{get_node_labels, cordon}
use aws_node_termination_han.Node.Pods.{fetch_pod_name_list, cordon_and_drain}
use aws_node_termination_han.Store.{
  Store, RangeOrder, store_at, cancel_interruption_event, get_active_event,
}
use aws_node_termination_han.Store.Range.{IsRange}
use aws_node_termination_han.Store.Clean.{IsNamed}
use aws_node_termination_han.Store.Active.{get_active_event_sound}
use aws_node_termination_han.Store.Marks.{get_active_event-mark_all_as_processed}
use aws_node_termination_han.Handler.{
  is_allowed_kind, get_node_name, run_if_some, run_pre_drain_task,
}
use aws_node_termination_han.Handler.Drain.{
  allowed_kinds, write, found_labels, found_pods, found, after_cordon, after_drain, cordon_node,
  cordon_and_drain_node, only_cordons, settle, conclude, drain_found, drain_event, drain_named,
  handle_event,
}
use aws_node_termination_han.Handler.Returning.{IsReturning}
use aws_node_termination_han.Handler.Conclusion.{
  after_cordon-Yields, after_drain-Yields, run_pre-Yields, conclude-Yields,
}

-- The event as the handler leaves it: another state of the same event.
abbrev pub IsSame : InterruptionEvent → InterruptionEvent → Type 0
IsSame e f = (e.event_id ≡ f.event_id) × (e.node_name ≡ f.node_name)

module _ (server : Server) (n : Config) (returning : IsReturning server) (order : RangeOrder)
    (name : String) (p : ℕ) (s : Store) where
  -- The store has been settled by the result of a drain of the node.
  abbrev pub IsSettled : Result (Unit {0}) × Store → Type 0
  IsSettled (_, t) =
      (result : Result (Unit {0})) × (e : InterruptionEvent) × IsSame e (s.heap p)
      × (t ≡ settle order result name e (write p e s))

  drain_found-IsSettled :
      (node_found : Bool) (e : InterruptionEvent)
      → IsSame e (s.heap p)
      → Yields IsSettled (drain_found server n order node_found name p e s)
  unfolding drain_found cordon_node cordon_and_drain_node
  drain_found-IsSettled node_found e is_same =
      >>=-Yields
        (if only_cordons n e
          then cordon_node server n name
          else cordon_and_drain_node server n name)
        _
        (if-Yields (only_cordons n e) (cordon_node server n name)
          (cordon_and_drain_node server n name)
          (>>=-Yields (attempt (cordon server n name)) (after_cordon server n name)
            (attempt-Yields (cordon server n name)) (λ r _. after_cordon-Yields server n name r))
          (>>=-Yields (attempt (cordon_and_drain server n name n.emit_kubernetes_events))
            (after_drain server n name)
            (attempt-Yields (cordon_and_drain server n name n.emit_kubernetes_events))
            (λ r _. after_drain-Yields server n name r)))
        λ result _.
          >>=-Yields (conclude server n node_found result name e) _
            (conclude-Yields server n returning node_found result name e)
            λ last _ h.
              ((last, settle order result name e (write p e s)), refl, (result, e, is_same, refl))

  found-IsSame :
      (labels : Result (List (String × String))) (pods : Result (List String))
      (e : InterruptionEvent)
      → IsSame (found_pods pods (found_labels labels e)) e
  found-IsSame (ok labels) (ok pods) e = (refl, refl)
  found-IsSame (ok labels) (err x) e = (refl, refl)
  found-IsSame (err x) (ok pods) e = (refl, refl)
  found-IsSame (err x) (err y) e = (refl, refl)

  drain_event-IsSettled : Yields IsSettled (drain_event server n order name p s)
  unfolding drain_event
  drain_event-IsSettled h =
      let labels = get_node_labels server n name h in
      let e = found_labels labels.0 (s.heap p) in
      >>=-Yields (run_if_some (run_pre_drain_task server n) e.pre_drain_task name e) _
        (run_pre-Yields server n returning e.pre_drain_task name e)
        (λ _ _ h'.
          let pods = fetch_pod_name_list server n name h' in
          drain_found-IsSettled (found labels.0) (found_pods pods.0 e)
            (found-IsSame labels.0 pods.0 (s.heap p)) pods.1)
        labels.1

-- `GetActiveEvent` does not return the event at this address from this store, at any time.
abbrev pub IsOver : RangeOrder → ℕ → Result (Unit {0}) × Store → Type 0
IsOver order p (_, t) = (now : ℕ → ℤ) → (get_active_event order now t).1 ≢ some p

module _ (order : RangeOrder) (name : String) (p : ℕ) (s : Store) (e : InterruptionEvent)
    (is_same : IsSame e (s.heap p)) where
  write-IsNamed : IsNamed s → IsNamed (write p e s)
  unfolding store_at
  write-IsNamed named k q h = ground (arith, named k q h, is_same.0)

  cancelled-IsNamed : IsNamed s → IsNamed (cancel_interruption_event e.event_id (write p e s))
  unfolding store_at cancel_interruption_event
  cancelled-IsNamed named k q h =
      ground (arith, lookup-erase e.event_id k s.interruption_event_store, write-IsNamed named k q)

  settle-IsOver :
      (result last : Result (Unit {0}))
      → IsRange order
      → IsNamed s
      → (s.heap p).node_name ≡ name
      → IsOver order p (last, settle order result name e (write p e s))
  unfolding settle store_at cancel_interruption_event
  settle-IsOver (ok u) last range named here now h =
      get_active_event-mark_all_as_processed order now name (write p e s) p range
        (write-IsNamed named) h (ground (arith, is_same.1, here))
  settle-IsOver (err x) last range named here now h =
      let (k, m, _, d) =
        get_active_event_sound order now (cancel_interruption_event e.event_id (write p e s)) p
          range (cancelled-IsNamed named) h in
      ground (
        arith,
        lookup-erase e.event_id k s.interruption_event_store,
        write-IsNamed named k p,
        str_eq_iff e.event_id k,
      )

module _ (server : Server) (n : Config) (order : RangeOrder) (p : ℕ) (s : Store) where
  get_node_name-by_name :
      n.use_provider_id ≡ false → get_node_name server n (s.heap p) ≡ return (s.heap p).node_name
  unfolding get_node_name
  get_node_name-by_name by_name = rw by_name refl

  -- When the node is named by the event, the scaling up of Spot Guard returns and no answer is the
  -- mark of a run out of fuel, the drain handler returns, whatever the outcome of the drain, of the
  -- tasks and of every request, and `GetActiveEvent` does not return the event from the store that
  -- it leaves.
  pub handle_event-get_active_event :
      (now : ℕ → ℤ) (h : List Request)
      → IsReturning server
      → IsRange order
      → IsNamed s
      → is_allowed_kind (s.heap p).kind allowed_kinds ≡ true
      → n.use_provider_id ≡ false
      → (r : Result (Unit {0}) × Store) × ((handle_event server n order p s h).0 ≡ ok r)
        × ((get_active_event order now r.1).1 ≢ some p)
  unfolding handle_event drain_named
  handle_event-get_active_event now h returning range named allowed by_name =
      let name = (s.heap p).node_name in
      let (r, run, (result, e, is_same, settled)) =
        drain_event-IsSettled server n returning order name p s h in
      (
        r,
        rw (allowed, get_node_name-by_name by_name) run,
        rw settled (settle-IsOver order name p s e is_same result r.0 range named refl now),
      )
