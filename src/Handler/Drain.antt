-- ===== src/Handler/Drain.antt =====
-- pkg/interruptionevent/draincordon/handler.go: the handler that cordons and drains. It runs
-- against the store as one goroutine sees it; `p` is the event's address.
use aws_node_termination_han.Common.{
  ℕ, String, Bool, true, false, not, ◌&&◌, ◌||◌, List, [], ◌∷◌, if◌then◌else◌, str_eq,
}
use aws_node_termination_han.Config.{Config}
use aws_node_termination_han.Event.{
  InterruptionEvent, asg_lifecycle_kind, rebalance_recommendation_kind, sqs_terminate_kind,
  scheduled_event_kind, spot_itn_kind, state_change_kind, is_rebalance_recommendation,
}
use aws_node_termination_han.Kube.{
  Result, ok, err, wrap, is_not_found, emit, node_action, post_webhook, Server, M, return, ◌>>=◌,
  ◌>>◌, attempt, on_error, tell,
}
use aws_node_termination_han.Node.{get_node_labels, cordon}
use aws_node_termination_han.Node.Pods.{fetch_pod_name_list, cordon_and_drain}
use aws_node_termination_han.Node.Taints.{taint_out_of_service}
use aws_node_termination_han.Store.{
  Store, RangeOrder, store_at, cancel_interruption_event, mark_all_as_processed,
}
use aws_node_termination_han.Handler.{
  failed, is_allowed_kind, get_node_name, run_pre_drain_task, run_cancel_drain_task,
  run_post_drain_task, run_if_some,
}

abbrev pub allowed_kinds : List String
allowed_kinds =
    asg_lifecycle_kind ∷ rebalance_recommendation_kind ∷ sqs_terminate_kind ∷ scheduled_event_kind
    ∷ spot_itn_kind ∷ state_change_kind ∷ []

abbrev pub write : ℕ → InterruptionEvent → Store → Store
write p e s = record s { heap = store_at p e s.heap }

abbrev pub found_labels : Result (List (String × String)) → InterruptionEvent → InterruptionEvent
found_labels (ok labels) e = record e { node_labels = labels }
found_labels (err _) e = e

abbrev pub found_pods : Result (List String) → InterruptionEvent → InterruptionEvent
found_pods (ok pods) e = record e { pods = pods }
found_pods (err _) e = e

abbrev pub found {ℓ} : {A : Type ℓ} → Result A → Bool
found (ok _) = true
found (err _) = false

-- The configuration or the kind of event forbids a drain.
unfoldable pub only_cordons : Config → InterruptionEvent → Bool
only_cordons n e =
    n.cordon_only
    || (not n.enable_sqs_termination_draining
        && (is_rebalance_recommendation e && not n.enable_rebalance_draining))

-- The store after a drain that ended with `result`.
unfoldable pub settle : RangeOrder → Result (Unit {0}) → String → InterruptionEvent → Store → Store
settle order (ok _) node_name e s = mark_all_as_processed order node_name s
settle order (err _) node_name e s = cancel_interruption_event e.event_id s

module _ (server : Server) (n : Config) where
  unfoldable pub after_cordon : String → Result (Unit {0}) → M (Result (Unit {0}))
  after_cordon node_name (ok u) = do
    tell (node_action "cordon" node_name false)
    tell (emit node_name "Cordon")
    return (ok u)
  after_cordon node_name (err e) =
      if is_not_found e
      then return (err e)
      else (do tell (emit node_name "CordonError"); return (err e))

  unfoldable pub cordon_node : String → M (Result (Unit {0}))
  cordon_node node_name = attempt (cordon server n node_name) >>= after_cordon node_name

  unfoldable pub after_drain : String → Result (Unit {0}) → M (Result (Unit {0}))
  after_drain node_name (ok u) = do
    tell (node_action "cordon-and-drain" node_name false)
    tell (emit node_name "CordonAndDrain")
    return (ok u)
  after_drain node_name (err e) = if is_not_found e then return (err e) else (do
    tell (node_action "cordon-and-drain" node_name true)
    tell (emit node_name "CordonAndDrainError")
    return (err e))

  -- The event recorder is nil unless events are emitted.
  unfoldable pub cordon_and_drain_node : String → M (Result (Unit {0}))
  cordon_and_drain_node node_name =
      attempt (cordon_and_drain server n node_name n.emit_kubernetes_events)
      >>= after_drain node_name

  -- The rest of `HandleEvent`, once the drain has ended with `result`.
  unfoldable pub conclude :
      Bool → Result (Unit {0}) → String → InterruptionEvent → M (Result (Unit {0}))
  conclude node_found result node_name e = do
    if not (str_eq n.webhook_url "") then tell (post_webhook e.event_id) else return tt
    if failed result
        then run_if_some (run_cancel_drain_task server n) e.cancel_drain_task node_name e
        else return tt
    if not (failed result) || (not node_found && n.delete_sqs_msg_if_node_not_found)
        then run_if_some (run_post_drain_task server n) e.post_drain_task node_name e
        else return tt
    if not (failed result) && (n.enable_out_of_service_taint && not n.cordon_only)
        then attempt (
            on_error (wrap "cannot add out-of-service taint on node")
              (taint_out_of_service server n node_name))
        else return (ok tt)

module _ (server : Server) (n : Config) (order : RangeOrder) where
  -- From the drain on, with the event as it is by then.
  unfoldable pub drain_found :
      Bool → String → ℕ → InterruptionEvent → Store → M (Result (Unit {0}) × Store)
  drain_found node_found node_name p e s = do
    result ←
        if only_cordons n e
        then cordon_node server n node_name
        else cordon_and_drain_node server n node_name
    last ← conclude server n node_found result node_name e
    return (last, settle order result node_name e (write p e s))

  unfoldable pub drain_event : String → ℕ → Store → M (Result (Unit {0}) × Store)
  drain_event node_name p s = do
    labels ← attempt (get_node_labels server n node_name)
    let e = found_labels labels (s.heap p)
    run_if_some (run_pre_drain_task server n) e.pre_drain_task node_name e
    pods ← attempt (fetch_pod_name_list server n node_name)
    drain_found (found labels) node_name p (found_pods pods e) s

  -- The name of the event's node; without one, nothing is done, also to the store.
  unfoldable pub drain_named : ℕ → Store → Result String → M (Result (Unit {0}) × Store)
  drain_named p s (ok node_name) = drain_event node_name p s
  drain_named p s (err e) = return (err (wrap "get node name for instanceID" e), s)

  unfoldable pub handle_event : ℕ → Store → M (Result (Unit {0}) × Store)
  handle_event p s =
      if not (is_allowed_kind (s.heap p).kind allowed_kinds)
      then return (ok tt, s)
      else attempt (get_node_name server n (s.heap p)) >>= drain_named p s
