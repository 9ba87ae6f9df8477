-- ===== src/Watch.antt =====
-- cmd/node-termination-handler.go: what the worker goroutines and the cancellation watcher do, and
-- the uncordoning at the start after a reboot.
pub mod Cancellation
use aws_node_termination_han.Common.{
  ℕ, ◌-◌, String, Bool, true, false, not, Option, none, some, if◌then◌else◌,
}
use aws_node_termination_han.Config.{Config}
use aws_node_termination_han.Event.{InterruptionEvent}
use aws_node_termination_han.Kube.{
  Error, Result, ok, err, wrap, emit, node_action, Server, M, return, ◌>>=◌, ◌>>◌, attempt,
  on_error, tell,
}
use aws_node_termination_han.Node.{
  uncordon, remove_nth_labels, is_labeled_with_action, get_event_id,
}
use aws_node_termination_han.Node.Taints.{remove_nth_taints}
use aws_node_termination_han.Node.Reboot.{uncordon_if_rebooted}
use aws_node_termination_han.Store.{
  Store, RangeOrder, cancel_interruption_event, should_uncordon_node, ignore_event,
}
use aws_node_termination_han.Handler.{failed}
use aws_node_termination_han.Handler.Drain
use aws_node_termination_han.Handler.Launch

-- `<-interruptionEventStore.Workers`
abbrev pub free_worker : Store → Store
free_worker s = record s { workers = s.workers - 1 }

module _ (server : Server) (n : Config) where
  -- Both handlers get the event, the one for launches first; their errors are only logged.
  unfoldable pub process_interruption_event : RangeOrder → Option ℕ → Store → M Store
  process_interruption_event order none s = return (free_worker s)
  process_interruption_event order (some p) s = do
    launched ← Launch.handle_event server n p s
    drained ← Drain.handle_event server n order p launched.1
    return (free_worker drained.1)

  -- Errors of the three steps are reported, and the next step follows all the same.
  unfoldable pub uncordon_cancelled : String → String → M (Unit {0})
  uncordon_cancelled node_name event_id = do
    uncordoned ← attempt (uncordon server n node_name)
    tell (emit node_name (if failed uncordoned then "UncordonError" else "Uncordon"))
    tell (node_action "uncordon" node_name (failed uncordoned))
    labels ← attempt (remove_nth_labels server n node_name)
    taints ← attempt (remove_nth_taints server n node_name)
    return tt

  -- One round of `watchForCancellationEvents`.
  unfoldable pub watch_for_cancellation_events : RangeOrder → InterruptionEvent → Store → M Store
  watch_for_cancellation_events order interruption_event s = do
    let t = cancel_interruption_event interruption_event.event_id s
    if should_uncordon_node order interruption_event.node_name t
        then uncordon_cancelled interruption_event.node_name interruption_event.event_id
        else return tt
    return t

  -- The event that drained the node before its reboot is ignored once the node is back.
  unfoldable pub handle_reboot_uncordon : String → Store → M Store
  handle_reboot_uncordon node_name s = do
    is_labeled ← is_labeled_with_action server n node_name
    if not is_labeled then return s else (do
      event_id ← get_event_id server n node_name
      on_error (wrap "Unable to complete node label actions")
          (uncordon_if_rebooted server n node_name)
      return (ignore_event event_id s))
