-- ===== src/Handler/Returning.antt =====
-- Which drain tasks return: all, if the scaling up of Spot Guard does.
use aws_node_termination_han.Common.{
  ◌≡◌, ◌≢◌, refl, String, Bool, true, false, List, ◌∷◌, if◌then◌else◌, ◌&&◌,
}
use aws_node_termination_han.Config.{Config}
use aws_node_termination_han.Event.{
  DrainTask, set_spot_itn_taint, taint_asg_lifecycle, taint_rebalance, uncordon_after_reboot,
  scale_up_and_taint, queue_taint_spot_itn, queue_taint_rebalance, queue_taint_scheduled,
  queue_delete, begin_termination, cancel_heartbeat, end_termination, end_launch, LifecycleDetail,
  InterruptionEvent,
}
use aws_node_termination_han.Kube.{
  Result, ok, err, status, new, wrap, code, skip, out_of_fuel, Request, delete_message,
  start_heartbeats, stop_heartbeats, Server, M, and_then, return, rethrow, returned, attempt,
  attempt_returning, on_error, ask, tell, ◌>>=◌,
}
use aws_node_termination_han.Kube.Total.{Yields, Anything}
use aws_node_termination_han.Node.{mark_with_event_id, is_unschedulable}
use aws_node_termination_han.Node.Taints.{
  taint_spot_itn, taint_asg_lifecycle_termination, taint_rebalance_recommendation,
  taint_scheduled_maintenance,
}
use aws_node_termination_han.Node.Reboot.{mark_for_uncordon_after_reboot}
use aws_node_termination_han.Handler.{
  is_set, uncordon_after_reboot_pre_drain, continue_lifecycle_action, begin_heartbeats, run_task,
}

-- No answer is the mark of a run that has not returned, and the scaling up of Spot Guard returns.
pub record IsReturning (server : Server) : Type 0 where
  pub answers : (h : List Request) → server.done h ≢ err out_of_fuel
  pub scales : (h : List Request) → (server.scale_up h).0 ≢ err out_of_fuel

-- A run that returns.
abbrev pub Returns : {A : Type 0} → M A → Type 0
Returns m = (h : List Request) → (m h).0 ≢ err out_of_fuel

wrapped : {A : Type 0} (text : String) (m : M A) → Returns (on_error (wrap text) m)
wrapped {A = A} text m h = go (m h)
  where
    go : (r : Result A × List Request) → (rethrow (wrap text) r).0 ≢ err out_of_fuel
    go (ok u, g) e = cc e
    go (err x, g) e = cc e

returned_lem : {A : Type 0} (r : Result A) → r ≢ err out_of_fuel → returned r ≡ ok r
returned_lem (ok a) f = refl
returned_lem (err out_of_fuel) f = absurd (f refl)
returned_lem (err (status _)) f = refl
returned_lem (err (new _)) f = refl
returned_lem (err (wrap _ _)) f = refl
returned_lem (err (code _)) f = refl
returned_lem (err (skip _)) f = refl

pub attempt_returning-Yields :
    {A : Type 0} (m : M A) → Returns m → Yields Anything (attempt_returning m)
attempt_returning-Yields m f h = ((m h).0, returned_lem (m h).0 (f h), tt)

attempted : {A : Type 0} (m : M A) → Returns m → Returns (attempt_returning m)
attempted m f h = λ e. cc (returned_lem (m h).0 (f h), e)

then_Returns :
    {A B : Type 0} (m : M A) (f : A → M B)
    → Returns m
    → ((a : A) → Returns (f a))
    → Returns (m >>= f)
then_Returns {A = A} {B = B} m f r s h = go (m h) (r h)
  where
    go : (x : Result A × List Request) → x.0 ≢ err out_of_fuel → (and_then x f).0 ≢ err out_of_fuel
    go (ok a, g) e = s a g
    go (err x, g) e = λ c. e (cc c)

told_Returns : {A : Type 0} (q : Request) (a : A) → Returns (λ h. (ok a, q ∷ h))
told_Returns q a h = λ e. cc e

done_Returns : {A : Type 0} (a : A) → Returns (return a)
done_Returns a h = λ e. cc e

if_Returns :
    {A : Type 0} (b : Bool) (m k : M A) → Returns m → Returns k → Returns (if b then m else k)
if_Returns true m k r s = r
if_Returns false m k r s = s

ignored : {A : Type 0} (m : M A) → Returns (attempt m >>= λ _. return tt)
ignored m h = λ e. cc e

module _ (server : Server) (n : Config) (returning : IsReturning server) where
  asked : (q : Request) → Returns (ask q server.done)
  asked q h = returning.answers (q ∷ h)

  uncordon_Returns :
      (event : InterruptionEvent) → Returns (uncordon_after_reboot_pre_drain server n event)
  unfolding uncordon_after_reboot_pre_drain
  uncordon_Returns event =
      then_Returns
        (on_error (wrap "Unable to mark node with event ID")
          (mark_with_event_id server n event.node_name event.event_id))
        _ (wrapped _ (mark_with_event_id server n event.node_name event.event_id))
        λ _.
          then_Returns
            (on_error (wrap "Unable to taint node with taint")
              (taint_scheduled_maintenance server n event.node_name event.event_id))
            _ (wrapped _ (taint_scheduled_maintenance server n event.node_name event.event_id))
            λ _.
              then_Returns
                (on_error
                  (wrap
                    "Encountered an error while checking if the node is unschedulable. Not setting an uncordon label")
                  (is_unschedulable server n event.node_name))
                _ (wrapped _ (is_unschedulable server n event.node_name))
                λ unschedulable.
                  if_Returns unschedulable (return tt)
                    (on_error (wrap "Unable to mark the node for uncordon")
                      (mark_for_uncordon_after_reboot server n event.node_name))
                    (done_Returns tt)
                    (wrapped _ (mark_for_uncordon_after_reboot server n event.node_name))

  begin_Returns : (detail : LifecycleDetail) → Returns (begin_heartbeats server n detail)
  unfolding begin_heartbeats
  begin_Returns detail =
      if_Returns (is_set n.heartbeat_interval && is_set n.heartbeat_until)
        (tell (start_heartbeats detail)) (return tt) (told_Returns (start_heartbeats detail) tt)
        (done_Returns tt)

  pub run_task-Returns :
      (task : DrainTask) (event : InterruptionEvent) → Returns (run_task server n task event)
  unfolding run_task
  run_task-Returns set_spot_itn_taint event =
      wrapped _ (taint_spot_itn server n event.node_name event.event_id)
  run_task-Returns taint_asg_lifecycle event =
      wrapped _ (taint_asg_lifecycle_termination server n event.node_name event.event_id)
  run_task-Returns taint_rebalance event =
      wrapped _ (taint_rebalance_recommendation server n event.node_name event.event_id)
  run_task-Returns uncordon_after_reboot event = uncordon_Returns event
  run_task-Returns scale_up_and_taint event =
      then_Returns (attempt_returning server.scale_up) _
        (attempted server.scale_up returning.scales)
        (λ _. wrapped _ (taint_rebalance_recommendation server n event.node_name event.event_id))
  run_task-Returns queue_taint_spot_itn event =
      ignored (taint_spot_itn server n event.node_name event.event_id)
  run_task-Returns queue_taint_rebalance event =
      ignored (taint_rebalance_recommendation server n event.node_name event.event_id)
  run_task-Returns queue_taint_scheduled event =
      ignored (taint_scheduled_maintenance server n event.node_name event.event_id)
  run_task-Returns (queue_delete handle) event = asked (delete_message handle)
  run_task-Returns (begin_termination detail) event =
      then_Returns (begin_heartbeats server n detail) _ (begin_Returns detail)
        (λ _. ignored (taint_asg_lifecycle_termination server n event.node_name event.event_id))
  run_task-Returns (cancel_heartbeat detail) event = told_Returns (stop_heartbeats detail) tt
  run_task-Returns (end_termination detail handle) event =
      then_Returns
        (on_error (wrap "continuing ASG termination lifecycle")
          (continue_lifecycle_action server n detail))
        _ (wrapped _ (continue_lifecycle_action server n detail))
        λ _.
          then_Returns (tell (stop_heartbeats detail))
            (λ _. ask (delete_message handle) server.done)
            (told_Returns (stop_heartbeats detail) tt) (λ _. asked (delete_message handle))
  run_task-Returns (end_launch detail handle) event =
      then_Returns
        (on_error (wrap "continuing ASG launch lifecycle")
          (continue_lifecycle_action server n detail))
        _ (wrapped _ (continue_lifecycle_action server n detail))
        (λ _. asked (delete_message handle))
