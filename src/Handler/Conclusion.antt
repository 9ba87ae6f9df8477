-- ===== src/Handler/Conclusion.antt =====
-- The steps of the drain handler that end without an error of their own.
use aws_node_termination_han.Common.{
  refl, String, Bool, not, ◌&&◌, ◌||◌, Option, none, some, if◌then◌else◌, str_eq,
}
use aws_node_termination_han.Config.{Config}
use aws_node_termination_han.Event.{DrainTask, InterruptionEvent}
use aws_node_termination_han.Kube.{
  Result, ok, err, is_not_found, post_webhook, Server, return, attempt_returning, on_error, tell,
}
use aws_node_termination_han.Kube.Total.{Yields, Anything, >>=-Yields, attempt-Yields, if-Yields}
use aws_node_termination_han.Node.Taints.{taint_out_of_service}
use aws_node_termination_han.Handler.{
  failed, run_if_some, run_task, run_pre_drain_task, run_cancel_drain_task, run_post_drain_task,
}
use aws_node_termination_han.Handler.Returning.{
  IsReturning, attempt_returning-Yields, run_task-Returns,
}
use aws_node_termination_han.Handler.Drain.{after_cordon, after_drain, conclude}

module _ (server : Server) (n : Config) where
  pub after_cordon-Yields :
      (name : String) (r : Result (Unit {0})) → Yields Anything (after_cordon server n name r)
  unfolding after_cordon
  after_cordon-Yields name (ok u) = λ h. (ok u, refl, tt)
  after_cordon-Yields name (err e) =
      if-Yields (is_not_found e) _ _ (λ h. (err e, refl, tt)) (λ h. (err e, refl, tt))

  pub after_drain-Yields :
      (name : String) (r : Result (Unit {0})) → Yields Anything (after_drain server n name r)
  unfolding after_drain
  after_drain-Yields name (ok u) = λ h. (ok u, refl, tt)
  after_drain-Yields name (err e) =
      if-Yields (is_not_found e) _ _ (λ h. (err e, refl, tt)) (λ h. (err e, refl, tt))

  nothing : Yields {A = Unit {0}} Anything (return tt)
  nothing h = (tt, refl, tt)

  pub run_pre-Yields :
      (returning : IsReturning server) (o : Option DrainTask) (name : String)
      (e : InterruptionEvent)
      → Yields Anything (run_if_some (run_pre_drain_task server n) o name e)
  unfolding run_pre_drain_task
  run_pre-Yields returning none name e = nothing
  run_pre-Yields returning (some t) name e =
      >>=-Yields (attempt_returning (run_task server n t e)) _
        (attempt_returning-Yields (run_task server n t e) (run_task-Returns server n returning t e))
        (λ _ _ _. (tt, refl, tt))

  pub run_cancel-Yields :
      (returning : IsReturning server) (o : Option DrainTask) (name : String)
      (e : InterruptionEvent)
      → Yields Anything (run_if_some (run_cancel_drain_task server n) o name e)
  unfolding run_cancel_drain_task
  run_cancel-Yields returning none name e = nothing
  run_cancel-Yields returning (some t) name e =
      >>=-Yields (attempt_returning (run_task server n t e)) _
        (attempt_returning-Yields (run_task server n t e) (run_task-Returns server n returning t e))
        (λ _ _ _. (tt, refl, tt))

  pub run_post-Yields :
      (returning : IsReturning server) (o : Option DrainTask) (name : String)
      (e : InterruptionEvent)
      → Yields Anything (run_if_some (run_post_drain_task server n) o name e)
  unfolding run_post_drain_task
  run_post-Yields returning none name e = nothing
  run_post-Yields returning (some t) name e =
      >>=-Yields (attempt_returning (run_task server n t e)) _
        (attempt_returning-Yields (run_task server n t e) (run_task-Returns server n returning t e))
        (λ _ _ _. (tt, refl, tt))

  pub conclude-Yields :
      (returning : IsReturning server) (node_found : Bool) (result : Result (Unit {0}))
      (name : String) (e : InterruptionEvent)
      → Yields Anything (conclude server n node_found result name e)
  unfolding conclude
  conclude-Yields returning node_found result name e =
      >>=-Yields
        (if not (str_eq n.webhook_url "") then tell (post_webhook e.event_id) else return tt) _
        (if-Yields (not (str_eq n.webhook_url "")) _ _ (λ h. (tt, refl, tt)) nothing)
        λ _ _.
          >>=-Yields
            (if failed result
              then run_if_some (run_cancel_drain_task server n) e.cancel_drain_task name e
              else return tt)
            _
            (if-Yields (failed result) _ _ (run_cancel-Yields returning e.cancel_drain_task name e)
              nothing)
            λ _ _.
              >>=-Yields
                (if not (failed result) || (not node_found && n.delete_sqs_msg_if_node_not_found)
                  then run_if_some (run_post_drain_task server n) e.post_drain_task name e
                  else return tt)
                _
                (if-Yields
                  (not (failed result) || (not node_found && n.delete_sqs_msg_if_node_not_found)) _
                  _ (run_post-Yields returning e.post_drain_task name e) nothing)
                λ _ _.
                  if-Yields
                    (not (failed result) && (n.enable_out_of_service_taint && not n.cordon_only)) _
                    _ (attempt-Yields (on_error _ (taint_out_of_service server n name)))
                    (λ h. (ok tt, refl, tt))
