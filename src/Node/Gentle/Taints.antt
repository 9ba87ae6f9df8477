-- ===== src/Node/Gentle/Taints.antt =====
-- The requests for the taints and for the labels for a reboot.
use aws_node_termination_han.Common.{
  ℕ, zero, suc, refl, String, Bool, true, false, not, ◌||◌, Option, ◌∷◌, none, some, if◌then◌else◌,
}
use aws_node_termination_han.Common.Int.{ℤ, ltb_ℤ, ◌+ℤ◌}
use aws_node_termination_han.Config.{Config}
use aws_node_termination_han.Kube.{
  Error, Result, ok, err, wrap, is_conflict, KubeNode, Server, M, return, on_error, attempt, ◌>>=◌,
  read_clock, ask, now, update_node, get_node, sleep,
}
use aws_node_termination_han.Kube.Trace.{
  same, more, Sends, Extends-trans, >>=-Sends, on_error-Sends, if-Sends, IsGentle,
}
use aws_node_termination_han.Node.{
  fetch_kubernetes_node, add_label, remove_label, action_label_key, action_label_time_key,
  uncordon_after_reboot_label_val,
}
use aws_node_termination_han.Node.Taints.{
  before_deadline, after_update, after_edit, update_loop, add_taint_to_spec, get_taint_effect,
  max_retry_deadline, max_rounds, add_taint, taint_with, taint_out_of_service, taint_value_of,
}
use aws_node_termination_han.Node.Reboot.{
  mark_for_uncordon_after_reboot, rolled_back, after_time_label, unix, format_int,
}
use aws_node_termination_han.Node.Gentle.{fetch-IsGentle, add_label-IsGentle, remove_label-IsGentle}

module _ (server : Server) (edit : KubeNode → Option KubeNode) (get_error : Error → Error)
    (name : String) (deadline : ℤ) where
  before_deadline-IsGentle :
      (again : Bool → KubeNode → M Bool) (fresh : KubeNode) (e : Error)
      → ((b : Bool) (k : KubeNode) → Sends IsGentle (again b k))
      → (time : ℤ)
      → Sends IsGentle (before_deadline server edit get_error name deadline again fresh e time)
  unfolding before_deadline
  before_deadline-IsGentle again fresh e s time =
      if-Sends (ltb_ℤ time deadline) _ _
        (λ _ h. Extends-trans (more refl same) (s true fresh (sleep 750_000_000 ∷ h))) (λ _ h. same)

  after_update-IsGentle :
      (again : Bool → KubeNode → M Bool) (fresh : KubeNode) (r : Result (Unit {0}))
      → ((b : Bool) (k : KubeNode) → Sends IsGentle (again b k))
      → Sends IsGentle (after_update server edit get_error name deadline again fresh r)
  unfolding after_update
  after_update-IsGentle again fresh (ok u) s = λ h. same
  after_update-IsGentle again fresh (err e) s =
      if-Sends (is_conflict e) _ _
        (λ _.
          >>=-Sends (now server) (before_deadline server edit get_error name deadline again fresh e)
            (λ h. more refl same) (before_deadline-IsGentle again fresh e s))
        (λ _ h. same)

  after_edit-IsGentle :
      (again : Bool → KubeNode → M Bool) (refresh : Bool) (fresh : KubeNode) (o : Option KubeNode)
      → ((b : Bool) (k : KubeNode) → Sends IsGentle (again b k))
      → Sends IsGentle (after_edit server edit get_error name deadline again refresh fresh o)
  unfolding after_edit
  after_edit-IsGentle again refresh fresh none s =
      if-Sends (not refresh) _ _ (λ _. s true fresh) (λ _ h. same)
  after_edit-IsGentle again refresh fresh (some edited) s =
      >>=-Sends (attempt (ask (update_node edited) server.done))
        (after_update server edit get_error name deadline again edited) (λ h. more refl same)
        λ r. after_update-IsGentle again edited r s

  pub update_loop-IsGentle :
      (fuel : ℕ) (refresh : Bool) (fresh : KubeNode)
      → Sends IsGentle (update_loop server edit get_error name deadline fuel refresh fresh)
  unfolding update_loop
  update_loop-IsGentle zero refresh fresh = λ h. same
  update_loop-IsGentle (suc fuel) refresh fresh =
      >>=-Sends
        (if refresh then on_error get_error (ask (get_node name) server.node) else return fresh)
        (λ node.
          after_edit server edit get_error name deadline
            (update_loop server edit get_error name deadline fuel) refresh node (edit node))
        (if-Sends refresh _ _
          (λ _. on_error-Sends get_error (ask (get_node name) server.node) (λ h. more refl same))
          (λ _ h. same))
        λ node.
          after_edit-IsGentle (update_loop server edit get_error name deadline fuel) refresh node
            (edit node) (update_loop-IsGentle fuel)

module _ (server : Server) (n : Config) where
  add_taint-IsGentle :
      (node : KubeNode) (taint_key taint_value effect_type : String)
      → Sends IsGentle (add_taint server n node taint_key taint_value effect_type)
  unfolding add_taint
  add_taint-IsGentle node taint_key taint_value effect_type =
      if-Sends n.dry_run _ _ (λ _ h. same)
        (λ _.
          >>=-Sends (now server)
            (λ time.
              update_loop server
                (add_taint_to_spec taint_key taint_value (get_taint_effect effect_type))
                (wrap "failed to get node") node.name (time +ℤ ℤ.pos max_retry_deadline) max_rounds
                false node
              >>= λ _. return tt)
            (λ h. more refl same)
            λ time.
              >>=-Sends
                (update_loop server
                  (add_taint_to_spec taint_key taint_value (get_taint_effect effect_type))
                  (wrap "failed to get node") node.name (time +ℤ ℤ.pos max_retry_deadline)
                  max_rounds false node)
                (λ _. return tt)
                (update_loop-IsGentle server
                  (add_taint_to_spec taint_key taint_value (get_taint_effect effect_type))
                  (wrap "failed to get node") node.name (time +ℤ ℤ.pos max_retry_deadline)
                  max_rounds false node)
                λ updated h. same)

  pub taint_with-IsGentle :
      (taint_key node_name event_id : String)
      → Sends IsGentle (taint_with server n taint_key node_name event_id)
  unfolding taint_with
  taint_with-IsGentle taint_key node_name event_id =
      if-Sends (not n.taint_node) _ _ (λ _ h. same)
        (λ _.
          >>=-Sends
            (on_error (wrap "Unable to fetch kubernetes node from API")
              (fetch_kubernetes_node server n node_name))
            (λ k8s_node.
              add_taint server n k8s_node taint_key (taint_value_of event_id) n.taint_effect)
            (on_error-Sends _ (fetch_kubernetes_node server n node_name)
              (fetch-IsGentle server n node_name))
            λ k8s_node.
              add_taint-IsGentle k8s_node taint_key (taint_value_of event_id) n.taint_effect)

  pub taint_out_of_service-IsGentle :
      (node_name : String) → Sends IsGentle (taint_out_of_service server n node_name)
  unfolding taint_out_of_service
  taint_out_of_service-IsGentle node_name =
      if-Sends (not n.enable_out_of_service_taint || n.cordon_only) _ _ (λ _ h. same)
        (λ _.
          >>=-Sends
            (on_error (wrap "Unable to fetch kubernetes node from API")
              (fetch_kubernetes_node server n node_name))
            (λ k8s_node.
              add_taint server n k8s_node "node.kubernetes.io/out-of-service" "nodeshutdown"
                "NoExecute")
            (on_error-Sends _ (fetch_kubernetes_node server n node_name)
              (fetch-IsGentle server n node_name))
            λ k8s_node.
              add_taint-IsGentle k8s_node "node.kubernetes.io/out-of-service" "nodeshutdown"
                "NoExecute")

  rolled_back-IsGentle : (r : Result (Unit {0})) → Sends IsGentle (rolled_back server n r)
  unfolding rolled_back
  rolled_back-IsGentle (ok u) h = same
  rolled_back-IsGentle (err e) h = same

  after_time_label-IsGentle :
      (node_name : String) (r : Result (Unit {0}))
      → Sends IsGentle (after_time_label server n node_name r)
  unfolding after_time_label
  after_time_label-IsGentle node_name (ok u) = λ h. same
  after_time_label-IsGentle node_name (err e) =
      >>=-Sends (attempt (remove_label server n node_name action_label_key)) (rolled_back server n)
        (remove_label-IsGentle server n node_name action_label_key) rolled_back-IsGentle

  timed-IsGentle :
      (node_name time : String)
      → Sends IsGentle (
          attempt (add_label server n node_name action_label_time_key time false)
          >>= after_time_label server n node_name)
  timed-IsGentle node_name time =
      >>=-Sends (attempt (add_label server n node_name action_label_time_key time false))
        (after_time_label server n node_name)
        (add_label-IsGentle server n node_name action_label_time_key time false)
        (after_time_label-IsGentle node_name)

  pub mark_for_uncordon-IsGentle :
      (node_name : String) → Sends IsGentle (mark_for_uncordon_after_reboot server n node_name)
  unfolding mark_for_uncordon_after_reboot
  mark_for_uncordon-IsGentle node_name =
      >>=-Sends _ _
        (on_error-Sends _
          (add_label server n node_name action_label_key uncordon_after_reboot_label_val false)
          (add_label-IsGentle server n node_name action_label_key uncordon_after_reboot_label_val
            false))
        λ _ h. Extends-trans (more refl same) (
          timed-IsGentle node_name (format_int (unix (server.time (read_clock ∷ h))))
            (read_clock ∷ h))
