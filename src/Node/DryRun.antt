-- ===== src/Node/DryRun.antt =====
-- The methods of `Node` in a dry run, but for `RemoveNTHTaints`, which does not look at the setting.
use aws_node_termination_han.Common.{
  ◌≡◌, refl, String, Bool, true, false, not, [], ◌∷◌, lookup, Bool-cases, inl, inr, ◌||◌,
}
use aws_node_termination_han.Config.{Config}
use aws_node_termination_han.Kube.{KubeNode, Server, return, read_clock}
use aws_node_termination_han.Kube.Trace.{same, more, Sends, SparesNodes}
use aws_node_termination_han.Node.{
  blank_node, fetch_kubernetes_node, add_label, remove_label, mark_with_event_id, get_node_labels,
  get_node_name_from_provider_id, cordon, uncordon, is_unschedulable, event_id_label_key,
  action_label_key, action_label_time_key, uncordon_after_reboot_label_val,
}
use aws_node_termination_han.Node.Pods.{fetch_all_pods, fetch_pod_name_list, cordon_and_drain}
use aws_node_termination_han.Node.Taints.{
  add_taint, taint_with, taint_out_of_service, taint_value_of,
}
use aws_node_termination_han.Node.Reboot.{
  after_time_label, mark_for_uncordon_after_reboot, unix, format_int,
}

module _ (server : Server) (n : Config) (dry : n.dry_run ≡ true) where
  pub dry_fetch :
      (node_name : String)
      → fetch_kubernetes_node server n node_name ≡ return (blank_node node_name)
  unfolding fetch_kubernetes_node
  dry_fetch node_name = rw dry refl

  pub dry_add_label :
      (node_name key value : String) (skip_existing : Bool)
      → add_label server n node_name key value skip_existing ≡ return tt
  unfolding add_label fetch_kubernetes_node lookup
  dry_add_label node_name key value true = rw dry refl
  dry_add_label node_name key value false = rw dry refl

  pub dry_remove_label : (node_name key : String) → remove_label server n node_name key ≡ return tt
  unfolding remove_label fetch_kubernetes_node
  dry_remove_label node_name key = rw dry refl

  pub dry_cordon : (node_name : String) → cordon server n node_name ≡ return tt
  unfolding cordon
  dry_cordon node_name = rw dry refl

  pub dry_uncordon : (node_name : String) → uncordon server n node_name ≡ return tt
  unfolding uncordon
  dry_uncordon node_name = rw dry refl

  pub dry_is_unschedulable :
      (node_name : String) → is_unschedulable server n node_name ≡ return false
  unfolding is_unschedulable
  dry_is_unschedulable node_name = rw dry refl

  pub dry_mark_with_event_id :
      (node_name event_id : String) → mark_with_event_id server n node_name event_id ≡ return tt
  unfolding mark_with_event_id
  dry_mark_with_event_id node_name event_id =
      rw (dry_add_label node_name event_id_label_key event_id false) refl

  pub dry_get_node_labels : (node_name : String) → get_node_labels server n node_name ≡ return []
  unfolding get_node_labels
  dry_get_node_labels node_name = rw dry refl

  pub dry_get_node_name :
      (provider_id : String) → get_node_name_from_provider_id server n provider_id ≡ return ""
  unfolding get_node_name_from_provider_id
  dry_get_node_name provider_id = rw dry refl

  pub dry_cordon_and_drain :
      (node_name : String) (recorder : Bool)
      → cordon_and_drain server n node_name recorder ≡ return tt
  unfolding cordon_and_drain
  dry_cordon_and_drain node_name recorder = rw dry refl

  pub dry_fetch_pod_name_list :
      (node_name : String) → fetch_pod_name_list server n node_name ≡ return []
  unfolding fetch_pod_name_list fetch_all_pods
  dry_fetch_pod_name_list node_name = rw dry refl

  pub dry_add_taint :
      (node : KubeNode) (taint_key taint_value effect_type : String)
      → add_taint server n node taint_key taint_value effect_type ≡ return tt
  unfolding add_taint
  dry_add_taint node taint_key taint_value effect_type = rw dry refl

  pub dry_taint_with :
      (taint_key node_name event_id : String)
      → taint_with server n taint_key node_name event_id ≡ return tt
  unfolding taint_with
  dry_taint_with taint_key node_name event_id = elim (Bool-cases (not n.taint_node)) [
    | inl e ↦ rw e refl
    | inr e ↦
        rw (e, dry_fetch node_name)
          (rw
            (dry_add_taint (blank_node node_name) taint_key (taint_value_of event_id)
              n.taint_effect)
            refl)
  ]

  pub dry_taint_out_of_service :
      (node_name : String) → taint_out_of_service server n node_name ≡ return tt
  unfolding taint_out_of_service
  dry_taint_out_of_service node_name =
      elim (Bool-cases (not n.enable_out_of_service_taint || n.cordon_only)) [
        | inl e ↦ rw e refl
        | inr e ↦
            rw (e, dry_fetch node_name)
              (rw
                (dry_add_taint (blank_node node_name) "node.kubernetes.io/out-of-service"
                  "nodeshutdown" "NoExecute")
                refl)
      ]

  pub dry_mark_for_uncordon_after_reboot :
      (node_name : String) → Sends SparesNodes (mark_for_uncordon_after_reboot server n node_name)
  unfolding mark_for_uncordon_after_reboot after_time_label
  dry_mark_for_uncordon_after_reboot node_name h =
      rw (dry_add_label node_name action_label_key uncordon_after_reboot_label_val false) (
        rw
          (dry_add_label node_name action_label_time_key
            (format_int (unix (server.time (read_clock ∷ h)))) false)
          (more refl same))
