-- ===== src/Node/Gentle.antt =====
-- The requests of the methods of `Node` that leave the pods alone.
pub mod Taints
use aws_node_termination_han.Common.{
  ℕ, zero, suc, ◌≡◌, refl, String, Bool, true, false, not, ◌&&◌, ◌||◌, Option, none, some, List, [],
  ◌∷◌, lookup, is_some, if◌then◌else◌,
}
use aws_node_termination_han.Common.Int.{ℤ, ltb_ℤ, ◌+ℤ◌}
use aws_node_termination_han.Config.{Config}
use aws_node_termination_han.Kube.{
  Error, Result, ok, err, wrap, is_conflict, KubeNode, Request, list_nodes, hostname_in, Server, M,
  return, fail, ◌>>=◌, ◌>>◌, on_error, attempt, ask, tell, now, merge_label, remove_path,
  update_node, get_node, sleep, conflict,
}
use aws_node_termination_han.Kube.Trace.{
  Extends, same, more, Sends, >>=-Sends, on_error-Sends, if-Sends, IsGentle,
}
use aws_node_termination_han.Node.{
  short_node_name, first_match, fetch_kubernetes_node, add_label, remove_label, label_path,
  mark_with_event_id, get_node_labels, get_node_name_from_provider_id, node_with_provider_id,
  name_of, cordon, is_unschedulable, event_id_label_key, action_label_key, action_label_time_key,
  uncordon_after_reboot_label_val,
}
use aws_node_termination_han.Node.Pods.{fetch_all_pods, fetch_pod_name_list}
use aws_node_termination_han.Node.Taints.{
  after_update, after_edit, update_loop, add_taint_to_spec, get_taint_effect, max_retry_deadline,
  max_rounds, add_taint, taint_with, taint_out_of_service, taint_value_of,
}
use aws_node_termination_han.Node.Reboot.{
  mark_for_uncordon_after_reboot, rolled_back, after_time_label, unix, format_int,
}

-- A single request, and none.
one :
    {A : Type 0} (q : Request) (answer : List Request → Result A)
    → IsGentle q
    → Sends IsGentle (ask q answer)
one q answer g h = more g same

module _ (server : Server) (n : Config) where
  first_match-IsGentle :
      (node_name : String) (r : Result (List KubeNode))
      → Sends IsGentle (first_match server n node_name r)
  unfolding first_match
  first_match-IsGentle node_name (ok []) h = more refl same
  first_match-IsGentle node_name (ok (node ∷ nodes)) h = same
  first_match-IsGentle node_name (err e) h = more refl same

  pub fetch-IsGentle :
      (node_name : String) → Sends IsGentle (fetch_kubernetes_node server n node_name)
  unfolding fetch_kubernetes_node
  fetch-IsGentle node_name =
      if-Sends n.dry_run _ _ (λ _ h. same)
        (λ _.
          >>=-Sends
            (attempt
              (ask (list_nodes (hostname_in node_name (short_node_name node_name))) server.nodes))
            (first_match server n node_name) (λ h. more refl same) (first_match-IsGentle node_name))

  pub add_label-IsGentle :
      (node_name key value : String) (skip_existing : Bool)
      → Sends IsGentle (add_label server n node_name key value skip_existing)
  unfolding add_label
  add_label-IsGentle node_name key value skip_existing =
      >>=-Sends (fetch_kubernetes_node server n node_name) _ (fetch-IsGentle node_name) λ node.
        if-Sends (skip_existing && is_some (lookup key node.labels)) _ _ (λ _ h. same)
          (λ _.
            if-Sends n.dry_run _ _ (λ _ h. same)
              (λ _.
                on_error-Sends _ (ask (merge_label node.name key value) server.done)
                  (λ h. more refl same)))

  pub remove_label-IsGentle :
      (node_name key : String) → Sends IsGentle (remove_label server n node_name key)
  unfolding remove_label
  remove_label-IsGentle node_name key =
      >>=-Sends (fetch_kubernetes_node server n node_name) _ (fetch-IsGentle node_name) λ node.
        if-Sends n.dry_run _ _ (λ _ h. same)
          (λ _.
            on_error-Sends _ (ask (remove_path node.name (label_path key)) server.done)
              (λ h. more refl same))

  pub mark_with_event_id-IsGentle :
      (node_name event_id : String)
      → Sends IsGentle (mark_with_event_id server n node_name event_id)
  unfolding mark_with_event_id
  mark_with_event_id-IsGentle node_name event_id =
      on_error-Sends _ (add_label server n node_name event_id_label_key event_id false)
        (add_label-IsGentle node_name event_id_label_key event_id false)

  pub get_node_labels-IsGentle :
      (node_name : String) → Sends IsGentle (get_node_labels server n node_name)
  unfolding get_node_labels
  get_node_labels-IsGentle node_name =
      if-Sends n.dry_run _ _ (λ _ h. same)
        (λ _.
          >>=-Sends (fetch_kubernetes_node server n node_name) _ (fetch-IsGentle node_name)
            λ node h. same)

  with_provider_id-IsGentle :
      (provider_id : String) (nodes : List KubeNode)
      → Sends IsGentle (node_with_provider_id server n provider_id nodes)
  unfolding node_with_provider_id
  with_provider_id-IsGentle provider_id [] = λ h. same
  with_provider_id-IsGentle provider_id (node ∷ nodes) =
      if-Sends _ _ _ (λ _ h. same) (λ _. with_provider_id-IsGentle provider_id nodes)

  pub get_node_name-IsGentle :
      (provider_id : String) → Sends IsGentle (get_node_name_from_provider_id server n provider_id)
  unfolding get_node_name_from_provider_id
  get_node_name-IsGentle provider_id =
      if-Sends n.dry_run _ _ (λ _ h. same)
        (λ _. >>=-Sends _ _ (λ h. more refl same) (with_provider_id-IsGentle provider_id))

  pub cordon-IsGentle : (node_name : String) → Sends IsGentle (cordon server n node_name)
  unfolding cordon
  cordon-IsGentle node_name =
      if-Sends n.dry_run _ _ (λ _ h. same)
        (λ _.
          >>=-Sends (fetch_kubernetes_node server n node_name) _ (fetch-IsGentle node_name)
            λ node h. more refl same)

  pub is_unschedulable-IsGentle :
      (node_name : String) → Sends IsGentle (is_unschedulable server n node_name)
  unfolding is_unschedulable
  is_unschedulable-IsGentle node_name =
      if-Sends n.dry_run _ _ (λ _ h. same)
        (λ _.
          >>=-Sends (fetch_kubernetes_node server n node_name) _ (fetch-IsGentle node_name)
            λ node h. same)

  pub fetch_pod_name_list-IsGentle :
      (node_name : String) → Sends IsGentle (fetch_pod_name_list server n node_name)
  unfolding fetch_pod_name_list fetch_all_pods
  fetch_pod_name_list-IsGentle node_name =
      >>=-Sends (fetch_all_pods server n node_name) _
        (if-Sends n.dry_run _ _ (λ _ h. same) (λ _ h. more refl same)) λ pods h. same
