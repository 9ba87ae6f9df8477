-- ===== src/Node/Labels.antt =====
-- The removal of a label by its value.
use aws_node_termination_han.Common.{
  ◌≡◌, refl, String, false, some, List, ◌∷◌, str_eq, lookup, if◌then◌else◌, Bool-cases, inl, inr,
}
use aws_node_termination_han.Config.{Config}
use aws_node_termination_han.Kube.{
  Result, ok, err, KubeNode, Request, remove_path, Server, rethrow, wrap,
}
use aws_node_termination_han.Node.{fetch_kubernetes_node, label_path, remove_label_if_value_matches}

module _ (server : Server) (n : Config) (node_name key match_value : String) (h h' : List Request)
    (node : KubeNode) where
  rethrow_trace :
      {A : Type 0} (r : Result A) (g : List Request)
      → (rethrow (wrap "node Patch failed when removing a label from the node") (r, g)).1 ≡ g
  rethrow_trace (ok a) g = refl
  rethrow_trace (err e) g = refl

  -- Outside a dry run, `removeLabelIfValueMatches` leaves a label that has the value that it is
  -- called with, and asks the server to remove one that has any other value.
  pub remove_label_if_value_matches_lem :
      (val : String)
      → n.dry_run ≡ false
      → fetch_kubernetes_node server n node_name h ≡ (ok node, h')
      → lookup key node.labels ≡ some val
      → (remove_label_if_value_matches server n node_name key match_value h).1
        ≡ (if str_eq val match_value then h' else remove_path node.name (label_path key) ∷ h')
  unfolding remove_label_if_value_matches
  remove_label_if_value_matches_lem val live fetched there =
      elim (Bool-cases (str_eq val match_value)) [
        | inl e ↦ rw (fetched, there, e) refl
        | inr e ↦
            rw (fetched, there, e, live)
              (rethrow_trace (server.done (remove_path node.name (label_path key) ∷ h')) _)
      ]
