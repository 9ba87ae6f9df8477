-- ===== src/SpotGuard/Marker/Restart.antt =====
-- What the annotations give back: after a restart, and after the marker is cleared.
use aws_node_termination_han.Common.{
  ◌≡◌, refl, ap, ◌∙◌, none, some, List, ◌∷◌, str_eq, insert, lookup-insert,
}
use aws_node_termination_han.Common.Int.{ℤ}
use aws_node_termination_han.Config.{Config}
use aws_node_termination_han.Kube.{Request, ok, get_node, read_clock, KubeNode, Server}
use aws_node_termination_han.Std.{Std}
use aws_node_termination_han.SpotGuard.Marker.{
  start_time_annotation, spot_asg_annotation, on_demand_asg_annotation, stored_time,
  with_start_time, get_or_create_start_time, readable,
}

module _ (std : Std) (server : Server) (n : Config) where
  -- The start time is what its text is read as.
  stored-with_start_time :
      (time read : ℤ) (node : KubeNode)
      → std.rfc3339 (std.rfc3339_text time) ≡ ok read
      → stored_time std server n (with_start_time std server n time node) ≡ some read
  unfolding str_eq
  stored-with_start_time time read node e =
      ap
        (λ found. elim found [ none ↦ none | some text ↦ readable std server n (std.rfc3339 text) ])
        (lookup-insert on_demand_asg_annotation start_time_annotation n.on_demand_asg_name (
            insert spot_asg_annotation n.spot_asg_name
              (insert start_time_annotation (std.rfc3339_text time) node.annotations))
          ∙ lookup-insert spot_asg_annotation start_time_annotation n.spot_asg_name
              (insert start_time_annotation (std.rfc3339_text time) node.annotations)
          ∙ lookup-insert start_time_annotation start_time_annotation (std.rfc3339_text time)
              node.annotations)
      ∙ ap (readable std server n) e

  created :
      (node : KubeNode) (h : List Request)
      → stored_time std server n node ≡ none
      → server.node (get_node n.node_name ∷ h) ≡ ok node
      → (get_or_create_start_time std server n h).0
        ≡ ok (server.time (read_clock ∷ get_node n.node_name ∷ h))
  unfolding get_or_create_start_time
  created node h none_stored e = rw e (rw none_stored refl)

  loaded :
      (node : KubeNode) (time : ℤ) (h : List Request)
      → stored_time std server n node ≡ some time
      → server.node (get_node n.node_name ∷ h) ≡ ok node
      → (get_or_create_start_time std server n h).0 ≡ ok time
  unfolding get_or_create_start_time
  loaded node time h stored e = rw e (rw stored refl)

-- On a node without a start time the monitor starts at the time that the clock shows. Restarted later,
-- when it finds the node as it has updated it, it starts at the time that the text it wrote is read as.
pub get_or_create_start_time-restart :
    (std : Std) (server : Server) (n : Config) (node : KubeNode) (read : ℤ) (h h' : List Request)
    → stored_time std server n node ≡ none
    → server.node (get_node n.node_name ∷ h) ≡ ok node
    → std.rfc3339 (std.rfc3339_text (server.time (read_clock ∷ get_node n.node_name ∷ h))) ≡ ok read
    → server.node (get_node n.node_name ∷ h')
      ≡ ok (with_start_time std server n (server.time (read_clock ∷ get_node n.node_name ∷ h)) node)
    → ((get_or_create_start_time std server n h).0
        ≡ ok (server.time (read_clock ∷ get_node n.node_name ∷ h)))
      × ((get_or_create_start_time std server n h').0 ≡ ok read)
get_or_create_start_time-restart std server n node read h h' fresh found text updated =
    let time = server.time (read_clock ∷ get_node n.node_name ∷ h) in
    (
      created std server n node h fresh found,
      loaded std server n (with_start_time std server n time node) read h'
          (stored-with_start_time std server n time read node text) updated,
    )
