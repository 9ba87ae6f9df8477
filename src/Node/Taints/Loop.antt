-- ===== src/Node/Taints/Loop.antt =====
-- What the loop of `addTaint` and `removeTaint` achieves, and that it ends.
use aws_node_termination_han.Common.{
  ℕ, zero, suc, ◌≡◌, refl, String, Bool, true, false, Option, none, some, List, ◌∷◌, Bool-cases,
  inl, inr,
}
use aws_node_termination_han.Common.Int.{ℤ, ltb_ℤ}
use aws_node_termination_han.Kube.{
  Error, Result, ok, err, is_conflict, KubeNode, Request, get_node, update_node, sleep, read_clock,
  Server, M, and_then, rethrow,
}
use aws_node_termination_han.Node.Taints.{
  conflict_retry_interval, before_deadline, after_update, after_edit, update_loop,
}

module _ (server : Server) (edit : KubeNode → Option KubeNode) (get_error : Error → Error)
    (name : String) where
  -- What an answer of the loop says of the last request. Yes: the server has accepted a node that
  -- is the edited one. No: the node as it was just read needs no edit.
  abbrev pub IsTold : Result Bool × List Request → Type 0
  IsTold (ok true, h) =
      (node : KubeNode) × (edited : KubeNode) × (g : List Request) × (edit node ≡ some edited)
      × (h ≡ update_node edited ∷ g)
      × (server.done h ≡ ok tt)
  IsTold (ok false, h) =
      (node : KubeNode) × (g : List Request) × (edit node ≡ none)
      × (h ≡ get_node name ∷ g)
      × (server.node h ≡ ok node)
  IsTold (err e, h) = Unit {0}

  module _ (retry_deadline : ℤ) where
    before_deadline-IsTold :
        (again : Bool → KubeNode → M Bool) (fresh : KubeNode) (e : Error) (time : ℤ)
        (h : List Request)
        → ((k : KubeNode) (g : List Request) → IsTold (again true k g))
        → IsTold (before_deadline server edit get_error name retry_deadline again fresh e time h)
    unfolding before_deadline
    before_deadline-IsTold again fresh e time h s = elim (Bool-cases (ltb_ℤ time retry_deadline)) [
      | inl early ↦ rw early (s fresh (sleep conflict_retry_interval ∷ h))
      | inr late ↦ rw late tt
    ]

    after_update-IsTold :
        (again : Bool → KubeNode → M Bool) (node edited : KubeNode) (r : Result (Unit {0}))
        (h : List Request)
        → edit node ≡ some edited
        → server.done (update_node edited ∷ h) ≡ r
        → ((k : KubeNode) (g : List Request) → IsTold (again true k g))
        → IsTold (
            after_update server edit get_error name retry_deadline again edited r
              (update_node edited ∷ h))
    unfolding after_update
    after_update-IsTold again node edited (ok u) h edits done s =
        (node, edited, h, edits, refl, done)
    after_update-IsTold again node edited (err e) h edits done s =
        elim (Bool-cases (is_conflict e)) [
          | inl clash ↦
              rw clash
                (before_deadline-IsTold again edited e _ (read_clock ∷ update_node edited ∷ h) s)
          | inr fault ↦ rw fault tt
        ]

    after_edit-IsTold :
        (again : Bool → KubeNode → M Bool) (refresh : Bool) (node : KubeNode) (o : Option KubeNode)
        (h : List Request)
        → edit node ≡ o
        → (refresh ≡ true
            → (g : List Request) × (h ≡ get_node name ∷ g) × (server.node h ≡ ok node))
        → ((k : KubeNode) (g : List Request) → IsTold (again true k g))
        → IsTold (after_edit server edit get_error name retry_deadline again refresh node o h)
    unfolding after_edit
    after_edit-IsTold again true node none h edits read s =
        let (g, e, answer) = read refl in (node, g, edits, e, answer)
    after_edit-IsTold again false node none h edits read s = s node h
    after_edit-IsTold again refresh node (some edited) h edits read s =
        after_update-IsTold again node edited (server.done (update_node edited ∷ h)) h edits refl s

    read-IsTold :
        (again : Bool → KubeNode → M Bool) (r : Result KubeNode) (g : List Request)
        → server.node (get_node name ∷ g) ≡ r
        → ((k : KubeNode) (g : List Request) → IsTold (again true k g))
        → IsTold (
            and_then (rethrow get_error (r, get_node name ∷ g)) (λ node.
              after_edit server edit get_error name retry_deadline again true node (edit node)))
    read-IsTold again (ok node) g answer s =
        after_edit-IsTold again true node (edit node) (get_node name ∷ g) refl
          (λ _. (g, refl, answer)) s
    read-IsTold again (err e) g answer s = tt

    -- The loop tells the truth: if it answers that the node was updated, its last request wrote the
    -- edited node and was accepted; if it answers that there was nothing to do, its last request
    -- read the node, and the node needs no edit.
    pub update_loop-IsTold :
        (fuel : ℕ) (refresh : Bool) (fresh : KubeNode) (h : List Request)
        → IsTold (update_loop server edit get_error name retry_deadline fuel refresh fresh h)
    unfolding update_loop
    update_loop-IsTold zero refresh fresh h = tt
    update_loop-IsTold (suc fuel) true fresh h =
        read-IsTold (update_loop server edit get_error name retry_deadline fuel)
          (server.node (get_node name ∷ h)) h refl (λ k g. update_loop-IsTold fuel true k g)
    update_loop-IsTold (suc fuel) false fresh h =
        after_edit-IsTold (update_loop server edit get_error name retry_deadline fuel) false fresh
          (edit fresh) h refl (λ clash. cc clash) (λ k g. update_loop-IsTold fuel true k g)
