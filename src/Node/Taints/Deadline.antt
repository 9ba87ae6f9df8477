-- ===== src/Node/Taints/Deadline.antt =====
-- The rounds of the loop of `addTaint` and `removeTaint`, its deadline and its pauses.
use aws_node_termination_han.Common.{
  ℕ, zero, suc, ◌+◌, ◌*◌, ◌≤◌, ◌≡◌, ◌≢◌, String, Bool, true, false, Option, none, some, List, [],
  ◌∷◌, ◌++◌, arith, Bool-cases, inl, inr,
}
use aws_node_termination_han.Common.Int.{ℤ, pos, ◌+ℤ◌, ◌≤ℤ◌, ltb_ℤ}
use aws_node_termination_han.Kube.{
  Error, Result, ok, err, out_of_fuel, is_conflict, KubeNode, Request, get_node, update_node, sleep,
  read_clock, Server, M, and_then, rethrow,
}
use aws_node_termination_han.Node.Taints.{
  conflict_retry_interval, max_retry_deadline, max_rounds, before_deadline, after_update,
  after_edit, update_loop,
}

-- The nanoseconds of all pauses in a history.
unfoldable pub slept : List Request → ℕ
slept [] = 0
slept (sleep d ∷ h) = d + slept h
slept (q ∷ h) = slept h

pub slept-append : (g h : List Request) → slept (g ++ h) ≡ slept g + slept h
unfolding slept
slept-append [] h = ground arith
slept-append (sleep d ∷ g) h = ground (arith, slept-append g h)
slept-append (q ∷ g) h = slept-append g h

-- The clock is monotonic, and `time.Sleep` pauses at least as long as it is told.
abbrev pub IsClock : Server → Type 0
IsClock server =
    (g h : List Request)
    → (server.time (read_clock ∷ h) +ℤ pos (slept g)) ≤ℤ server.time (read_clock ∷ g ++ h)

-- No answer is the mark of a loop out of fuel.
abbrev pub IsPlain : Server → (Error → Error) → Type 0
IsPlain server get_error =
    ((h : List Request) → server.done h ≢ err out_of_fuel)
    × ((e : Error) → get_error e ≢ out_of_fuel)

abbrev pub IsEnded : Result Bool × List Request → Type 0
IsEnded (r, h) = r ≢ err out_of_fuel

-- Before the deadline there have been at most six pauses.
room :
    (start time : ℤ) (paused k : ℕ)
    → (start +ℤ pos paused) ≤ℤ time
    → ltb_ℤ time (start +ℤ pos max_retry_deadline) ≡ true
    → 750_000_000 * k ≤ paused
    → k ≤ 6
unfolding ◌+ℤ◌
room start time paused k passed early waited = ground arith

module _ (server : Server) (edit : KubeNode → Option KubeNode) (get_error : Error → Error)
    (name : String) (h0 : List Request) (clock : IsClock server)
    (plain : IsPlain server get_error) where
  abbrev deadline : ℤ
  deadline = server.time (read_clock ∷ h0) +ℤ pos max_retry_deadline

  -- After `k` pauses the loop ends when it starts again.
  abbrev Restarts : (Bool → KubeNode → M Bool) → ℕ → Type 0
  Restarts again k =
      (fresh : KubeNode) (g : List Request)
      → 750_000_000 * k ≤ slept g
      → IsEnded (again true fresh (g ++ h0))

  before_deadline-IsEnded :
      (again : Bool → KubeNode → M Bool) (fresh edited : KubeNode) (e : Error) (k : ℕ)
      (g : List Request)
      → 750_000_000 * k ≤ slept g
      → e ≢ out_of_fuel
      → (k ≤ 6 → Restarts again (suc k))
      → IsEnded (
          before_deadline server edit get_error name deadline again fresh e
            (server.time (read_clock ∷ update_node edited ∷ g ++ h0))
            (read_clock ∷ update_node edited ∷ g ++ h0))
  unfolding before_deadline slept
  before_deadline-IsEnded again fresh edited e k g paused fault s =
      let passed = clock (update_node edited ∷ g) h0 in
      let start = server.time (read_clock ∷ h0) in
      let time = server.time (read_clock ∷ update_node edited ∷ g ++ h0) in
      elim (Bool-cases (ltb_ℤ time deadline)) [
        | inl early ↦ rw early (
            s (room start time (slept g) k passed early paused) fresh
              (sleep conflict_retry_interval ∷ read_clock ∷ update_node edited ∷ g)
              (ground (arith, paused)))
        | inr late ↦ rw late (λ clash. fault (cc clash))
      ]

  after_update-IsEnded :
      (again : Bool → KubeNode → M Bool) (edited : KubeNode) (r : Result (Unit {0})) (k : ℕ)
      (g : List Request)
      → 750_000_000 * k ≤ slept g
      → r ≢ err out_of_fuel
      → (k ≤ 6 → Restarts again (suc k))
      → IsEnded (
          after_update server edit get_error name deadline again edited r
            (update_node edited ∷ g ++ h0))
  unfolding after_update
  after_update-IsEnded again edited (ok u) k g paused fault s = λ clash. cc clash
  after_update-IsEnded again edited (err e) k g paused fault s = elim (Bool-cases (is_conflict e)) [
    | inl clash ↦
        rw clash (before_deadline-IsEnded again edited edited e k g paused (λ x. fault (cc x)) s)
    | inr other ↦ rw other (λ x. fault (cc x))
  ]

  after_edit-IsEnded :
      (again : Bool → KubeNode → M Bool) (node : KubeNode) (o : Option KubeNode) (k : ℕ)
      (g : List Request)
      → 750_000_000 * k ≤ slept g
      → (k ≤ 6 → Restarts again (suc k))
      → IsEnded (after_edit server edit get_error name deadline again true node o (g ++ h0))
  unfolding after_edit
  after_edit-IsEnded again node none k g paused s = λ clash. cc clash
  after_edit-IsEnded again node (some edited) k g paused s =
      after_update-IsEnded again edited (server.done (update_node edited ∷ g ++ h0)) k g paused
        (plain.0 (update_node edited ∷ g ++ h0)) s

  read-IsEnded :
      (again : Bool → KubeNode → M Bool) (r : Result KubeNode) (k : ℕ) (g : List Request)
      → 750_000_000 * k ≤ slept g
      → (k ≤ 6 → Restarts again (suc k))
      → IsEnded (
          and_then
            (rethrow get_error (r, get_node name ∷ g ++ h0))
            (λ node. after_edit server edit get_error name deadline again true node (edit node)))
  unfolding slept
  read-IsEnded again (ok node) k g paused s =
      after_edit-IsEnded again node (edit node) k (get_node name ∷ g) paused s
  read-IsEnded again (err e) k g paused s = λ clash. plain.1 e (cc clash)

  restarts :
      (fuel k : ℕ)
      → 8 ≤ fuel + k
      → k ≤ 7
      → Restarts (update_loop server edit get_error name deadline fuel) k
  unfolding update_loop
  restarts zero k enough few fresh g paused = ground (arith, enough, few)
  restarts (suc fuel) k enough few fresh g paused =
      read-IsEnded (update_loop server edit get_error name deadline fuel)
        (server.node (get_node name ∷ g ++ h0)) k g paused
        (λ room_left. restarts fuel (suc k) (ground (arith, enough)) (ground (arith, room_left)))

  start-IsEnded :
      (fresh : KubeNode) (o : Option KubeNode) (g : List Request)
      → IsEnded (
          after_edit server edit get_error name deadline
            (update_loop server edit get_error name deadline 8)
            false
            fresh
            o
            (g ++ h0))
  unfolding after_edit
  start-IsEnded fresh none g = restarts 8 0 (ground arith) (ground arith) fresh g (ground arith)
  start-IsEnded fresh (some edited) g =
      after_update-IsEnded (update_loop server edit get_error name deadline 8) edited
        (server.done (update_node edited ∷ g ++ h0)) 0 g (ground arith)
        (plain.0 (update_node edited ∷ g ++ h0))
        (λ few fresh' g' paused. restarts 8 1 (ground arith) (ground arith) fresh' g' paused)

  -- On a monotonic clock and with pauses that last as long as they are told to, the rounds of the
  -- loop suffice: it never runs out of fuel, however often the updates conflict.
  pub update_loop-IsEnded :
      (fresh : KubeNode)
      → IsEnded
          (update_loop server edit get_error name deadline max_rounds false fresh (read_clock ∷ h0))
  unfolding update_loop
  update_loop-IsEnded fresh = start-IsEnded fresh (edit fresh) (read_clock ∷ [])
