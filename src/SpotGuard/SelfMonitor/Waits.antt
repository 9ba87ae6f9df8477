-- ===== src/SpotGuard/SelfMonitor/Waits.antt =====
-- The wait of the self monitor for its own node's end.
use aws_node_termination_han.Common.{
  ℕ, zero, suc, ◌+◌, ◌*◌, ◌≤◌, ◌≡◌, refl, sym, ◌∙◌, arith, Bool, true, false, List, [], ◌∷◌, ◌++◌,
  Bool-cases, inl, inr,
}
use aws_node_termination_han.Common.Int.{ℤ, pos, ◌+ℤ◌, ◌-ℤ◌, ◌≤ℤ◌, leb_ℤ}
use aws_node_termination_han.Config.{Config}
use aws_node_termination_han.Kube.{Request, ok, get_node, await_tick, read_clock, Server, M}
use aws_node_termination_han.Std.{Std}
use aws_node_termination_han.SpotGuard.Marker.{is_gone, is_this_node_terminating}
use aws_node_termination_han.SpotGuard.ScaleUp.{tick_interval}
use aws_node_termination_han.SpotGuard.SelfMonitor.{
  Surroundings, maximal_wait, check_interval, await_termination, wait_for_this_node_termination,
}
use aws_node_termination_han.SpotGuard.Waiting.{ticks, IsTicker}

-- The tick at which five minutes are over.
late :
    (start time : ℤ) (k : ℕ)
    → (start +ℤ pos (tick_interval * suc k)) ≤ℤ time
    → 30 ≤ suc k
    → leb_ℤ (pos maximal_wait) (time -ℤ start) ≡ true
unfolding ◌+ℤ◌ ◌-ℤ◌
late start time k passed enough = ground (arith, passed, enough)

module _ {F : Type 0} (std : Std) (server : Server) (n : Config) (world : Surroundings F)
    (h : List Request) (ticker : IsTicker server h) where
  -- An answer, which is only a yes if the node is to be deleted or could not be read.
  abbrev pub Answers : M Bool → List Request → Type 0
  Answers m g =
      (b : Bool) × ((m g).0 ≡ ok b)
      × (b ≡ true
          → (g' : List Request) × (is_gone std server n (server.node (get_node n.node_name ∷ g'))
              ≡ true))

  abbrev start : ℤ
  start = server.time (read_clock ∷ h)

  abbrev looked : List Request → List Request
  looked g = get_node n.node_name ∷ read_clock ∷ await_tick check_interval ∷ g

  abbrev time_at : List Request → ℤ
  time_at g = server.time (read_clock ∷ await_tick check_interval ∷ g ++ read_clock ∷ h)

  one_round :
      (f : ℕ) (g : List Request)
      → (leb_ℤ (pos maximal_wait) (time_at g -ℤ start) ≡ false
          → Answers (await_termination std server n world f start) (looked g ++ read_clock ∷ h))
      → Answers (await_termination std server n world (suc f) start) (g ++ read_clock ∷ h)
  unfolding await_termination is_this_node_terminating
  one_round f g k = elim (Bool-cases (world.is_done (g ++ read_clock ∷ h))) [
    | inl done ↦ rw done (false, refl, λ e. cc e)
    | inr goes_on ↦
        elim (Bool-cases (is_gone std server n (server.node (looked g ++ read_clock ∷ h)))) [
          | inl gone ↦
              rw (goes_on, gone)
                (
                  true,
                  refl,
                  λ e. (read_clock ∷ await_tick check_interval ∷ g ++ read_clock ∷ h, gone),
                )
          | inr there ↦ elim (Bool-cases (leb_ℤ (pos maximal_wait) (time_at g -ℤ start))) [
            | inl over ↦ rw (goes_on, there, over) (false, refl, λ e. cc e)
            | inr early ↦ rw (goes_on, there, early) (k early)
          ]
        ]
  ]

  loop :
      (f : ℕ) (g : List Request)
      → 30 ≤ ticks g + suc f
      → Answers (await_termination std server n world (suc f) start) (g ++ read_clock ∷ h)
  unfolding ticks
  loop zero g enough = one_round zero g λ early. cc (
      sym early
      ∙ late start (time_at g) (ticks g) (ticker (await_tick check_interval ∷ g))
          (ground (arith, enough)))
  loop (suc f) g enough = one_round (suc f) g λ early. loop f (looked g) (ground (arith, enough))

-- On a ticker that is not early, the wait for the end of the own node ends within thirty ticks, and it
-- only ends with a yes if the node is to be deleted or if a request for it failed.
pub wait_for_this_node_termination-Ends :
    {F : Type 0} (std : Std) (server : Server) (n : Config) (world : Surroundings F)
    (h : List Request) (f : ℕ)
    → IsTicker server h
    → 30 ≤ suc f
    → (b : Bool) × ((wait_for_this_node_termination std server n world (suc f) h).0 ≡ ok b)
      × (b ≡ true
          → (g : List Request) × (is_gone std server n (server.node (get_node n.node_name ∷ g))
              ≡ true))
unfolding wait_for_this_node_termination ticks
wait_for_this_node_termination-Ends std server n world h f ticker enough =
    loop std server n world h ticker f [] (ground (arith, enough))
