-- ===== src/Queue/Heartbeats.antt =====
-- asg-lifecycle-event.go: the heartbeats that keep a lifecycle hook open. What the `select` of the
-- loop receives next is a list of signals; the runtime may choose any that is ready.
use aws_node_termination_han.Common.{
  ◌≡◌, refl, Bool, false, List, [], ◌∷◌, if◌then◌else◌, str_eq, Bool-cases, inl, inr,
}
use aws_node_termination_han.Event.{LifecycleDetail}
use aws_node_termination_han.Kube.{
  Error, Result, ok, err, code, wrap, skip, Request, record_heartbeat, Server, M, return, fail,
  ◌>>=◌, attempt, ask, and_then,
}

pub data Signal : Type 0 where
  cancelled stopped tick timed_out : Signal

-- `errors.As` for an `awserr.Error` of the code.
unfoldable pub is_invalid_target : Error → Bool
is_invalid_target (code c) = str_eq c "ValidationError"
is_invalid_target (wrap _ e) = is_invalid_target e
is_invalid_target (skip e) = is_invalid_target e
is_invalid_target _ = false

-- Only an invalid target is an error: another failure is left to the next heartbeat.
abbrev pub heartbeat_error : Result (Unit {0}) → M (Unit {0})
heartbeat_error (ok _) = return tt
heartbeat_error (err e) = if is_invalid_target e then fail e else return tt

module _ (server : Server) where
  unfoldable pub record_lifecycle_action_heartbeat : LifecycleDetail → M (Unit {0})
  record_lifecycle_action_heartbeat detail =
      attempt (ask (record_heartbeat detail) server.done) >>= heartbeat_error

  -- An error ends the loop as the other signals do. With no signal left the loop still waits.
  unfoldable pub send_heartbeats : LifecycleDetail → List Signal → M (Unit {0})
  send_heartbeats detail [] = return tt
  send_heartbeats detail (tick ∷ signals) =
      record_lifecycle_action_heartbeat detail >>= λ _. send_heartbeats detail signals
  send_heartbeats detail (cancelled ∷ signals) = return tt
  send_heartbeats detail (stopped ∷ signals) = return tt
  send_heartbeats detail (timed_out ∷ signals) = return tt

-- The ticks before the first signal that ends the loop.
abbrev pub ticks : List Signal → List Signal
ticks [] = []
ticks (tick ∷ signals) = tick ∷ ticks signals
ticks (cancelled ∷ signals) = []
ticks (stopped ∷ signals) = []
ticks (timed_out ∷ signals) = []

abbrev pub is_rejected : Result (Unit {0}) → Bool
is_rejected (ok _) = false
is_rejected (err e) = is_invalid_target e

-- A heartbeat for each tick until one is rejected, that one included.
abbrev pub beats : Server → LifecycleDetail → List Signal → List Request → List Request
beats server detail [] h = h
beats server detail (_ ∷ signals) h =
    let h' = record_heartbeat detail ∷ h in
    if is_rejected (server.done h') then h' else beats server detail signals h'

module _ (server : Server) (detail : LifecycleDetail) where
  beat_then :
      (answer : Result (Unit {0})) (h g : List Request) (k : M (Unit {0}))
      → (k h).1 ≡ g
      → (and_then (heartbeat_error answer h) (λ _. k)).1 ≡ (if is_rejected answer then h else g)
  beat_then (ok _) h g k e = e
  beat_then (err x) h g k e = elim (Bool-cases (is_invalid_target x)) [
    | inl r ↦ rw r refl
    | inr r ↦ rw r e
  ]

  -- The loop sends one heartbeat for each tick that comes before it is stopped, cancelled or
  -- timed out, and none after one that the scaling group rejects as invalid; a heartbeat that
  -- fails in another way does not end it.
  pub send_heartbeats_lem :
      (signals : List Signal) (h : List Request)
      → (send_heartbeats server detail signals h).1 ≡ beats server detail (ticks signals) h
  unfolding send_heartbeats record_lifecycle_action_heartbeat
  send_heartbeats_lem [] h = refl
  send_heartbeats_lem (tick ∷ signals) h =
      beat_then (server.done (record_heartbeat detail ∷ h)) (record_heartbeat detail ∷ h)
        (beats server detail (ticks signals) (record_heartbeat detail ∷ h))
        (send_heartbeats server detail signals)
        (send_heartbeats_lem signals (record_heartbeat detail ∷ h))
  send_heartbeats_lem (cancelled ∷ signals) h = refl
  send_heartbeats_lem (stopped ∷ signals) h = refl
  send_heartbeats_lem (timed_out ∷ signals) h = refl
