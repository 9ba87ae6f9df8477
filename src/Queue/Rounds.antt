-- ===== src/Queue/Rounds.antt =====
-- Whole rounds of the monitor of the queue, and what its events' tasks do to the queue.
use mathlib.Core.List.{Memᴰ}
use mathlib.Core.Path.{subst}
use aws_node_termination_han.Common.{
  ℕ, suc, ◌≤◌, ◌≡◌, refl, arith, String, Bool, true, false, not, Option, none, some, List, [], ◌∷◌,
  if◌then◌else◌, str_eq_iff, length,
}
use aws_node_termination_han.Config.{Config}
use aws_node_termination_han.Event.{
  DrainTask, queue_delete, end_termination, end_launch, InterruptionEvent,
}
use aws_node_termination_han.Kube.{
  Result, ok, err, wrap, Message, Request, send_event, delete_message, stop_heartbeats, Server, M,
  and_then, return, ◌>>=◌, ◌>>◌, attempt, on_error, ask, tell,
}
use aws_node_termination_han.Kube.Gives.{>>=-ok}
use aws_node_termination_han.Kube.Trace.{Extends, same, Extends-map, >>=-Sends}
use aws_node_termination_han.Kube.Total.{Yields, >>=-Yields, attempt-Yields, Anything}
use aws_node_termination_han.Std.{Std, EventBridgeEvent}
use aws_node_termination_han.Handler.{continue_lifecycle_action, run_task}
use aws_node_termination_han.Queue.{is_skip}
use aws_node_termination_han.Queue.Monitor.{
  process_sqs_message, outcome, process_message, process_messages,
}
use aws_node_termination_han.Queue.Wrappers.{clears, IsTagged}
use aws_node_termination_han.Queue.Clearing.{process_message-Runs}

-- Whenever the task succeeds, the last thing that it has done is to delete the message with the
-- handle, and the queue has said that it did.
abbrev pub Deletes : String → DrainTask → Type 0
Deletes handle task =
    (server : Server) (n : Config) (event : InterruptionEvent) (h : List Request)
    → (run_task server n task event h).0 ≡ ok tt
    → (g : List Request) × ((run_task server n task event h).1 ≡ delete_message handle ∷ g)
      × (server.done (delete_message handle ∷ g) ≡ ok tt)

-- A request on behalf of a message: an event is sent with a task for after the drain that deletes the
-- message when it succeeds, and no other message is deleted.
abbrev pub IsClearing : Message → Request → Type 0
IsClearing message (send_event event) =
    (task : DrainTask) × (event.post_drain_task ≡ some task) × Deletes message.receipt_handle task
IsClearing message (delete_message handle) = handle ≡ message.receipt_handle
IsClearing message _ = Unit {0}

ran :
    {A B : Type 0} (r : Result A × List Request) (f : A → M B) (a : A)
    → r.0 ≡ ok a
    → (and_then r f).1 ≡ (f a r.1).1
ran (x, g) f a e = rw e refl

task-Deletes :
    (handle : String) (o : Option DrainTask)
    → clears handle o ≡ true
    → (task : DrainTask) × (o ≡ some task) × Deletes handle task
unfolding run_task
task-Deletes handle none e = cc e
task-Deletes handle (some (queue_delete own)) e = (
  queue_delete own,
  refl,
  subst (λ x. Deletes x (queue_delete own)) ((str_eq_iff own handle).0 e)
      (λ server n event h done. (h, refl, done)),
)
task-Deletes handle (some (end_termination detail own)) e = (
  end_termination detail own,
  refl,
  subst (λ x. Deletes x (end_termination detail own)) ((str_eq_iff own handle).0 e)
      (λ server n event h done.
        let first =
          on_error (wrap "continuing ASG termination lifecycle")
            (continue_lifecycle_action server n detail) in
        let (u, went, last) =
          >>=-ok (first h)
            (λ _. tell (stop_heartbeats detail) >> ask (delete_message own) server.done) tt done in
        (stop_heartbeats detail ∷ (first h).1, ran (first h) _ u went, last)),
)
task-Deletes handle (some (end_launch detail own)) e = (
  end_launch detail own,
  refl,
  subst (λ x. Deletes x (end_launch detail own)) ((str_eq_iff own handle).0 e)
      (λ server n event h done.
        let first =
          on_error (wrap "continuing ASG launch lifecycle")
            (continue_lifecycle_action server n detail) in
        let (u, went, last) =
          >>=-ok (first h) (λ _. ask (delete_message own) server.done) tt done in
        ((first h).1, ran (first h) _ u went, last)),
)
task-Deletes handle (some task) e = cc e

tagged-IsClearing : (message : Message) (q : Request) → IsTagged message q → IsClearing message q
tagged-IsClearing message (send_event event) e =
    task-Deletes message.receipt_handle event.post_drain_task e
tagged-IsClearing message (delete_message handle) e = e
tagged-IsClearing message q e = tt

-- The request is on behalf of one of the messages.
abbrev pub IsOf : List Message → Request → Type 0
IsOf messages q = (message : Message) × Memᴰ message messages × IsClearing message q

abbrev pub received : Result (List Message) → List Message
received (ok messages) = messages
received (err e) = []

module _ (std : Std) (server : Server) (n : Config) where
  -- All that is done for a message taken from the queue: an event is only sent with a drain task that
  -- deletes this message when it succeeds, and no other message is deleted.
  pub process_message-IsClearing :
      (message : Message) (h : List Request)
      → Extends (IsClearing message) h (process_message std server n message h).1
  process_message-IsClearing message h =
      Extends-map (tagged-IsClearing message) ((process_message-Runs std server n message).sends h)

  process_messages-IsOf :
      (messages : List Message) (h : List Request)
      → Extends (IsOf messages) h (process_messages std server n messages h).1
  unfolding process_messages
  process_messages-IsOf [] h = same
  process_messages-IsOf (message ∷ messages) h =
      >>=-Sends (process_message std server n message)
        (λ failure. process_messages std server n messages >>= λ failures.
          return (if failure then suc failures else failures))
        (λ h.
          Extends-map (λ q p. (message, Memᴰ.head refl, p)) (process_message-IsClearing message h))
        (λ failure.
          >>=-Sends (process_messages std server n messages)
            (λ failures. return (if failure then suc failures else failures))
            (λ h.
              Extends-map (λ q (m, i, p). (m, Memᴰ.tail i, p)) (process_messages-IsOf messages h))
            (λ failures h. same))
        h

  outcome-Yields :
      (message : Message) (r : Result EventBridgeEvent)
      → Yields Anything (outcome std server n message r)
  outcome-Yields message (err e) h = (not (is_skip e), refl, tt)
  outcome-Yields message (ok event) h = (_, refl, tt)

  process_message-Yields :
      (message : Message) → Yields Anything (process_message std server n message)
  unfolding process_message
  process_message-Yields message =
      >>=-Yields (attempt (process_sqs_message std server n message)) (outcome std server n message)
        (attempt-Yields (process_sqs_message std server n message)) λ r _. outcome-Yields message r

  abbrev bump : Bool → ℕ → ℕ
  bump failure failures = if failure then suc failures else failures

  bump_bound : (failure : Bool) (k l : ℕ) → k ≤ l → bump failure k ≤ suc l
  bump_bound true k l p = omega (arith, p)
  bump_bound false k l p = omega (arith, p)

  -- All messages are processed, however one of them ends, and each counts as failed at most once.
  process_messages_bounded :
      (messages : List Message)
      → Yields (λ failures. failures ≤ length messages) (process_messages std server n messages)
  unfolding process_messages
  process_messages_bounded [] = λ h. (0, refl, omega arith)
  process_messages_bounded (message ∷ messages) =
      >>=-Yields (process_message std server n message)
        (λ failure.
          process_messages std server n messages >>= λ failures. return (bump failure failures))
        (process_message-Yields message)
        λ failure _.
          >>=-Yields (process_messages std server n messages)
            (λ failures. return (bump failure failures)) (process_messages_bounded messages)
            λ failures p h. (bump failure failures, refl, bump_bound failure failures _ p)
