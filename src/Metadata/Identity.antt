-- ===== src/Metadata/Identity.antt =====
-- The IDs of the events of the metadata's monitors: pkg/monitor/spotitn, rebalancerecommendation and
-- asglifecycle.
use aws_node_termination_han.Common.{◌≡◌, refl, ap, ◌∙◌, String, Option, none, some, List, [], ◌∷◌}
use aws_node_termination_han.Common.Int.{ℤ}
use aws_node_termination_han.Event.{InterruptionEvent}
use aws_node_termination_han.Kube.{
  Error, Result, ok, err, wrap, and_then, rethrow, return, InstanceAction, Request, read_spot_itn,
  send_event, Server,
}
use aws_node_termination_han.Std.{Std}
use aws_node_termination_han.Metadata.{spot_itn_event, check_for_spot_interruption_notice}

-- The ID of the event that a history ends with, if it ends with one.
abbrev pub last_id : List Request → Option String
last_id (send_event event ∷ h) = some event.event_id
last_id _ = none

module _ (std : Std) (server : Server) (node_name : String) where
  kept :
      (f : Error → Error) (t : Result ℤ) (make : ℤ → Option InterruptionEvent) (h g : List Request)
      → (and_then (rethrow f (t, h)) (λ x. return (make x))).0
        ≡ (and_then (rethrow f (t, g)) (λ x. return (make x))).0
  kept f (ok t) make h g = refl
  kept f (err e) make h g = refl

  -- The history has no part in it.
  history_free :
      (f : Error → Error) (r : Result (Option InstanceAction)) (h g : List Request)
      → (and_then (rethrow f (r, h)) (spot_itn_event std server node_name)).0
        ≡ (and_then (rethrow f (r, g)) (spot_itn_event std server node_name)).0
  history_free f (err e) h g = refl
  history_free f (ok none) h g = refl
  history_free f (ok (some notice)) h g =
      kept (wrap "Could not parse time from spot interruption notice metadata json")
        (std.rfc3339 notice.time) _ h g

  -- A spot interruption notice makes the same event in every round that sees it, so that the store of
  -- events takes it only once.
  check_for_spot_interruption_notice_again :
      (h g : List Request)
      → server.spot_itn (read_spot_itn ∷ h) ≡ server.spot_itn (read_spot_itn ∷ g)
      → (check_for_spot_interruption_notice std server node_name h).0
        ≡ (check_for_spot_interruption_notice std server node_name g).0
  unfolding check_for_spot_interruption_notice
  check_for_spot_interruption_notice_again h g e =
      history_free (wrap "There was a problem checking for spot ITNs")
        (server.spot_itn (read_spot_itn ∷ h)) (read_spot_itn ∷ h) (read_spot_itn ∷ g)
      ∙ ap
          (λ r.
            (and_then
              (rethrow (wrap "There was a problem checking for spot ITNs") (r, read_spot_itn ∷ g))
              (spot_itn_event std server node_name)).0)
          e

  -- What is relied on: `time.Time.String` and SHA-256 give different texts for different arguments, and
  -- so does `fmt.Sprintf` with a format that prints its arguments whole.
  pub record KeepsTimes : Type 0 where
    pub printing : (a b : ℤ) → std.time_text a ≡ std.time_text b → a ≡ b
    pub hashing : (a b : String) → std.sha256 a ≡ std.sha256 b → a ≡ b
    pub joining :
        (a b : String)
        → std.sprintf "%s:%s" ("Terminated" ∷ a ∷ []) ≡ std.sprintf "%s:%s" ("Terminated" ∷ b ∷ [])
        → a ≡ b
    pub naming :
        (a b : String)
        → std.sprintf "target-lifecycle-state-terminated-%x" (a ∷ [])
          ≡ std.sprintf "target-lifecycle-state-terminated-%x" (b ∷ [])
        → a ≡ b
