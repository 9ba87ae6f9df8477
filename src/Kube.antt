-- ===== src/Kube.antt =====
-- The Kubernetes API server, the kubectl drain helper, the clock and the other outside parties, as
-- the handler's code calls them. They are not part of the repository: what they answer is a
-- parameter, a `Server`, which may answer by all that was asked before, so any behaviour of them
-- and of the rest of the cluster is covered. A run of the code yields its result and the requests
-- that it made, newest first.
pub mod Total
pub mod Trace
pub mod Runs
pub mod Gives
use aws_node_termination_han.Common.{ℕ, String, Bool, true, false, Option, List, ◌∷◌}
use aws_node_termination_han.Common.Int.{ℤ}
use aws_node_termination_han.Event.{LifecycleDetail, InterruptionEvent}

-- What an error of the API server says, as far as the code asks.
pub data Reason : Type 0 where
  not_found conflict other : Reason

-- `new` is a fresh error, or one that swallows its cause, and `wrap` is `fmt.Errorf` with `%w`.
-- `out_of_fuel` is no error of the code: it marks a loop whose fuel ran out.
pub data Error : Type 0 where
  status : Reason → Error
  new : String → Error
  wrap : String → Error → Error
  code : String → Error  -- `awserr.Error`
  skip : Error → Error  -- of pkg/monitor/sqsevent
  out_of_fuel : Error

-- `errors.IsConflict` and `errors.IsNotFound` look through wrapping.
unfoldable pub is_conflict : Error → Bool
is_conflict (status conflict) = true
is_conflict (wrap _ e) = is_conflict e
is_conflict (skip e) = is_conflict e
is_conflict _ = false

unfoldable pub is_not_found : Error → Bool
is_not_found (status not_found) = true
is_not_found (wrap _ e) = is_not_found e
is_not_found (skip e) = is_not_found e
is_not_found _ = false

pub data Result {ℓ} (A : Type ℓ) : Type ℓ where
  ok : A → Result A
  err : Error → Result A

pub data TaintEffect : Type 0 where
  prefer_no_schedule no_execute no_schedule : TaintEffect

pub record Taint : Type 0 where
  pub key : String
  pub value : String
  pub effect : TaintEffect

pub record KubeNode : Type 0 where
  pub name : String
  pub labels : List (String × String)
  pub annotations : List (String × String)
  pub unschedulable : Bool
  pub taints : List Taint
  pub provider_id : String
  pub conditions : List (String × String)  -- type and status
  pub deleting : Bool  -- a deletion timestamp is set

pub record Pod : Type 0 where
  pub name : String
  pub namespace : String
  pub owner_kinds : List String

pub data NodeSelector : Type 0 where
  every_node : NodeSelector
  hostname_in : String → String → NodeSelector
  label_is : String → String → NodeSelector

pub data Request : Type 0 where
  list_nodes : NodeSelector → Request
  get_node : String → Request
  update_node : KubeNode → Request
  merge_label : String → String → String → Request  -- node, key, value
  remove_path : String → String → Request  -- node, JSON pointer
  list_pods : String → Bool → Request  -- node, from the API server's cache
  set_unschedulable : KubeNode → Bool → Request  -- drain.RunCordonOrUncordon
  evict_pods : List Pod → Request  -- Helper.DeleteOrEvictPods
  run_node_drain : String → Request  -- drain.RunNodeDrain
  pod_event : String → String → String → Request  -- pod, namespace, node
  read_clock read_uptime : Request
  sleep await_tick : ℕ → Request  -- nanoseconds: a pause, or the next tick of a ticker
  emit : String → String → Request  -- node, reason of a Kubernetes event
  node_action : String → String → Bool → Request  -- metric: action, node, failed
  post_webhook : String → Request  -- event ID
  describe_asg : String → Request
  set_desired_capacity : String → ℤ → Request
  describe_activities : String → Request
  complete_lifecycle_action record_heartbeat : LifecycleDetail → Request
  start_heartbeats stop_heartbeats : LifecycleDetail → Request  -- the goroutine and its channels
  receive_messages : Request
  delete_message : String → Request
  describe_instances : String → Request
  read_scheduled_events read_spot_itn read_lifecycle_state read_rebalance : Request  -- metadata
  send_event send_cancel : InterruptionEvent → Request  -- into the channels
  check_safety check_utilization : Request  -- the reads of the safety checks of Spot Guard
  check_health : String → Request  -- the reads of its check of a spot group
  http_get : String → List String → Request  -- path and tokens, to the metadata service
  http_put : String → Request

-- An auto scaling group, as `DescribeAutoScalingGroups` shows it.
pub record AutoScalingGroup : Type 0 where
  pub desired_capacity : ℤ
  pub min_size : ℤ
  pub max_size : ℤ
  pub in_service : List Bool  -- for each instance

-- A scaling activity.
pub record Activity : Type 0 where
  pub start_time : ℤ
  pub status_code : String
  pub description : String
  pub cause : String

-- An instance, as `DescribeInstances` shows it.
pub record Instance : Type 0 where
  pub private_dns_name : String
  pub state_name : Option String
  pub availability_zone : String
  pub instance_type : String
  pub tags : List (String × String)

pub record Message : Type 0 where
  pub message_id : String
  pub receipt_handle : String
  pub body : String

-- `ScheduledEventDetail` of pkg/ec2metadata.
pub record ScheduledEvent : Type 0 where
  pub not_before : String
  pub not_after : String
  pub code : String
  pub description : String
  pub event_id : String
  pub state : String

-- `InstanceAction` of pkg/ec2metadata.
pub record InstanceAction : Type 0 where
  pub action : String
  pub time : String

-- The answers. The list is the history, with the request that is answered at its head. `scale_up` is a
-- run of requests of its own: SpotGuard.ScaleUp.guarded fills it in.
pub record Server : Type 0 where
  pub nodes : List Request → Result (List KubeNode)
  pub node : List Request → Result KubeNode
  pub pods : List Request → Result (List Pod)
  pub pods_beside_error : List Request → Option (List Pod)
  pub done : List Request → Result (Unit {0})
  pub time : List Request → ℤ
  pub uptime : List Request → Result ℤ
  pub groups : List Request → Result (List AutoScalingGroup)
  pub activities : List Request → Result (List Activity)
  pub messages : List Request → Result (List Message)
  pub reservations : List Request → Result (List (List Instance))
  pub scheduled_events : List Request → Result (List ScheduledEvent)
  pub spot_itn : List Request → Result (Option InstanceAction)
  pub lifecycle_state : List Request → Result String
  pub rebalance : List Request → Result (Option String)  -- the time of the notice
  pub scale_up : List Request → Result (Unit {0}) × List Request  -- the method of Spot Guard

abbrev pub M : Type 0 → Type 0
M A = List Request → Result A × List Request

abbrev pub return : {A : Type 0} → A → M A
return a h = (ok a, h)

abbrev pub fail : {A : Type 0} → Error → M A
fail e h = (err e, h)

abbrev pub and_then : {A B : Type 0} → Result A × List Request → (A → M B) → Result B × List Request
and_then (ok a, h) f = f a h
and_then (err e, h) f = (err e, h)

infixl 5 ◌>>=◌ ◌>>◌
abbrev pub ◌>>=◌ : {A B : Type 0} → M A → (A → M B) → M B
◌>>=◌ m f h = and_then (m h) f

abbrev pub ◌>>◌ : {B : Type 0} → M (Unit {0}) → M B → M B
m >> k = m >>= λ _. k

abbrev pub lift : {A : Type 0} → Result A → M A
lift r h = (r, h)

-- The error as a value, for code that goes on after one.
abbrev pub attempt : {A : Type 0} → M A → M (Result A)
attempt m h = let (r, h') = m h in (ok r, h')

abbrev pub rethrow :
    {A : Type 0} → (Error → Error) → Result A × List Request → Result A × List Request
rethrow f (ok a, h) = (ok a, h)
rethrow f (err e, h) = (err (f e), h)

-- The same for code that may wait forever: what has run out of fuel has not returned.
abbrev pub returned : {A : Type 0} → Result A → Result (Result A)
returned (ok a) = ok (ok a)
returned (err out_of_fuel) = err out_of_fuel
returned (err e) = ok (err e)

abbrev pub attempt_returning : {A : Type 0} → M A → M (Result A)
attempt_returning m h = let (r, h') = m h in (returned r, h')

-- `if err != nil { return f(err) }`
abbrev pub on_error : {A : Type 0} → (Error → Error) → M A → M A
on_error f m h = rethrow f (m h)

abbrev pub ask : {A : Type 0} → Request → (List Request → Result A) → M A
ask q answer h = (answer (q ∷ h), q ∷ h)

abbrev pub now : Server → M ℤ
now server h = (ok (server.time (read_clock ∷ h)), read_clock ∷ h)

-- A call that returns nothing that the code looks at.
abbrev pub tell : Request → M (Unit {0})
tell q h = (ok tt, q ∷ h)
