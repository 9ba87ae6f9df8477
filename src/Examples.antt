-- ===== src/Examples.antt =====
-- Concrete data: one node, two events for it, a server that answers every request and whose clock
-- advances with the pauses alone.
mod Events
mod Cluster
mod Queue
mod Scaling
mod Metadata
mod Monitoring
mod Settings
use aws_node_termination_han.Common.{
  ℕ, String, Bool, false, true, none, List, [], ◌∷◌, if◌then◌else◌, ◌==◌,
}
use aws_node_termination_han.Common.Int.{ℤ}
use aws_node_termination_han.Config.{Config, default_config}
use aws_node_termination_han.Event.{InterruptionEvent, zero_event, spot_itn_kind}
use aws_node_termination_han.Kube.{ok, KubeNode, AutoScalingGroup, Server}
use aws_node_termination_han.Node.Taints.Deadline.{slept}
use aws_node_termination_han.Store.{Store, new, add_interruption_event}

abbrev pub node_a : KubeNode
node_a = record {
  name = "node-a";
  labels = ("team", "core") ∷ [];
  annotations = [];
  unschedulable = false;
  taints = [];
  provider_id = "aws:///us-west-2a/i-0abc";
  conditions = ("Ready", "True") ∷ [];
  deleting = false;
}

abbrev pub group : AutoScalingGroup
group = record {
  desired_capacity = ℤ.pos 3;
  min_size = ℤ.pos 1;
  max_size = ℤ.pos 5;
  in_service = true ∷ true ∷ true ∷ [];
}

abbrev pub server : Server
server = record {
  nodes = λ h. ok (node_a ∷ []);
  node = λ h. ok node_a;
  pods = λ h. ok [];
  pods_beside_error = λ h. none;
  done = λ h. ok tt;
  time = λ h. ℤ.pos (slept h);
  uptime = λ h. ok (ℤ.pos 100);
  groups = λ h. ok (group ∷ []);
  activities = λ h. ok [];
  messages = λ h. ok [];
  reservations = λ h. ok [];
  scheduled_events = λ h. ok [];
  spot_itn = λ h. ok none;
  lifecycle_state = λ h. ok "";
  rebalance = λ h. ok none;
  scale_up = λ h. (ok tt, h);
}

abbrev pub first_event : InterruptionEvent
first_event = record zero_event {
  event_id = "spot-itn-1";
  kind = spot_itn_kind;
  node_name = "node-a";
}

abbrev pub second_event : InterruptionEvent
second_event = record zero_event {
  event_id = "spot-itn-2";
  kind = spot_itn_kind;
  node_name = "node-a";
}

abbrev pub heap : ℕ → InterruptionEvent
heap p = if p == 0 then first_event else second_event

abbrev pub fresh : Store
fresh = new default_config heap

-- The first event is stored, and then the second.
abbrev pub one_stored : Store
one_stored = add_interruption_event 0 fresh

abbrev pub both_stored : Store
both_stored = add_interruption_event 1 one_stored

abbrev pub at_start : ℕ → ℤ
at_start p = ℤ.pos 0
