-- ===== src/SpotGuard/SelfMonitor/Raises.antt =====
-- What the pre-scaling of the self monitor asks of the scaling groups.
use aws_node_termination_han.Common.{◌≡◌, String, false, List, ◌∷◌}
use aws_node_termination_han.Common.Int.{◌<ℤ◌}
use aws_node_termination_han.Config.{Config}
use aws_node_termination_han.Kube.{
  Request, set_desired_capacity, AutoScalingGroup, Server, check_utilization,
}
use aws_node_termination_han.Kube.Runs.{Runs}
use aws_node_termination_han.Std.{Std}
use aws_node_termination_han.SpotGuard.PreScale.{PreScaleCalculation}
use aws_node_termination_han.SpotGuard.Raising.{Shown}
use aws_node_termination_han.SpotGuard.Safety.{is_zero, get_cluster_utilization}
use aws_node_termination_han.SpotGuard.SelfMonitor.{Surroundings}

-- A capacity is only set for the spot group, and to more than a description of it showed.
abbrev pub IsPreScale : Server → String → Request → Type 0
IsPreScale server spot_asg_name (set_desired_capacity asg_name capacity) =
    (asg_name ≡ spot_asg_name)
    × ((asg : AutoScalingGroup) × Shown server spot_asg_name asg
        × (asg.desired_capacity <ℤ capacity))
IsPreScale server spot_asg_name _ = Unit {0}

module _ {F : Type 0} (std : Std) (server : Server) (n : Config) (world : Surroundings F) where
  abbrev P : Request → Type 0
  P = IsPreScale server n.spot_asg_name

  -- What is known of a calculation: that more nodes are needed than a description showed, if it asks
  -- for any.
  abbrev IsPlan : PreScaleCalculation F → Type 0
  IsPlan calc =
      is_zero calc.additional_spot_nodes ≡ false
      → (asg : AutoScalingGroup) × Shown server n.spot_asg_name asg
        × (asg.desired_capacity <ℤ calc.nodes_needed)

-- What the utilisation is found to be after a history.
abbrev pub utilization_at : {F : Type 0} → Surroundings F → F → List Request → F
utilization_at world max_utilization h =
    get_cluster_utilization world.numbers.floats max_utilization
      (world.ready_nodes (check_utilization ∷ h)) (world.running_pods (check_utilization ∷ h))
