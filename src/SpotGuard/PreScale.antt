-- ===== src/SpotGuard/PreScale.antt =====
-- pkg/spotguard/health_checker.go: `CalculatePreScaleNodes` and `ScaleSpotASG`. An `int` is an integer
-- without a bound.
pub mod Enough
use aws_node_termination_han.Common.{ℕ, String, Bool, ◌&&◌, List, [], ◌∷◌, if◌then◌else◌}
use aws_node_termination_han.Common.Int.{ℤ, ◌+ℤ◌, ◌-ℤ◌, leb_ℤ, ltb_ℤ}
use aws_node_termination_han.Kube.{
  new, wrap, describe_asg, set_desired_capacity, AutoScalingGroup, Server, M, return, fail, ◌>>=◌,
  on_error, ask,
}
use aws_node_termination_han.SpotGuard.Safety.{Floats}

-- More of Go's floating-point numbers, as parameters: `+`, `<=` and the conversion to `int`.
pub record MoreFloats (F : Type 0) : Type 0 where
  pub floats : Floats F
  pub plus : F → F → F
  pub at_most : F → F → Bool
  pub int : F → ℤ

pub record PreScaleCalculation (F : Type 0) : Type 0 where
  pub current_nodes : ℤ
  pub current_spot_nodes : ℤ
  pub current_on_demand_nodes : ℤ
  pub current_utilization : F
  pub target_utilization : F
  pub nodes_needed : ℤ
  pub additional_spot_nodes : ℤ
  pub expected_utilization : F
  pub safety_buffer : F

-- The first group of the answer; an answer with none is an error too.
unfoldable pub described_group : String → List AutoScalingGroup → M AutoScalingGroup
described_group text [] = fail (new text)
described_group text (asg ∷ rest) = return asg

module _ {F : Type 0} (more : MoreFloats F) where
  open more use {floats, plus, at_most, int}

  abbrev pub round_up : F → ℤ
  round_up x = if floats.greater x (floats.float64 (int x)) then int x +ℤ ℤ.pos 1 else int x

  abbrev pub hundredth : F → F
  hundredth x = floats.divided x (floats.float64 (ℤ.pos 100))

  abbrev pub total_workload : PreScaleCalculation F → F
  total_workload calc =
      floats.times (floats.float64 calc.current_nodes) (hundredth calc.current_utilization)

  abbrev pub counted : F → F → ℤ → ℤ → ℤ → PreScaleCalculation F
  counted current target buffer_percent spot on_demand = record {
    current_nodes = spot +ℤ on_demand;
    current_spot_nodes = spot;
    current_on_demand_nodes = on_demand;
    current_utilization = current;
    target_utilization = target;
    nodes_needed = ℤ.pos 0;
    additional_spot_nodes = ℤ.pos 0;
    expected_utilization = floats.float64 (ℤ.pos 0);
    safety_buffer = hundredth (floats.float64 buffer_percent);
  }

  unfoldable pub with_required : PreScaleCalculation F → PreScaleCalculation F
  with_required calc =
      let needed =
        round_up (floats.divided (total_workload calc) (hundredth calc.target_utilization)) in
      record calc {
        nodes_needed = needed;
        additional_spot_nodes = needed -ℤ calc.current_spot_nodes;
      }

  unfoldable pub with_buffer : PreScaleCalculation F → PreScaleCalculation F
  with_buffer calc =
      let additional = round_up (
        floats.times (floats.float64 calc.additional_spot_nodes)
          (plus (floats.float64 (ℤ.pos 1)) calc.safety_buffer)) in
      if floats.greater calc.safety_buffer (floats.float64 (ℤ.pos 0))
        && ltb_ℤ (ℤ.pos 0) calc.additional_spot_nodes
      then record calc {
        nodes_needed = calc.current_spot_nodes +ℤ additional;
        additional_spot_nodes = additional;
      }
      else calc

  unfoldable pub with_one : PreScaleCalculation F → PreScaleCalculation F
  with_one calc =
      if ltb_ℤ calc.additional_spot_nodes (ℤ.pos 1)
        && floats.greater calc.current_utilization calc.target_utilization
      then record calc {
        nodes_needed = calc.current_spot_nodes +ℤ ℤ.pos 1;
        additional_spot_nodes = ℤ.pos 1;
      }
      else calc

  unfoldable pub with_expected : F → PreScaleCalculation F → PreScaleCalculation F
  with_expected workload calc =
      if ltb_ℤ (ℤ.pos 0) calc.nodes_needed
      then record calc {
        expected_utilization =
            floats.times (floats.divided workload (floats.float64 calc.nodes_needed))
              (floats.float64 (ℤ.pos 100));
      }
      else calc

  -- What is calculated once the two groups are described.
  unfoldable pub planned : PreScaleCalculation F → PreScaleCalculation F
  planned calc =
      if at_most calc.current_utilization calc.target_utilization
      then record calc {
        nodes_needed = calc.current_spot_nodes;
        additional_spot_nodes = ℤ.pos 0;
        expected_utilization = calc.current_utilization;
      }
      else with_expected (total_workload calc) (with_one (with_buffer (with_required calc)))

  module _ (server : Server) where
    abbrev pub size_of : String → String → M AutoScalingGroup
    size_of text asg_name =
        on_error (wrap text) (ask (describe_asg asg_name) server.groups) >>= described_group text

    unfoldable pub calculate_pre_scale_nodes :
        String → String → F → F → ℤ → M (PreScaleCalculation F)
    calculate_pre_scale_nodes spot_asg_name on_demand_asg_name current target buffer_percent = do
      spot ← size_of "failed to get spot ASG data" spot_asg_name
      on_demand ← size_of "failed to get on-demand ASG data" on_demand_asg_name
      return (
          planned (
            counted current target buffer_percent spot.desired_capacity on_demand.desired_capacity))

unfoldable pub scale_spot_asg : Server → String → ℤ → M (Unit {0})
scale_spot_asg server asg_name desired_capacity =
    on_error (wrap "failed to scale ASG")
      (ask (set_desired_capacity asg_name desired_capacity) server.done)
