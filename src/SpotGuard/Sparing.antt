-- ===== src/SpotGuard/Sparing.antt =====
-- The scaling up of Spot Guard leaves nodes and pods alone.
use aws_node_termination_han.Common.{ℕ, refl}
use aws_node_termination_han.Config.{Config}
use aws_node_termination_han.Kube.{
  Request, describe_asg, set_desired_capacity, describe_activities, await_tick, read_clock, Server,
}
use aws_node_termination_han.Kube.Trace.{Sends, Extends-map, SparesNodes, IsGentle}
use aws_node_termination_han.Std.{Std}
use aws_node_termination_han.SpotGuard.Raising.{IsRaise, scale_up_with_fallback-IsRaise}
use aws_node_termination_han.SpotGuard.ScaleUp.{guarded}

raise-SparesNodes : (server : Server) (q : Request) → IsRaise server q → SparesNodes q
raise-SparesNodes server (set_desired_capacity asg_name capacity) r = refl
raise-SparesNodes server (describe_asg asg_name) r = refl
raise-SparesNodes server (describe_activities asg_name) r = refl
raise-SparesNodes server (await_tick d) r = refl
raise-SparesNodes server read_clock r = refl
raise-SparesNodes server q r = absurd r

raise-IsGentle : (server : Server) (q : Request) → IsRaise server q → IsGentle q
raise-IsGentle server (set_desired_capacity asg_name capacity) r = refl
raise-IsGentle server (describe_asg asg_name) r = refl
raise-IsGentle server (describe_activities asg_name) r = refl
raise-IsGentle server (await_tick d) r = refl
raise-IsGentle server read_clock r = refl
raise-IsGentle server q r = absurd r

module _ (std : Std) (server : Server) (n : Config) (fuel : ℕ) where
  pub scale_up-SparesNodes : Sends SparesNodes ((guarded std server n fuel).scale_up)
  scale_up-SparesNodes h =
      Extends-map (raise-SparesNodes server) (scale_up_with_fallback-IsRaise std server n fuel h)

  pub scale_up-IsGentle : Sends IsGentle ((guarded std server n fuel).scale_up)
  scale_up-IsGentle h =
      Extends-map (raise-IsGentle server) (scale_up_with_fallback-IsRaise std server n fuel h)
