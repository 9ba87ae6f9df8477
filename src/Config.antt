-- ===== src/Config.antt =====
-- pkg/config/config.go: the settings. An `int` setting is a signed integer; a count of goroutines is a
-- number.
pub mod Parse
use aws_node_termination_han.Common.{ℕ, String, Bool}
use aws_node_termination_han.Common.Int.{ℤ}

pub record Config : Type 0 where
  pub dry_run : Bool
  pub node_name : String
  pub pod_name : String
  pub pod_namespace : String
  pub metadata_url : String
  pub ignore_daemon_sets : Bool
  pub delete_local_data : Bool
  pub kubernetes_service_host : String
  pub kubernetes_service_port : String
  pub pod_termination_grace_period : ℤ
  pub node_termination_grace_period : ℤ
  pub webhook_url : String
  pub webhook_proxy : String
  pub webhook_headers : String
  pub webhook_template : String
  pub webhook_template_file : String
  pub enable_scheduled_event_draining : Bool
  pub enable_spot_interruption_draining : Bool
  pub enable_asg_lifecycle_draining : Bool
  pub enable_sqs_termination_draining : Bool
  pub enable_rebalance_monitoring : Bool
  pub enable_rebalance_draining : Bool
  pub check_asg_tag_before_draining : Bool
  pub check_tag_before_draining : Bool
  pub managed_asg_tag : String
  pub managed_tag : String
  pub metadata_tries : ℤ
  pub cordon_only : Bool
  pub taint_node : Bool
  pub taint_effect : String
  pub enable_out_of_service_taint : Bool
  pub exclude_from_load_balancers : Bool
  pub json_logging : Bool
  pub log_level : String
  pub log_format_version : ℤ
  pub uptime_from_file : String
  pub enable_prometheus : Bool
  pub prometheus_port : ℤ
  pub enable_probes : Bool
  pub probes_port : ℤ
  pub probes_endpoint : String
  pub emit_kubernetes_events : Bool
  pub kubernetes_events_extra_annotations : String
  pub aws_region : String
  pub aws_endpoint : String
  pub queue_url : String
  pub workers : ℕ
  pub use_provider_id : Bool
  pub complete_lifecycle_action_delay_seconds : ℤ
  pub delete_sqs_msg_if_node_not_found : Bool
  pub use_apiserver_cache_to_list_pods : Bool
  pub heartbeat_interval : ℤ
  pub heartbeat_until : ℤ
  pub enable_spot_guard : Bool
  pub spot_asg_name : String
  pub on_demand_asg_name : String
  pub spot_guard_scale_timeout : ℤ
  pub spot_guard_capacity_check_timeout : ℤ
  pub spot_guard_check_interval : ℤ
  pub spot_guard_minimum_wait_duration : ℤ
  pub spot_guard_spot_stability_duration : ℤ
  pub spot_guard_max_cluster_utilization : ℤ
  pub spot_guard_pod_eviction_timeout : ℤ
  pub spot_guard_cleanup_interval : ℤ
  pub spot_guard_max_event_age : ℤ
  pub spot_guard_pod_migration_buffer : ℤ
  pub enable_pre_scale : Bool
  pub pre_scale_timeout_seconds : ℤ
  pub pre_scale_target_utilization : ℤ
  pub pre_scale_safety_buffer_percent : ℤ
  pub pre_scale_failure_fallback : String
  pub pre_scale_fallback_threshold : ℤ
  pub pre_scale_retry_backoff_seconds : ℤ

-- The settings that the examples start from.
abbrev pub default_config : Config
default_config = record {
  dry_run = Bool.false;
  node_name = "node-a";
  pod_name = "";
  pod_namespace = "";
  metadata_url = "http://169.254.169.254";
  ignore_daemon_sets = Bool.true;
  delete_local_data = Bool.true;
  kubernetes_service_host = "";
  kubernetes_service_port = "";
  pod_termination_grace_period = ℤ.negsuc 0;
  node_termination_grace_period = ℤ.pos 120;
  webhook_url = "";
  webhook_proxy = "";
  webhook_headers = "";
  webhook_template = "";
  webhook_template_file = "";
  enable_scheduled_event_draining = Bool.true;
  enable_spot_interruption_draining = Bool.true;
  enable_asg_lifecycle_draining = Bool.false;
  enable_sqs_termination_draining = Bool.false;
  enable_rebalance_monitoring = Bool.false;
  enable_rebalance_draining = Bool.false;
  check_asg_tag_before_draining = Bool.true;
  check_tag_before_draining = Bool.true;
  managed_asg_tag = "aws-node-termination-handler/managed";
  managed_tag = "aws-node-termination-handler/managed";
  metadata_tries = ℤ.pos 3;
  cordon_only = Bool.false;
  taint_node = Bool.true;
  taint_effect = "NoSchedule";
  enable_out_of_service_taint = Bool.false;
  exclude_from_load_balancers = Bool.true;
  json_logging = Bool.false;
  log_level = "info";
  log_format_version = ℤ.pos 1;
  uptime_from_file = "";
  enable_prometheus = Bool.false;
  prometheus_port = ℤ.pos 9092;
  enable_probes = Bool.false;
  probes_port = ℤ.pos 8080;
  probes_endpoint = "/healthz";
  emit_kubernetes_events = Bool.false;
  kubernetes_events_extra_annotations = "";
  aws_region = "";
  aws_endpoint = "";
  queue_url = "";
  workers = 2;
  use_provider_id = Bool.false;
  complete_lifecycle_action_delay_seconds = ℤ.pos 0;
  delete_sqs_msg_if_node_not_found = Bool.false;
  use_apiserver_cache_to_list_pods = Bool.false;
  heartbeat_interval = ℤ.negsuc 0;
  heartbeat_until = ℤ.negsuc 0;
  enable_spot_guard = Bool.false;
  spot_asg_name = "";
  on_demand_asg_name = "";
  spot_guard_scale_timeout = ℤ.pos 120;
  spot_guard_capacity_check_timeout = ℤ.pos 30;
  spot_guard_check_interval = ℤ.pos 30;
  spot_guard_minimum_wait_duration = ℤ.pos 600;
  spot_guard_spot_stability_duration = ℤ.pos 120;
  spot_guard_max_cluster_utilization = ℤ.pos 75;
  spot_guard_pod_eviction_timeout = ℤ.pos 300;
  spot_guard_cleanup_interval = ℤ.pos 3600;
  spot_guard_max_event_age = ℤ.pos 24;
  spot_guard_pod_migration_buffer = ℤ.pos 180;
  enable_pre_scale = Bool.false;
  pre_scale_timeout_seconds = ℤ.pos 300;
  pre_scale_target_utilization = ℤ.pos 65;
  pre_scale_safety_buffer_percent = ℤ.pos 10;
  pre_scale_failure_fallback = "increase_threshold";
  pre_scale_fallback_threshold = ℤ.pos 95;
  pre_scale_retry_backoff_seconds = ℤ.pos 600;
}
