-- ===== src/Examples/Settings.antt =====
-- The theorem on the configuration at a concrete environment.
use aws_node_termination_han.Common.{◌≡◌, refl, true, false, none, some, [], ◌∷◌, str_eq, lookup}
use aws_node_termination_han.Common.Int.{ℤ}
use aws_node_termination_han.Config.{Config, default_config}
use aws_node_termination_han.Config.Parse.{
  Environment, default_webhook_headers, default_webhook_template, get_env, get_int_env,
  get_bool_env, is_config_provided, bool_var, int_var, string_var, read_arguments, with_deprecated,
  with_log_format, checked_heartbeat, with_heartbeat, validated, parse_cli_args,
}
use aws_node_termination_han.Config.Parse.Valid.{IsValid, parse_cli_args-IsValid}
use aws_node_termination_han.Kube.{ok}

-- The variables of the environment that are set; an interval is given as a flag.
abbrev environment : Environment
environment = record {
  lookup_env = λ key.
      lookup key (("NODE_NAME", "node-a") ∷ ("ENABLE_SQS_TERMINATION_DRAINING", "true") ∷ []);
  bool_flags = [];
  int_flags = ("heartbeat-interval", ℤ.pos 60) ∷ [];
  text_flags = [];
  atoi = λ text. none;
  parse_bool = λ text. some true;
  to_lower = λ text. "info";
}

abbrev settings : Config
settings = record default_config {
  taint_node = false;
  exclude_from_load_balancers = false;
  log_level = "INFO";
  workers = 10;
  complete_lifecycle_action_delay_seconds = ℤ.negsuc 0;
  spot_guard_capacity_check_timeout = ℤ.pos 120;
  webhook_headers = default_webhook_headers;
  webhook_template = default_webhook_template;
  enable_sqs_termination_draining = true;
  heartbeat_interval = ℤ.pos 60;
  heartbeat_until = ℤ.pos 172800;
}

settings_parsed : parse_cli_args environment ≡ ok settings
unfolding parse_cli_args read_arguments bool_var int_var string_var get_env get_int_env get_bool_env
    with_deprecated is_config_provided validated with_log_format with_heartbeat checked_heartbeat
    lookup str_eq
settings_parsed = refl

parse_cli_args-IsValid_example : IsValid environment settings
parse_cli_args-IsValid_example = parse_cli_args-IsValid environment settings settings_parsed
