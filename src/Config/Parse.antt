-- ===== src/Config/Parse.antt =====
-- pkg/config/config.go: `ParseCliArgs`. The environment, the flags of the command line, which the package
-- flag has read, and the conversions of strconv are parameters. A panic ends it with an error, as its
-- deferred function does; warnings are left out.
pub mod Valid
use aws_node_termination_han.Common.{
  ℕ, String, Bool, true, false, ◌&&◌, ◌||◌, not, Option, none, some, List, [], ◌∷◌, ◌++◌,
  if◌then◌else◌, str_eq, lookup, is_some, any,
}
use aws_node_termination_han.Common.Int.{ℤ, pos_part, leb_ℤ, ltb_ℤ}
use aws_node_termination_han.Config.{Config}
use aws_node_termination_han.Kube.{Error, new, Result, ok, err}

pub record Environment : Type 0 where
  pub lookup_env : String → Option String
  pub bool_flags : List (String × Bool)
  pub int_flags : List (String × ℤ)
  pub text_flags : List (String × String)
  pub atoi : String → Option ℤ
  pub parse_bool : String → Option Bool
  pub to_lower : String → String

-- What `ParseCliArgs` has read, with the deprecated grace period beside the settings.
pub record Arguments : Type 0 where
  pub config : Config
  pub grace_period : ℤ

infixl 5 ◌>>=◌
abbrev pub ◌>>=◌ {ℓ κ} : {A : Type ℓ} {B : Type κ} → Result A → (A → Result B) → Result B
ok a >>= f = f a
err e >>= f = err e

abbrev pub or_default : {A : Type 0} → A → Option A → A
or_default fallback none = fallback
or_default fallback (some a) = a

abbrev pub nonempty_or : String → Option String → String
nonempty_or fallback none = fallback
nonempty_or fallback (some value) = if str_eq value "" then fallback else value

abbrev pub or_panic : {A : Type 0} → String → Option A → Result A
or_panic text none = err (new text)
or_panic text (some a) = ok a

-- `a < -1` and the like are tests of integers.
abbrev pub is_unset : ℤ → Bool
is_unset a = leb_ℤ a (ℤ.negsuc 0) && leb_ℤ (ℤ.negsuc 0) a

abbrev pub default_webhook_headers : String
default_webhook_headers = "{\"Content-type\":\"application/json\"}"

abbrev pub default_webhook_template : String
default_webhook_template =
    "{\"text\":\"[NTH][Instance Interruption] EventID: {{ .EventID }} - Kind: {{ .Kind }} - Instance: {{ .InstanceID }} - Node: {{ .NodeName }} - Description: {{ .Description }} - Start Time: {{ .StartTime }}\"}"

module _ (environment : Environment) where
  open environment use {lookup_env, bool_flags, int_flags, text_flags, atoi, parse_bool, to_lower}

  unfoldable pub get_env : String → String → String
  get_env key fallback = nonempty_or fallback (lookup_env key)

  unfoldable pub get_int_env : String → ℤ → Result ℤ
  get_int_env key fallback =
      let value = get_env key "" in
      if str_eq value "" then ok fallback else or_panic "Env Var must be an integer" (atoi value)

  unfoldable pub get_bool_env : String → Bool → Result Bool
  get_bool_env key fallback =
      let value = get_env key "" in
      if str_eq value ""
      then ok fallback
      else or_panic "Env Var must be either true or false" (parse_bool value)

  -- The flags that `flag.Visit` visits are those of the command line.
  unfoldable pub is_config_provided : String → String → Bool
  is_config_provided cli_arg_name env_var_name =
      not (str_eq (get_env env_var_name "") "")
      || (is_some (lookup cli_arg_name bool_flags)
          || (is_some (lookup cli_arg_name int_flags) || is_some (lookup cli_arg_name text_flags)))

  -- A flag with its default: the variable of the environment, or else what the code gives.
  unfoldable pub bool_var : String → String → Bool → Result Bool
  bool_var name key fallback =
      get_bool_env key fallback >>= λ default_. ok (or_default default_ (lookup name bool_flags))

  unfoldable pub int_var : String → String → ℤ → Result ℤ
  int_var name key fallback =
      get_int_env key fallback >>= λ default_. ok (or_default default_ (lookup name int_flags))

  unfoldable pub string_var : String → String → String → Result String
  string_var name key fallback = ok (or_default (get_env key fallback) (lookup name text_flags))

  -- The flags in their order. A negative count of workers, with which the program stops later when
  -- it makes the channel of workers, is taken for none.
  unfoldable pub read_arguments : Result Arguments
  read_arguments = do
    dry_run ← bool_var "dry-run" "DRY_RUN" false
    node_name ← string_var "node-name" "NODE_NAME" ""
    pod_name ← string_var "pod-name" "POD_NAME" ""
    pod_namespace ← string_var "pod-namespace" "NAMESPACE" ""
    metadata_url ← string_var "metadata-url" "INSTANCE_METADATA_URL" "http://169.254.169.254"
    ignore_daemon_sets ← bool_var "ignore-daemon-sets" "IGNORE_DAEMON_SETS" true
    delete_local_data ← bool_var "delete-local-data" "DELETE_LOCAL_DATA" true
    kubernetes_service_host ← string_var "kubernetes-service-host" "KUBERNETES_SERVICE_HOST" ""
    kubernetes_service_port ← string_var "kubernetes-service-port" "KUBERNETES_SERVICE_PORT" ""
    grace_period ← int_var "grace-period" "GRACE_PERIOD" (ℤ.negsuc 0)
    pod_termination_grace_period ←
        int_var "pod-termination-grace-period" "POD_TERMINATION_GRACE_PERIOD" (ℤ.negsuc 0)
    node_termination_grace_period ←
        int_var "node-termination-grace-period" "NODE_TERMINATION_GRACE_PERIOD" (ℤ.pos 120)
    webhook_url ← string_var "webhook-url" "WEBHOOK_URL" ""
    webhook_proxy ← string_var "webhook-proxy" "WEBHOOK_PROXY" ""
    webhook_headers ← string_var "webhook-headers" "WEBHOOK_HEADERS" default_webhook_headers
    webhook_template ← string_var "webhook-template" "WEBHOOK_TEMPLATE" default_webhook_template
    webhook_template_file ← string_var "webhook-template-file" "WEBHOOK_TEMPLATE_FILE" ""
    enable_scheduled_event_draining ←
        bool_var "enable-scheduled-event-draining" "ENABLE_SCHEDULED_EVENT_DRAINING" true
    enable_spot_interruption_draining ←
        bool_var "enable-spot-interruption-draining" "ENABLE_SPOT_INTERRUPTION_DRAINING" true
    enable_asg_lifecycle_draining ←
        bool_var "enable-asg-lifecycle-draining" "ENABLE_ASG_LIFECYCLE_DRAINING" false
    enable_sqs_termination_draining ←
        bool_var "enable-sqs-termination-draining" "ENABLE_SQS_TERMINATION_DRAINING" false
    enable_rebalance_monitoring ←
        bool_var "enable-rebalance-monitoring" "ENABLE_REBALANCE_MONITORING" false
    enable_rebalance_draining ←
        bool_var "enable-rebalance-draining" "ENABLE_REBALANCE_DRAINING" false
    check_asg_tag_before_draining ←
        bool_var "check-asg-tag-before-draining" "CHECK_ASG_TAG_BEFORE_DRAINING" true
    check_tag_before_draining ←
        bool_var "check-tag-before-draining" "CHECK_TAG_BEFORE_DRAINING" true
    managed_asg_tag ←
        string_var "managed-asg-tag" "MANAGED_ASG_TAG" "aws-node-termination-handler/managed"
    managed_tag ← string_var "managed-tag" "MANAGED_TAG" "aws-node-termination-handler/managed"
    metadata_tries ← int_var "metadata-tries" "METADATA_TRIES" (ℤ.pos 3)
    cordon_only ← bool_var "cordon-only" "CORDON_ONLY" false
    taint_node ← bool_var "taint-node" "TAINT_NODE" false
    taint_effect ← string_var "taint-effect" "TAINT_EFFECT" "NoSchedule"
    enable_out_of_service_taint ←
        bool_var "enable-out-of-service-taint" "ENABLE_OUT_OF_SERVICE_TAINT" false
    exclude_from_load_balancers ←
        bool_var "exclude-from-load-balancers" "EXCLUDE_FROM_LOAD_BALANCERS" false
    json_logging ← bool_var "json-logging" "JSON_LOGGING" false
    log_level ← string_var "log-level" "LOG_LEVEL" "INFO"
    log_format_version ← int_var "log-format-version" "LOG_FORMAT_VERSION" (ℤ.pos 1)
    uptime_from_file ← string_var "uptime-from-file" "UPTIME_FROM_FILE" ""
    enable_prometheus ← bool_var "enable-prometheus-server" "ENABLE_PROMETHEUS_SERVER" false
    prometheus_port ← int_var "prometheus-server-port" "PROMETHEUS_SERVER_PORT" (ℤ.pos 9092)
    enable_probes ← bool_var "enable-probes-server" "ENABLE_PROBES_SERVER" false
    probes_port ← int_var "probes-server-port" "PROBES_SERVER_PORT" (ℤ.pos 8080)
    probes_endpoint ← string_var "probes-server-endpoint" "PROBES_SERVER_ENDPOINT" "/healthz"
    emit_kubernetes_events ← bool_var "emit-kubernetes-events" "EMIT_KUBERNETES_EVENTS" false
    kubernetes_events_extra_annotations ←
        string_var "kubernetes-events-extra-annotations" "KUBERNETES_EVENTS_EXTRA_ANNOTATIONS" ""
    aws_region ← string_var "aws-region" "AWS_REGION" ""
    aws_endpoint ← string_var "aws-endpoint" "AWS_ENDPOINT" ""
    queue_url ← string_var "queue-url" "QUEUE_URL" ""
    workers ← int_var "workers" "WORKERS" (ℤ.pos 10)
    use_provider_id ← bool_var "use-provider-id" "USE_PROVIDER_ID" false
    complete_lifecycle_action_delay_seconds ←
        int_var "complete-lifecycle-action-delay-seconds" "COMPLETE_LIFECYCLE_ACTION_DELAY_SECONDS"
          (ℤ.negsuc 0)
    delete_sqs_msg_if_node_not_found ←
        bool_var "delete-sqs-msg-if-node-not-found" "DELETE_SQS_MSG_IF_NODE_NOT_FOUND" false
    use_apiserver_cache_to_list_pods ← bool_var "use-apiserver-cache" "USE_APISERVER_CACHE" false
    heartbeat_interval ← int_var "heartbeat-interval" "HEARTBEAT_INTERVAL" (ℤ.negsuc 0)
    heartbeat_until ← int_var "heartbeat-until" "HEARTBEAT_UNTIL" (ℤ.negsuc 0)
    enable_spot_guard ← bool_var "enable-spot-guard" "ENABLE_SPOT_GUARD" false
    spot_asg_name ← string_var "spot-asg-name" "SPOT_ASG_NAME" ""
    on_demand_asg_name ← string_var "on-demand-asg-name" "ON_DEMAND_ASG_NAME" ""
    spot_guard_scale_timeout ←
        int_var "spot-guard-scale-timeout" "SPOT_GUARD_SCALE_TIMEOUT" (ℤ.pos 120)
    spot_guard_capacity_check_timeout ←
        int_var "spot-guard-capacity-check-timeout" "SPOT_GUARD_CAPACITY_CHECK_TIMEOUT" (ℤ.pos 120)
    spot_guard_check_interval ←
        int_var "spot-guard-check-interval" "SPOT_GUARD_CHECK_INTERVAL" (ℤ.pos 30)
    spot_guard_minimum_wait_duration ←
        int_var "spot-guard-minimum-wait-duration" "SPOT_GUARD_MINIMUM_WAIT_DURATION" (ℤ.pos 600)
    spot_guard_spot_stability_duration ←
        int_var "spot-guard-spot-stability-duration" "SPOT_GUARD_SPOT_STABILITY_DURATION"
          (ℤ.pos 120)
    spot_guard_max_cluster_utilization ←
        int_var "spot-guard-max-cluster-utilization" "SPOT_GUARD_MAX_CLUSTER_UTILIZATION" (ℤ.pos 75)
    spot_guard_pod_eviction_timeout ←
        int_var "spot-guard-pod-eviction-timeout" "SPOT_GUARD_POD_EVICTION_TIMEOUT" (ℤ.pos 300)
    spot_guard_cleanup_interval ←
        int_var "spot-guard-cleanup-interval" "SPOT_GUARD_CLEANUP_INTERVAL" (ℤ.pos 3600)
    spot_guard_max_event_age ←
        int_var "spot-guard-max-event-age" "SPOT_GUARD_MAX_EVENT_AGE" (ℤ.pos 24)
    spot_guard_pod_migration_buffer ←
        int_var "spot-guard-pod-migration-buffer" "SPOT_GUARD_POD_MIGRATION_BUFFER" (ℤ.pos 180)
    enable_pre_scale ← bool_var "enable-pre-scale" "ENABLE_PRE_SCALE" false
    pre_scale_timeout_seconds ←
        int_var "pre-scale-timeout-seconds" "PRE_SCALE_TIMEOUT_SECONDS" (ℤ.pos 300)
    pre_scale_target_utilization ←
        int_var "pre-scale-target-utilization" "PRE_SCALE_TARGET_UTILIZATION" (ℤ.pos 65)
    pre_scale_safety_buffer_percent ←
        int_var "pre-scale-safety-buffer-percent" "PRE_SCALE_SAFETY_BUFFER_PERCENT" (ℤ.pos 10)
    pre_scale_failure_fallback ←
        string_var "pre-scale-failure-fallback" "PRE_SCALE_FAILURE_FALLBACK" "increase_threshold"
    pre_scale_fallback_threshold ←
        int_var "pre-scale-fallback-threshold" "PRE_SCALE_FALLBACK_THRESHOLD" (ℤ.pos 95)
    pre_scale_retry_backoff_seconds ←
        int_var "pre-scale-retry-backoff-seconds" "PRE_SCALE_RETRY_BACKOFF_SECONDS" (ℤ.pos 600)
    ok (record {
      grace_period = grace_period;
      config = record {
        dry_run = dry_run;
        node_name = node_name;
        pod_name = pod_name;
        pod_namespace = pod_namespace;
        metadata_url = metadata_url;
        ignore_daemon_sets = ignore_daemon_sets;
        delete_local_data = delete_local_data;
        kubernetes_service_host = kubernetes_service_host;
        kubernetes_service_port = kubernetes_service_port;
        pod_termination_grace_period = pod_termination_grace_period;
        node_termination_grace_period = node_termination_grace_period;
        webhook_url = webhook_url;
        webhook_proxy = webhook_proxy;
        webhook_headers = webhook_headers;
        webhook_template = webhook_template;
        webhook_template_file = webhook_template_file;
        enable_scheduled_event_draining = enable_scheduled_event_draining;
        enable_spot_interruption_draining = enable_spot_interruption_draining;
        enable_asg_lifecycle_draining = enable_asg_lifecycle_draining;
        enable_sqs_termination_draining = enable_sqs_termination_draining;
        enable_rebalance_monitoring = enable_rebalance_monitoring;
        enable_rebalance_draining = enable_rebalance_draining;
        check_asg_tag_before_draining = check_asg_tag_before_draining;
        check_tag_before_draining = check_tag_before_draining;
        managed_asg_tag = managed_asg_tag;
        managed_tag = managed_tag;
        metadata_tries = metadata_tries;
        cordon_only = cordon_only;
        taint_node = taint_node;
        taint_effect = taint_effect;
        enable_out_of_service_taint = enable_out_of_service_taint;
        exclude_from_load_balancers = exclude_from_load_balancers;
        json_logging = json_logging;
        log_level = log_level;
        log_format_version = log_format_version;
        uptime_from_file = uptime_from_file;
        enable_prometheus = enable_prometheus;
        prometheus_port = prometheus_port;
        enable_probes = enable_probes;
        probes_port = probes_port;
        probes_endpoint = probes_endpoint;
        emit_kubernetes_events = emit_kubernetes_events;
        kubernetes_events_extra_annotations = kubernetes_events_extra_annotations;
        aws_region = aws_region;
        aws_endpoint = aws_endpoint;
        queue_url = queue_url;
        workers = pos_part workers;
        use_provider_id = use_provider_id;
        complete_lifecycle_action_delay_seconds = complete_lifecycle_action_delay_seconds;
        delete_sqs_msg_if_node_not_found = delete_sqs_msg_if_node_not_found;
        use_apiserver_cache_to_list_pods = use_apiserver_cache_to_list_pods;
        heartbeat_interval = heartbeat_interval;
        heartbeat_until = heartbeat_until;
        enable_spot_guard = enable_spot_guard;
        spot_asg_name = spot_asg_name;
        on_demand_asg_name = on_demand_asg_name;
        spot_guard_scale_timeout = spot_guard_scale_timeout;
        spot_guard_capacity_check_timeout = spot_guard_capacity_check_timeout;
        spot_guard_check_interval = spot_guard_check_interval;
        spot_guard_minimum_wait_duration = spot_guard_minimum_wait_duration;
        spot_guard_spot_stability_duration = spot_guard_spot_stability_duration;
        spot_guard_max_cluster_utilization = spot_guard_max_cluster_utilization;
        spot_guard_pod_eviction_timeout = spot_guard_pod_eviction_timeout;
        spot_guard_cleanup_interval = spot_guard_cleanup_interval;
        spot_guard_max_event_age = spot_guard_max_event_age;
        spot_guard_pod_migration_buffer = spot_guard_pod_migration_buffer;
        enable_pre_scale = enable_pre_scale;
        pre_scale_timeout_seconds = pre_scale_timeout_seconds;
        pre_scale_target_utilization = pre_scale_target_utilization;
        pre_scale_safety_buffer_percent = pre_scale_safety_buffer_percent;
        pre_scale_failure_fallback = pre_scale_failure_fallback;
        pre_scale_fallback_threshold = pre_scale_fallback_threshold;
        pre_scale_retry_backoff_seconds = pre_scale_retry_backoff_seconds;
      };
    })

  -- The deprecated arguments count if the newer ones are not given.
  abbrev pub deprecated_counts : String → String → String → String → Bool
  deprecated_counts newer newer_key older older_key =
      if is_config_provided newer newer_key && is_config_provided older older_key
      then false
      else is_config_provided older older_key

  unfoldable pub with_deprecated : Arguments → Config
  with_deprecated a = record (a.config) {
    pod_termination_grace_period =
        if deprecated_counts "pod-termination-grace-period" "POD_TERMINATION_GRACE_PERIOD"
          "grace-period" "GRACE_PERIOD"
        then a.grace_period
        else a.config.pod_termination_grace_period;
    managed_tag =
        if deprecated_counts "managed-tag" "MANAGED_TAG" "managed-asg-tag" "MANAGED_ASG_TAG"
        then a.config.managed_asg_tag
        else a.config.managed_tag;
    check_tag_before_draining =
        if deprecated_counts "check-tag-before-draining" "CHECK_TAG_BEFORE_DRAINING"
          "check-asg-tag-before-draining" "CHECK_ASG_TAG_BEFORE_DRAINING"
        then a.config.check_asg_tag_before_draining
        else a.config.check_tag_before_draining;
  }

  abbrev pub is_log_level : String → Bool
  is_log_level level = any (λ l. str_eq l (to_lower level)) ("info" ∷ "debug" ∷ "error" ∷ [])

  unfoldable pub with_log_format : Config → Config
  with_log_format c =
      let raised = if ltb_ℤ c.log_format_version (ℤ.pos 1) then ℤ.pos 1 else c.log_format_version in
      record c { log_format_version = if ltb_ℤ (ℤ.pos 2) raised then ℤ.pos 2 else raised }

  abbrev pub is_outside : ℤ → ℤ → ℤ → Bool
  is_outside low high a = ltb_ℤ a low || ltb_ℤ high a

  -- The checks of the two heartbeat settings, in their order; the time until which, if they pass.
  unfoldable pub checked_heartbeat : Bool → ℤ → ℤ → Result ℤ
  checked_heartbeat sqs interval until =
      let has_interval = not (is_unset interval) in
      let has_until = not (is_unset until) in
      let or_longest = if has_interval && not has_until then ℤ.pos 172800 else until in
      if not sqs && (has_interval || has_until)
      then err
          (new "currently using IMDS mode. Heartbeat is only supported for Queue Processor mode")
      else if has_interval && is_outside (ℤ.pos 30) (ℤ.pos 3600) interval
      then err (new "invalid heartbeat-interval passed")
      else if has_until && is_outside (ℤ.pos 60) (ℤ.pos 172800) until
      then err (new "invalid heartbeat-until passed")
      else if not has_interval && has_until
      then err (new "heartbeat-interval is required when heartbeat-until is set")
      else if has_interval && (not (is_unset or_longest) && ltb_ℤ or_longest interval)
      then err (new "heartbeat-interval should be less than or equal to heartbeat-until")
      else ok or_longest

  unfoldable pub with_heartbeat : Config → Result Config
  with_heartbeat c =
      checked_heartbeat c.enable_sqs_termination_draining c.heartbeat_interval c.heartbeat_until
      >>= λ until. ok (record c { heartbeat_until = until })

  unfoldable pub validated : Config → Result Config
  validated c =
      if not (is_log_level c.log_level)
      then err (new "invalid log-level passed")
      else if str_eq c.node_name ""
      then err (new "You must provide a node-name to the CLI or NODE_NAME environment variable.")
      else with_heartbeat (with_log_format c)

  unfoldable pub parse_cli_args : Result Config
  parse_cli_args = read_arguments >>= λ a. validated (with_deprecated a)
