-- ===== src/Config/Reading.antt =====
-- What Load of internal/config/config.go reads from the environment: for each field the variable, its
-- default and how its value is parsed.
use container_provisioner_k.Base.{
  ◌*◌, ◌^◌, String, true, false, some, List, [], ◌∷◌, string_eq, ◌≡◌, refl, All,
}
use container_provisioner_k.Base.Int.{pos}
use container_provisioner_k.Base.Text.Numbers.{parse_int64, parse_bool}
use container_provisioner_k.Config.{Config, finite}
use container_provisioner_k.Config.Load.{
  ParseLibrary, Env, get_env_int, get_env_bool, get_env_float64, get_duration, gather, read_config,
  second,
}
use container_provisioner_k.Config.Variable.{
  Reads, get_env-Reads, Reads-get_env, get_parsed-Reads, Reads-get_parsed,
}

module _ (lib : ParseLibrary) (env : Env) where
  pub record IsRead (cfg : Config) : Type 0 where
    pub app_env : Reads some env "APP_ENV" "local" cfg.app_env
    pub http_addr : Reads some env "HTTP_ADDR" ":8081" cfg.http_addr
    pub grpc_addr : Reads some env "GRPC_ADDR" ":9090" cfg.grpc_addr
    pub grpc_enabled : Reads parse_bool env "GRPC_ENABLED" true cfg.grpc_enabled
    pub grpc_reflection_enabled :
        Reads parse_bool env "GRPC_REFLECTION_ENABLED" true cfg.grpc_reflection_enabled
    pub shutdown_timeout :
        Reads lib.parse_duration env "SHUTDOWN_TIMEOUT" (pos (10 * second)) cfg.shutdown_timeout
    pub dir : Reads some env "LOG_DIR" "logs" cfg.logging.dir
    pub file_prefix : Reads some env "LOG_FILE_PREFIX" "app" cfg.logging.file_prefix
    pub max_body_bytes :
        Reads parse_int64 env "LOG_MAX_BODY_BYTES" (pos (1024 * 1024)) cfg.logging.max_body_bytes
    pub api_key_enabled : Reads parse_bool env "API_KEY_ENABLED" true cfg.api_key.enabled
    pub api_key_value : Reads some env "API_KEY" "" cfg.api_key.value
    pub namespace : Reads some env "STACK_NAMESPACE" "stacks" cfg.stack.namespace
    pub stack_ttl :
        Reads lib.parse_duration env "STACK_TTL" (pos (2 * 3600 * second)) cfg.stack.stack_ttl
    pub scheduler_interval :
        Reads lib.parse_duration env "STACK_SCHEDULER_INTERVAL"
          (pos (10 * second))
          cfg.stack.scheduler_interval
    pub node_port_min :
        Reads parse_int64 env "STACK_NODEPORT_MIN" (pos 31001) cfg.stack.node_port_min
    pub node_port_max :
        Reads parse_int64 env "STACK_NODEPORT_MAX" (pos 32767) cfg.stack.node_port_max
    pub port_lock_ttl :
        Reads lib.parse_duration env "STACK_PORT_LOCK_TTL"
          (pos (30 * second))
          cfg.stack.port_lock_ttl
    pub leader_enabled :
        Reads parse_bool env "LEADER_ELECTION_ENABLED" false cfg.stack.leader_election.enabled
    pub leader_namespace :
        Reads some env "LEADER_ELECTION_NAMESPACE" "backend" cfg.stack.leader_election.namespace
    pub lease_name :
        Reads some env "LEADER_ELECTION_NAME" "container-provisioner"
          cfg.stack.leader_election.lease_name
    pub lease_duration :
        Reads lib.parse_duration env "LEADER_ELECTION_LEASE_DURATION"
          (pos (15 * second))
          cfg.stack.leader_election.lease_duration
    pub renew_deadline :
        Reads lib.parse_duration env "LEADER_ELECTION_RENEW_DEADLINE"
          (pos (10 * second))
          cfg.stack.leader_election.renew_deadline
    pub retry_period :
        Reads lib.parse_duration env "LEADER_ELECTION_RETRY_PERIOD"
          (pos (2 * second))
          cfg.stack.leader_election.retry_period
    pub dynamo_table_name :
        Reads some env "DDB_STACK_TABLE" "smctf-stacks" cfg.stack.dynamo_table_name
    pub aws_region : Reads some env "AWS_REGION" "us-east-1" cfg.stack.aws_region
    pub aws_endpoint : Reads some env "AWS_ENDPOINT" "" cfg.stack.aws_endpoint
    pub dynamo_consistent_read :
        Reads parse_bool env "DDB_CONSISTENT_READ" true cfg.stack.dynamo_consistent_read
    pub use_mock_repository :
        Reads parse_bool env "DDB_USE_MOCK" false cfg.stack.use_mock_repository
    pub kube_config_path : Reads some env "K8S_KUBECONFIG" "" cfg.stack.kube_config_path
    pub kube_context : Reads some env "K8S_CONTEXT" "" cfg.stack.kube_context
    pub k8s_qps :
        Reads lib.parse_float env "K8S_CLIENT_QPS" (finite (pos (20 * 2 ^ 1074))) cfg.stack.k8s_qps
    pub k8s_burst : Reads parse_int64 env "K8S_CLIENT_BURST" (pos 40) cfg.stack.k8s_burst
    pub scheduling_timeout :
        Reads lib.parse_duration env "STACK_SCHEDULING_TIMEOUT"
          (pos (20 * second))
          cfg.stack.scheduling_timeout
    pub use_mock_kubernetes :
        Reads parse_bool env "K8S_USE_MOCK" false cfg.stack.use_mock_kubernetes
    pub require_ingress_np :
        Reads parse_bool env "STACK_REQUIRE_INGRESS_NETWORK_POLICY" true
          cfg.stack.require_ingress_np
    pub stack_node_role : Reads some env "STACK_NODE_ROLE" "stack" cfg.stack.stack_node_role

gather-nil : (parts : List (List String)) → gather parts ≡ [] → All (λ m. m ≡ []) parts
unfolding gather
gather-nil [] h = tt
gather-nil ([] ∷ parts) h = (refl, gather-nil parts h)
gather-nil ((m ∷ ms) ∷ parts) h = absurd (cc)

module _ (lib : ParseLibrary) (env : Env) where
  -- Without a message every variable that is set has been parsed.
  pub read_config-IsRead : (read_config lib env).1 ≡ [] → IsRead lib env (read_config lib env).0
  unfolding read_config
  read_config-IsRead h =
      let (
        m0,
        (
          m1,
          (
            m2,
            (
              m3,
              (
                m4,
                (
                  m5,
                  (
                    m6,
                    (
                      m7,
                      (
                        m8,
                        (
                          m9,
                          (
                            m10,
                            (m11, (m12, (m13, (m14, (m15, (m16, (m17, (m18, (m19, (m20, _)))))))))),
                          ),
                        ),
                      ),
                    ),
                  ),
                ),
              ),
            ),
          ),
        ),
      ) =
        gather-nil
          ((get_duration lib env "SHUTDOWN_TIMEOUT" (pos (10 * second))).1
            ∷ (get_env_int env "LOG_MAX_BODY_BYTES" (pos (1024 * 1024))).1
            ∷ (get_env_bool env "API_KEY_ENABLED" true).1
            ∷ (get_env_bool env "GRPC_ENABLED" true).1
            ∷ (get_env_bool env "GRPC_REFLECTION_ENABLED" true).1
            ∷ (get_duration lib env "STACK_TTL" (pos (2 * 3600 * second))).1
            ∷ (get_duration lib env "STACK_SCHEDULER_INTERVAL" (pos (10 * second))).1
            ∷ (get_env_int env "STACK_NODEPORT_MIN" (pos 31001)).1
            ∷ (get_env_int env "STACK_NODEPORT_MAX" (pos 32767)).1
            ∷ (get_duration lib env "STACK_PORT_LOCK_TTL" (pos (30 * second))).1
            ∷ (get_env_bool env "LEADER_ELECTION_ENABLED" false).1
            ∷ (get_duration lib env "LEADER_ELECTION_LEASE_DURATION" (pos (15 * second))).1
            ∷ (get_duration lib env "LEADER_ELECTION_RENEW_DEADLINE" (pos (10 * second))).1
            ∷ (get_duration lib env "LEADER_ELECTION_RETRY_PERIOD" (pos (2 * second))).1
            ∷ (get_env_bool env "K8S_USE_MOCK" false).1
            ∷ (get_env_bool env "DDB_USE_MOCK" false).1
            ∷ (get_env_bool env "DDB_CONSISTENT_READ" true).1
            ∷ (get_env_float64 lib env "K8S_CLIENT_QPS" (finite (pos (20 * 2 ^ 1074)))).1
            ∷ (get_env_int env "K8S_CLIENT_BURST" (pos 40)).1
            ∷ (get_duration lib env "STACK_SCHEDULING_TIMEOUT" (pos (20 * second))).1
            ∷ (get_env_bool env "STACK_REQUIRE_INGRESS_NETWORK_POLICY" true).1
            ∷ [])
          h in
      record {
        app_env = get_env-Reads env "APP_ENV" "local";
        http_addr = get_env-Reads env "HTTP_ADDR" ":8081";
        grpc_addr = get_env-Reads env "GRPC_ADDR" ":9090";
        grpc_enabled = get_parsed-Reads parse_bool " must be a boolean" env "GRPC_ENABLED" true m3;
        grpc_reflection_enabled =
            get_parsed-Reads parse_bool " must be a boolean" env "GRPC_REFLECTION_ENABLED" true m4;
        shutdown_timeout =
            get_parsed-Reads lib.parse_duration " must be a duration" env "SHUTDOWN_TIMEOUT"
              (pos (10 * second)) m0;
        dir = get_env-Reads env "LOG_DIR" "logs";
        file_prefix = get_env-Reads env "LOG_FILE_PREFIX" "app";
        max_body_bytes =
            get_parsed-Reads parse_int64 " must be an integer" env "LOG_MAX_BODY_BYTES"
              (pos (1024 * 1024)) m1;
        api_key_enabled =
            get_parsed-Reads parse_bool " must be a boolean" env "API_KEY_ENABLED" true m2;
        api_key_value = get_env-Reads env "API_KEY" "";
        namespace = get_env-Reads env "STACK_NAMESPACE" "stacks";
        stack_ttl =
            get_parsed-Reads lib.parse_duration " must be a duration" env "STACK_TTL"
              (pos (2 * 3600 * second)) m5;
        scheduler_interval =
            get_parsed-Reads lib.parse_duration " must be a duration" env "STACK_SCHEDULER_INTERVAL"
              (pos (10 * second)) m6;
        node_port_min =
            get_parsed-Reads parse_int64 " must be an integer" env "STACK_NODEPORT_MIN" (pos 31001)
              m7;
        node_port_max =
            get_parsed-Reads parse_int64 " must be an integer" env "STACK_NODEPORT_MAX" (pos 32767)
              m8;
        port_lock_ttl =
            get_parsed-Reads lib.parse_duration " must be a duration" env "STACK_PORT_LOCK_TTL"
              (pos (30 * second)) m9;
        leader_enabled =
            get_parsed-Reads parse_bool " must be a boolean" env "LEADER_ELECTION_ENABLED" false
              m10;
        leader_namespace = get_env-Reads env "LEADER_ELECTION_NAMESPACE" "backend";
        lease_name = get_env-Reads env "LEADER_ELECTION_NAME" "container-provisioner";
        lease_duration =
            get_parsed-Reads lib.parse_duration " must be a duration" env
              "LEADER_ELECTION_LEASE_DURATION" (pos (15 * second)) m11;
        renew_deadline =
            get_parsed-Reads lib.parse_duration " must be a duration" env
              "LEADER_ELECTION_RENEW_DEADLINE" (pos (10 * second)) m12;
        retry_period =
            get_parsed-Reads lib.parse_duration " must be a duration" env
              "LEADER_ELECTION_RETRY_PERIOD" (pos (2 * second)) m13;
        dynamo_table_name = get_env-Reads env "DDB_STACK_TABLE" "smctf-stacks";
        aws_region = get_env-Reads env "AWS_REGION" "us-east-1";
        aws_endpoint = get_env-Reads env "AWS_ENDPOINT" "";
        dynamo_consistent_read =
            get_parsed-Reads parse_bool " must be a boolean" env "DDB_CONSISTENT_READ" true m16;
        use_mock_repository =
            get_parsed-Reads parse_bool " must be a boolean" env "DDB_USE_MOCK" false m15;
        kube_config_path = get_env-Reads env "K8S_KUBECONFIG" "";
        kube_context = get_env-Reads env "K8S_CONTEXT" "";
        k8s_qps =
            get_parsed-Reads lib.parse_float " must be a number" env "K8S_CLIENT_QPS"
              (finite (pos (20 * 2 ^ 1074))) m17;
        k8s_burst =
            get_parsed-Reads parse_int64 " must be an integer" env "K8S_CLIENT_BURST" (pos 40) m18;
        scheduling_timeout =
            get_parsed-Reads lib.parse_duration " must be a duration" env "STACK_SCHEDULING_TIMEOUT"
              (pos (20 * second)) m19;
        use_mock_kubernetes =
            get_parsed-Reads parse_bool " must be a boolean" env "K8S_USE_MOCK" false m14;
        require_ingress_np =
            get_parsed-Reads parse_bool " must be a boolean" env
              "STACK_REQUIRE_INGRESS_NETWORK_POLICY" true m20;
        stack_node_role = get_env-Reads env "STACK_NODE_ROLE" "stack";
      }

  pub IsRead-read_config : (cfg : Config) → IsRead lib env cfg → read_config lib env ≡ (cfg, [])
  unfolding read_config gather
  IsRead-read_config cfg v =
      rw
        (
          Reads-get_env env "APP_ENV" "local" v.app_env,
          Reads-get_env env "HTTP_ADDR" ":8081" v.http_addr,
          Reads-get_env env "GRPC_ADDR" ":9090" v.grpc_addr,
          Reads-get_parsed parse_bool " must be a boolean" env "GRPC_ENABLED" true v.grpc_enabled,
          Reads-get_parsed parse_bool " must be a boolean" env "GRPC_REFLECTION_ENABLED" true
              v.grpc_reflection_enabled,
          Reads-get_parsed lib.parse_duration " must be a duration" env "SHUTDOWN_TIMEOUT"
              (pos (10 * second)) v.shutdown_timeout,
          Reads-get_env env "LOG_DIR" "logs" v.dir,
          Reads-get_env env "LOG_FILE_PREFIX" "app" v.file_prefix,
          Reads-get_parsed parse_int64 " must be an integer" env "LOG_MAX_BODY_BYTES"
              (pos (1024 * 1024)) v.max_body_bytes,
          Reads-get_parsed parse_bool " must be a boolean" env "API_KEY_ENABLED" true
              v.api_key_enabled,
          Reads-get_env env "API_KEY" "" v.api_key_value,
          Reads-get_env env "STACK_NAMESPACE" "stacks" v.namespace,
          Reads-get_parsed lib.parse_duration " must be a duration" env "STACK_TTL"
              (pos (2 * 3600 * second)) v.stack_ttl,
          Reads-get_parsed lib.parse_duration " must be a duration" env "STACK_SCHEDULER_INTERVAL"
              (pos (10 * second)) v.scheduler_interval,
          Reads-get_parsed parse_int64 " must be an integer" env "STACK_NODEPORT_MIN" (pos 31001)
              v.node_port_min,
          Reads-get_parsed parse_int64 " must be an integer" env "STACK_NODEPORT_MAX" (pos 32767)
              v.node_port_max,
          Reads-get_parsed lib.parse_duration " must be a duration" env "STACK_PORT_LOCK_TTL"
              (pos (30 * second)) v.port_lock_ttl,
          Reads-get_parsed parse_bool " must be a boolean" env "LEADER_ELECTION_ENABLED" false
              v.leader_enabled,
          Reads-get_env env "LEADER_ELECTION_NAMESPACE" "backend" v.leader_namespace,
          Reads-get_env env "LEADER_ELECTION_NAME" "container-provisioner" v.lease_name,
          Reads-get_parsed lib.parse_duration " must be a duration" env
              "LEADER_ELECTION_LEASE_DURATION" (pos (15 * second)) v.lease_duration,
          Reads-get_parsed lib.parse_duration " must be a duration" env
              "LEADER_ELECTION_RENEW_DEADLINE" (pos (10 * second)) v.renew_deadline,
          Reads-get_parsed lib.parse_duration " must be a duration" env
              "LEADER_ELECTION_RETRY_PERIOD" (pos (2 * second)) v.retry_period,
          Reads-get_env env "DDB_STACK_TABLE" "smctf-stacks" v.dynamo_table_name,
          Reads-get_env env "AWS_REGION" "us-east-1" v.aws_region,
          Reads-get_env env "AWS_ENDPOINT" "" v.aws_endpoint,
          Reads-get_parsed parse_bool " must be a boolean" env "DDB_CONSISTENT_READ" true
              v.dynamo_consistent_read,
          Reads-get_parsed parse_bool " must be a boolean" env "DDB_USE_MOCK" false
              v.use_mock_repository,
          Reads-get_env env "K8S_KUBECONFIG" "" v.kube_config_path,
          Reads-get_env env "K8S_CONTEXT" "" v.kube_context,
          Reads-get_parsed lib.parse_float " must be a number" env "K8S_CLIENT_QPS"
              (finite (pos (20 * 2 ^ 1074))) v.k8s_qps,
          Reads-get_parsed parse_int64 " must be an integer" env "K8S_CLIENT_BURST" (pos 40)
              v.k8s_burst,
          Reads-get_parsed lib.parse_duration " must be a duration" env "STACK_SCHEDULING_TIMEOUT"
              (pos (20 * second)) v.scheduling_timeout,
          Reads-get_parsed parse_bool " must be a boolean" env "K8S_USE_MOCK" false
              v.use_mock_kubernetes,
          Reads-get_parsed parse_bool " must be a boolean" env
              "STACK_REQUIRE_INGRESS_NETWORK_POLICY" true v.require_ingress_np,
          Reads-get_env env "STACK_NODE_ROLE" "stack" v.stack_node_role,
        )
        refl
