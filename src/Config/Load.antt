-- ===== src/Config/Load.antt =====
-- Load and validateConfig of internal/config/config.go. The environment is what os.Getenv returns for a
-- key; `dotenv` is the text of an error of godotenv.Load other than a missing file. The error that
-- Load joins is the list of the messages.
use Prim.Native.String.{◌++◌ as concat}
use container_provisioner_k.Base.{
  ℕ, ◌*◌, ◌^◌, String, Bool, true, false, ◌&&◌, ◌||◌, not, Option, none, some, List, [], ◌∷◌, ◌++◌,
  if◌then◌else◌, ◌==◌, string_eq,
}
use container_provisioner_k.Base.Int.{ℤ, pos, ltb_ℤ}
use container_provisioner_k.Base.Text.{trim_space}
use container_provisioner_k.Base.Text.Numbers.{parse_int64, parse_bool}
use container_provisioner_k.Config.{
  Float64, finite, plus_infinity, minus_infinity, nan, Duration, Config, StackConfig,
  LeaderElectionConfig,
}

-- time.ParseDuration, in nanoseconds, and strconv.ParseFloat, which also reads infinities and NaN.
pub record ParseLibrary : Type 0 where
  pub parse_duration : String → Option Duration
  pub parse_float : String → Option Float64

abbrev pub Env : Type 0
Env = String → String

-- The value of a variable and the message of the error, if there is one.
abbrev pub Setting : Type 0 → Type 0
Setting A = A × List String

abbrev pub get_env : Env → String → String → String
get_env env key default = if env key == "" then default else env key

-- The part that getEnvInt, getEnvFloat64, getEnvBool and getDuration have in common.
unfoldable pub get_parsed :
    {A : Type 0} → (String → Option A) → String → Env → String → A → Setting A
get_parsed parse refusal env key default =
    if env key == ""
    then (default, [])
    else elim (parse (env key)) [ none ↦ (default, concat key refusal ∷ []) | some a ↦ (a, []) ]

abbrev pub get_env_int : Env → String → ℤ → Setting ℤ
get_env_int = get_parsed parse_int64 " must be an integer"

abbrev pub get_env_bool : Env → String → Bool → Setting Bool
get_env_bool = get_parsed parse_bool " must be a boolean"

module _ (lib : ParseLibrary) where
  abbrev pub get_env_float64 : Env → String → Float64 → Setting Float64
  get_env_float64 = get_parsed lib.parse_float " must be a number"

  abbrev pub get_duration : Env → String → Duration → Setting Duration
  get_duration = get_parsed lib.parse_duration " must be a duration"

-- The messages whose test is true.
unfoldable pub complaints : List (Bool × String) → List String
complaints [] = []
complaints ((test, message) ∷ checks) =
    let rest = complaints checks in if test then message ∷ rest else rest

abbrev not_positive : ℤ → Bool
not_positive z = not (ltb_ℤ (pos 0) z)

-- `f <= 0`, which is false of NaN
abbrev pub at_most_zero : Float64 → Bool
at_most_zero (finite z) = not_positive z
at_most_zero plus_infinity = false
at_most_zero minus_infinity = true
at_most_zero nan = false

abbrev pub leader_checks : LeaderElectionConfig → List (Bool × String)
leader_checks l =
    (
      l.namespace == "",
      "LEADER_ELECTION_NAMESPACE must not be empty when LEADER_ELECTION_ENABLED=true",
    )
    ∷ (
      l.lease_name == "",
      "LEADER_ELECTION_NAME must not be empty when LEADER_ELECTION_ENABLED=true",
    )
    ∷ (
      not_positive l.lease_duration,
      "LEADER_ELECTION_LEASE_DURATION must be positive when LEADER_ELECTION_ENABLED=true",
    )
    ∷ (
      not_positive l.renew_deadline,
      "LEADER_ELECTION_RENEW_DEADLINE must be positive when LEADER_ELECTION_ENABLED=true",
    )
    ∷ (
      not_positive l.retry_period,
      "LEADER_ELECTION_RETRY_PERIOD must be positive when LEADER_ELECTION_ENABLED=true",
    )
    ∷ (
      not (ltb_ℤ l.renew_deadline l.lease_duration),
      "LEADER_ELECTION_RENEW_DEADLINE must be less than LEADER_ELECTION_LEASE_DURATION",
    )
    ∷ (
      not (ltb_ℤ l.retry_period l.renew_deadline),
      "LEADER_ELECTION_RETRY_PERIOD must be less than LEADER_ELECTION_RENEW_DEADLINE",
    )
    ∷ []

-- The checks before the ones of the leader election.
abbrev pub first_checks : Config → List (Bool × String)
first_checks cfg =
    (cfg.http_addr == "", "HTTP_ADDR must not be empty")
    ∷ (
      cfg.grpc_enabled && cfg.grpc_addr == "",
      "GRPC_ADDR must not be empty when GRPC_ENABLED=true",
    )
    ∷ (cfg.logging.dir == "", "LOG_DIR must not be empty")
    ∷ (cfg.logging.file_prefix == "", "LOG_FILE_PREFIX must not be empty")
    ∷ (not_positive cfg.logging.max_body_bytes, "LOG_MAX_BODY_BYTES must be positive")
    ∷ (
      cfg.api_key.enabled && trim_space cfg.api_key.value == "",
      "API_KEY must not be empty when API_KEY_ENABLED=true",
    )
    ∷ (cfg.stack.namespace == "", "STACK_NAMESPACE must not be empty")
    ∷ (not_positive cfg.stack.stack_ttl, "STACK_TTL must be positive")
    ∷ (not_positive cfg.stack.scheduler_interval, "STACK_SCHEDULER_INTERVAL must be positive")
    ∷ (
      ltb_ℤ cfg.stack.node_port_min (pos 1)
          || ltb_ℤ (pos 65535) cfg.stack.node_port_max
          || ltb_ℤ cfg.stack.node_port_max cfg.stack.node_port_min,
      "STACK_NODEPORT range is invalid",
    )
    ∷ (not_positive cfg.stack.port_lock_ttl, "STACK_PORT_LOCK_TTL must be positive")
    ∷ []

-- The checks after them.
abbrev pub last_checks : StackConfig → List (Bool × String)
last_checks s =
    (at_most_zero s.k8s_qps, "K8S_CLIENT_QPS must be positive")
    ∷ (not_positive s.k8s_burst, "K8S_CLIENT_BURST must be positive")
    ∷ (not_positive s.scheduling_timeout, "STACK_SCHEDULING_TIMEOUT must be positive")
    ∷ (
      s.require_ingress_np && s.namespace == "",
      "STACK_REQUIRE_INGRESS_NETWORK_POLICY requires STACK_NAMESPACE",
    )
    ∷ (s.stack_node_role == "", "STACK_NODE_ROLE must not be empty")
    ∷ (
      not s.use_mock_repository && s.dynamo_table_name == "",
      "DDB_STACK_TABLE must not be empty when DDB_USE_MOCK=false",
    )
    ∷ (
      not s.use_mock_repository && s.aws_region == "",
      "AWS_REGION must not be empty when DDB_USE_MOCK=false",
    )
    ∷ []

unfoldable pub validate_config : Config → List String
unfolding complaints
validate_config cfg =
    let leader = cfg.stack.leader_election in
    complaints (first_checks cfg)
    ++ ((if leader.enabled then complaints (leader_checks leader) else [])
        ++ complaints (last_checks cfg.stack))

abbrev pub second : ℕ
second = 10 ^ 9

pub data Loaded : Type 0 where
  loaded : Config → Loaded
  refused : List String → Loaded

-- The messages of the variables, one after the other.
unfoldable pub gather : List (List String) → List String
gather [] = []
gather (messages ∷ rest) = messages ++ gather rest

-- The configuration that is read, with the messages of the variables that do not parse, in the order
-- in which the source reads them.
unfoldable pub read_config : ParseLibrary → Env → Setting Config
unfolding get_parsed gather
read_config lib env =
    let shutdown_timeout = get_duration lib env "SHUTDOWN_TIMEOUT" (pos (10 * second)) in
    let max_body_bytes = get_env_int env "LOG_MAX_BODY_BYTES" (pos (1024 * 1024)) in
    let api_key_enabled = get_env_bool env "API_KEY_ENABLED" true in
    let grpc_enabled = get_env_bool env "GRPC_ENABLED" true in
    let grpc_reflection = get_env_bool env "GRPC_REFLECTION_ENABLED" true in
    let stack_ttl = get_duration lib env "STACK_TTL" (pos (2 * 3600 * second)) in
    let scheduler_interval = get_duration lib env "STACK_SCHEDULER_INTERVAL" (pos (10 * second)) in
    let node_port_min = get_env_int env "STACK_NODEPORT_MIN" (pos 31001) in
    let node_port_max = get_env_int env "STACK_NODEPORT_MAX" (pos 32767) in
    let port_lock_ttl = get_duration lib env "STACK_PORT_LOCK_TTL" (pos (30 * second)) in
    let leader_enabled = get_env_bool env "LEADER_ELECTION_ENABLED" false in
    let lease_duration =
      get_duration lib env "LEADER_ELECTION_LEASE_DURATION" (pos (15 * second)) in
    let renew_deadline =
      get_duration lib env "LEADER_ELECTION_RENEW_DEADLINE" (pos (10 * second)) in
    let retry_period = get_duration lib env "LEADER_ELECTION_RETRY_PERIOD" (pos (2 * second)) in
    let use_mock_k8s = get_env_bool env "K8S_USE_MOCK" false in
    let use_mock_repo = get_env_bool env "DDB_USE_MOCK" false in
    let consistent_read = get_env_bool env "DDB_CONSISTENT_READ" true in
    let k8s_qps = get_env_float64 lib env "K8S_CLIENT_QPS" (finite (pos (20 * 2 ^ 1074))) in
    let k8s_burst = get_env_int env "K8S_CLIENT_BURST" (pos 40) in
    let scheduling_timeout = get_duration lib env "STACK_SCHEDULING_TIMEOUT" (pos (20 * second)) in
    let require_ingress = get_env_bool env "STACK_REQUIRE_INGRESS_NETWORK_POLICY" true in
    (
      record {
        app_env = get_env env "APP_ENV" "local";
        http_addr = get_env env "HTTP_ADDR" ":8081";
        grpc_addr = get_env env "GRPC_ADDR" ":9090";
        grpc_enabled = grpc_enabled.0;
        grpc_reflection_enabled = grpc_reflection.0;
        shutdown_timeout = shutdown_timeout.0;
        logging = record {
          dir = get_env env "LOG_DIR" "logs";
          file_prefix = get_env env "LOG_FILE_PREFIX" "app";
          max_body_bytes = max_body_bytes.0;
        };
        api_key = record { enabled = api_key_enabled.0; value = get_env env "API_KEY" "" };
        stack = record {
          namespace = get_env env "STACK_NAMESPACE" "stacks";
          stack_ttl = stack_ttl.0;
          scheduler_interval = scheduler_interval.0;
          node_port_min = node_port_min.0;
          node_port_max = node_port_max.0;
          port_lock_ttl = port_lock_ttl.0;
          leader_election = record {
            enabled = leader_enabled.0;
            namespace = get_env env "LEADER_ELECTION_NAMESPACE" "backend";
            lease_name = get_env env "LEADER_ELECTION_NAME" "container-provisioner";
            lease_duration = lease_duration.0;
            renew_deadline = renew_deadline.0;
            retry_period = retry_period.0;
          };
          dynamo_table_name = get_env env "DDB_STACK_TABLE" "smctf-stacks";
          aws_region = get_env env "AWS_REGION" "us-east-1";
          aws_endpoint = get_env env "AWS_ENDPOINT" "";
          dynamo_consistent_read = consistent_read.0;
          use_mock_repository = use_mock_repo.0;
          kube_config_path = get_env env "K8S_KUBECONFIG" "";
          kube_context = get_env env "K8S_CONTEXT" "";
          k8s_qps = k8s_qps.0;
          k8s_burst = k8s_burst.0;
          scheduling_timeout = scheduling_timeout.0;
          use_mock_kubernetes = use_mock_k8s.0;
          require_ingress_np = require_ingress.0;
          stack_node_role = get_env env "STACK_NODE_ROLE" "stack";
        };
      },
      gather (
          shutdown_timeout.1 ∷ max_body_bytes.1 ∷ api_key_enabled.1 ∷ grpc_enabled.1
          ∷ grpc_reflection.1 ∷ stack_ttl.1 ∷ scheduler_interval.1 ∷ node_port_min.1
          ∷ node_port_max.1 ∷ port_lock_ttl.1 ∷ leader_enabled.1 ∷ lease_duration.1
          ∷ renew_deadline.1 ∷ retry_period.1 ∷ use_mock_k8s.1 ∷ use_mock_repo.1 ∷ consistent_read.1
          ∷ k8s_qps.1 ∷ k8s_burst.1 ∷ scheduling_timeout.1 ∷ require_ingress.1 ∷ []),
    )

-- `if len(errs) > 0`
abbrev pub loaded_unless : List String → Config → Loaded
loaded_unless [] cfg = loaded cfg
loaded_unless (message ∷ messages) cfg = refused (message ∷ messages)

unfoldable pub load : ParseLibrary → Option String → Env → Loaded
load lib dotenv env =
    let (cfg, messages) = read_config lib env in
    let before : List String = elim dotenv [ none ↦ [] | some e ↦ concat "load .env: " e ∷ [] ] in
    loaded_unless (before ++ (messages ++ validate_config cfg)) cfg
