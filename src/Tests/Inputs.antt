-- ===== src/Tests/Inputs.antt =====
-- The inputs that the runs share.
use container_provisioner_k.Base.{◌+◌, ◌*◌, ◌^◌, true, false, none, some, List, [], ◌∷◌}
use container_provisioner_k.Base.Int.{ℤ, pos}
use container_provisioner_k.Config.{finite, StackConfig}
use container_provisioner_k.Models.{PortSpec, Stack, Status, CreateInput, BatchDeleteJob, JobStatus}
use container_provisioner_k.Pod.{Pod, Container, KubeLibrary}
use container_provisioner_k.Repository
use container_provisioner_k.Kubernetes
use container_provisioner_k.Memory.{World}

abbrev pub web : Container ℤ
web = record {
  name = "web";
  image = "nginx";
  security_context = none;
  ports = record { container_port = pos 80; host_port = pos 0; host_ip = ""; protocol = "" } ∷ [];
  resources = record {
    requests = ("cpu", pos 100) ∷ ("memory", pos 2048) ∷ [];
    limits = ("cpu", pos 250) ∷ [];
  };
}

abbrev pub pod : Pod ℤ
pod = record {
  kind = "Pod";
  host_network = false;
  host_pid = false;
  host_ipc = false;
  security_context = none;
  service_account_name = "";
  deprecated_service_account = "";
  node_name = "";
  runtime_class_name = none;
  ephemeral_containers = [];
  volumes = [];
  init_containers = [];
  containers = web ∷ [];
  restart_policy = "Always";
  automount_service_account_token = none;
  enable_service_links = none;
}

abbrev pub library : KubeLibrary ℤ
library = record {
  unmarshal = λ raw. some pod;
  marshal = λ p. some "kind: Pod";
  milli_value = λ q. q;
  value = λ q. q;
  new_milli_quantity = λ n. n;
  new_quantity = λ n. n;
}

abbrev pub targets : List PortSpec
targets = record { container_port = pos 80; protocol = "TCP" } ∷ []

abbrev pub input : CreateInput
input = record { pod_spec_yml = "kind: Pod"; target_ports = targets }

abbrev pub config : StackConfig
config = record {
  namespace = "stacks";
  stack_ttl = pos (7200 * 10 ^ 9);
  scheduler_interval = pos (10 ^ 10);
  node_port_min = pos 31001;
  node_port_max = pos 31004;
  port_lock_ttl = pos (3 * 10 ^ 10);
  leader_election = record {
    enabled = false;
    namespace = "backend";
    lease_name = "container-provisioner";
    lease_duration = pos (15 * 10 ^ 9);
    renew_deadline = pos (10 ^ 10);
    retry_period = pos (2 * 10 ^ 9);
  };
  dynamo_table_name = "smctf-stacks";
  aws_region = "us-east-1";
  aws_endpoint = "";
  dynamo_consistent_read = true;
  use_mock_repository = true;
  kube_config_path = "";
  kube_context = "";
  k8s_qps = finite (pos (20 * 2 ^ 1074));
  k8s_burst = pos 40;
  scheduling_timeout = pos (2 * 10 ^ 10);
  use_mock_kubernetes = true;
  require_ingress_np = true;
  stack_node_role = "stack";
}

abbrev pub world : World
world = record {
  repo = Repository.empty_repository;
  cluster = Kubernetes.new_mock_kubernetes_client;
  times = λ n. 10 ^ 18 + n;
  draws = λ n. n;
  bytes = λ n. some (n ∷ 255 ∷ []);
  taken = 0;
}

abbrev pub stack : Stack
stack = record {
  stack_id = "stack-1";
  pod_id = "stack-stack-1";
  namespace = "stacks";
  node_id = "worker-a";
  node_public_ip = none;
  pod_spec_yaml = "kind: Pod";
  target_ports = targets;
  ports = record { container_port = pos 80; protocol = "TCP"; node_port = 31001 } ∷ [];
  service_name = "svc-stack-1";
  status = Status.running;
  ttl_expires_at = 2000;
  created_at = 1000;
  updated_at = 1000;
  requested_milli = pos 250;
  requested_bytes = pos 2048;
}

abbrev pub job : BatchDeleteJob
job = record {
  job_id = "job-1";
  status = JobStatus.queued;
  total = 2;
  deleted = 0;
  not_found = 0;
  failed = 0;
  errors = [];
  created_at = 1000;
  updated_at = 1000;
}
