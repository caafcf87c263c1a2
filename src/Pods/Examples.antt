-- ===== src/Pods/Examples.antt =====
-- A pod with a container, and a docker that answers every command with success.
use greenference_node.Base.{ℕ, ◌+◌, arith, true, none, some, [], ◌∷◌}
use greenference_node.Protocol.{Runtime, ready, pod as pod_kind}
use greenference_node.Agent.Exec.{returned}
use greenference_node.Access.Passthrough.{gpus}
use greenference_node.Pods.Docker.{Docker, completed, ◌>>=◌, nonempty}
use greenference_node.Pods.Command.{PodSettings, no_enforcement}
use greenference_node.Pods.Process.{pause_pod, resume_pod, wait_for_ready}
use greenference_node.Pods.Contract.{PodBackend, process_backend, IsPodBackend}
use greenference_node.Pods.Refinement.{Escapes, process_backend-IsPodBackend}
use greenference_node.Pods.Suspension.{logged, All, StopsOrStarts, suspend_resume-asks}
use greenference_node.Pods.Waiting.{IsAnswer, wait_for_ready-IsAnswer}

abbrev pub sample : Runtime
sample = record {
  deployment_id = "deployment-0001";
  workload_id = "w1";
  hotkey = "hot";
  node_id = "n1";
  workload_kind = pod_kind;
  status = ready;
  current_stage = "ready";
  gpu_fraction = 1;
  endpoint = none;
  last_error = none;
  failure_class = none;
  process_id = none;
  container_id = some "c0ffee";
  vm_id = none;
  runtime_dir = none;
  staged_artifact_path = none;
  image = some "ubuntu";
  ssh_host = some "10.0.0.1";
  ssh_port = some 30022;
  volume_path = none;
  port_mappings = [];
  gpu_devices = 0 ∷ [];
  gpu_count = some 1;
  multi_node = none;
  multi_node_role = none;
  ssh_private_key = none;
  ssh_public_keys = [];
  port_allocations = (8080, 31000) ∷ [];
  ssh_verified = none;
}

-- The world is a clock.
abbrev pub quiet : Docker ℕ
quiet = record { run = λ args w. (returned (completed true "0.0.0.0:30022" ""), w + 1) }

abbrev settings : PodSettings
settings = record {
  disk_mode = no_enforcement;
  gpu_mode = gpus;
  host_repo = "";
  entrypoint_path = "/entrypoint.sh";
  options = λ runtime. record {
    cpu_cores_allocated = some 250;
    memory_gb_allocated = some 16;
    volume_size_gb = none;
    env_vars = [];
  };
}

process_backend-IsPodBackend_example : IsPodBackend (Escapes quiet) (process_backend quiet settings)
process_backend-IsPodBackend_example = process_backend-IsPodBackend quiet settings

abbrev backend : PodBackend ℕ
backend = process_backend quiet settings

suspend_resume-asks_example :
    All
      (StopsOrStarts sample)
      ((pause_pod (logged quiet) sample >>= resume_pod (logged quiet)) ([], 0)).1.0
suspend_resume-asks_example = suspend_resume-asks quiet sample 0

abbrev now : ℕ → ℕ
now w = w

abbrev sleep : ℕ → ℕ → ℕ
sleep ms w = w + ms

wait_for_ready-IsAnswer_example :
    IsAnswer quiet now sleep
      (nonempty (some "c0ffee"))
      (0 + 90000)
      0
      (wait_for_ready quiet now sleep 62 90000 sample 0)
wait_for_ready-IsAnswer_example =
    wait_for_ready-IsAnswer quiet now sleep 90000 sample 0 (λ ms v. omega arith)
      (λ args v. omega arith)
