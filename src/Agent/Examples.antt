-- ===== src/Agent/Examples.antt =====
-- The service's theorems on a node with one runtime, whose control plane cannot be reached.
mod Invariants
mod Passes
mod Exposure
use greenference_node.Base.{String, none, some, [], ◌∷◌, true, false}
use greenference_node.Allocator.{GpuAllocator, new_allocator, allocate}
use greenference_node.Allocator.Invariant.{IsSound, new_allocator-IsSound, allocate-IsSound}
use greenference_node.Repository
use greenference_node.Repository.{open_repository}
use greenference_node.Protocol.{pod, Lease, Runtime, RuntimeStatus, Settings}
use greenference_node.Agent.Exec.{
  Agent, returned, raised, http_error, other_error, RuntimeRepository,
}
use greenference_node.Agent.Host.{Host}
use greenference_node.Agent.Parts.{codecs}
use greenference_node.Agent.Reconcile.{accepted_record}

-- No call of the control plane gets through; the backends do as they are told, and the port probe
-- always finds 30000.
abbrev pub cut_off : Host Unit
cut_off = record {
  list_leases = λ h w. (raised http_error, w);
  get_workload = λ d w. (raised http_error, w);
  get_deployment = λ d w. (raised http_error, w);
  update_deployment_status = λ u w. (raised http_error, w);
  busy_gpu_devices = λ w. (returned [], w);
  stage_artifact = λ r w. (returned "/artifacts", w);
  runtime_dir = λ d w. (returned "/runtimes", w);
  start_runtime = λ rt r w. (returned rt, w);
  stop_runtime = λ rt w. (returned rt, w);
  delete_runtime_dir = λ d w. (returned tt, w);
  delete_staged_artifact = λ d w. (returned tt, w);
  choose_free_port = λ lo hi w. (returned 30000, w);
  is_port_free = λ p w. (returned true, w);
  generate_ssh_keypair = λ w. (returned ("private", "public"), w);
  create_volume = λ d n w. (returned (record { deployment_id = d; path = "/volumes" }), w);
  delete_volume = λ v w. (returned tt, w);
  start_pod = λ rt s w. (returned rt, w);
  wait_for_ready = λ rt w. (returned true, w);
  stop_pod = λ rt w. (raised other_error, w);
  pause_pod = λ rt w. (returned rt, w);
  resume_pod = λ rt w. (returned rt, w);
  start_vm = λ rt s w. (returned rt, w);
  stop_vm = λ rt w. (returned rt, w);
}

abbrev pub settings : Settings
settings = record {
  node_id = "node-1";
  gpu_count = 4;
  miner_api_base_url = "http://127.0.0.1";
  ssh_host = "127.0.0.1";
  ssh_port_range_start = 30000;
  ssh_port_range_end = 31000;
  user_port_range_start = 30000;
  user_port_range_end = 32000;
}

abbrev pub lease : String → Lease
lease status = record {
  deployment_id = "d1";
  workload_id = "w1";
  hotkey = "h";
  node_id = "node-1";
  status = status;
  multi_node = none;
}

-- a pod that is ready, on the device 0
abbrev pub up : Runtime
up = record (accepted_record (lease "active") pod) {
  status = RuntimeStatus.ready;
  container_id = some "c1";
  gpu_devices = 0 ∷ [];
}

abbrev pub one_held : GpuAllocator
one_held = (allocate "d2" 1 none (allocate "d1" 1 none (new_allocator 4)).1).1

pub one_held-IsSound : IsSound one_held
one_held-IsSound =
    allocate-IsSound "d2" 1 none (allocate "d1" 1 none (new_allocator 4)).1
      (allocate-IsSound "d1" 1 none (new_allocator 4) (new_allocator-IsSound 4))

abbrev pub stored : RuntimeRepository
stored = Repository.upsert_runtime codecs "d1" up (open_repository codecs none)

abbrev pub node : Agent Unit
node = record {
  repository = stored;
  gpu_allocator = one_held;
  volume_records = [];
  sent = [];
  reconciling = false;
  world = tt;
}
