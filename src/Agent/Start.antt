-- ===== src/Agent/Start.antt =====
-- The handlers of services.py that start a workload. Left out are the CPU and memory shares of a
-- pod, which are floats, and fields of the record that nothing else in the agent reads.
use greenference_node.Base.{ℕ, String, Option, none, some, List, [], if◌then◌else◌, get_or}
use greenference_node.Devices.{DeviceSet, diff}
use greenference_node.Allocator
use greenference_node.Allocator.{Granted, granted, refused, GpuAllocationError}
use greenference_node.Protocol.{
  Runtime, RuntimeStatus, Workload, Settings, Failure, allocation_failed, staging_failed,
  backend_failed,
}
use greenference_node.Agent.Exec.{
  match_option, Exec, Raised, inference_error, pod_error, vm_error, pure, raise, gets, call, try_,
  ◌>>=◌, ◌>>◌,
}
use greenference_node.Agent.Host.{Host, StageRequest}
use greenference_node.Agent.Parts.{on_granted, upsert_runtime, allocate_gpus}
use greenference_node.Agent.Lifecycle.{report_deployment_ready, fail_runtime}
use greenference_node.Agent.Prepare.{stage_request, is_worker_runtime}
use Prim.Native.String.{◌++◌ as append}

-- `metadata["gpu_devices"]` and `metadata["gpu_count"]`
unfoldable pub with_devices : Runtime → List ℕ → ℕ → Runtime
with_devices runtime devices gpu_count = record runtime {
  gpu_devices = devices;
  gpu_count = some gpu_count;
}

module _ {W : Type 0} (host : Host W) (s : Settings) where
  unfoldable pub no_devices : Raised → Exec W DeviceSet
  no_devices _ = pure []

  -- Busy devices that no deployment of ours holds; none where the probe fails.
  unfoldable pub foreign_busy_devices : Exec W DeviceSet
  unfolding no_devices
  foreign_busy_devices =
      try_
        (do
          busy ← call host.busy_gpu_devices
          ours ← gets (λ a. Allocator.allocated_devices a.gpu_allocator)
          pure (diff busy ours))
        no_devices

  -- `allocate(..., avoid=self._foreign_busy_devices())`, with the handler of its error
  unfoldable pub with_gpus : Runtime → ℕ → (List ℕ → Exec W (Unit {0})) → Exec W (Unit {0})
  with_gpus runtime gpu_count next = do
    foreign ← foreign_busy_devices
    result ← allocate_gpus runtime.deployment_id gpu_count foreign
    on_granted result (λ devices. next devices) λ e. fail_runtime host runtime (allocation_failed e)

  -- What the `except` clause of a start returns after it has failed the runtime.
  abbrev failed_with : Runtime → Failure → Exec W (Option Runtime)
  failed_with runtime error = fail_runtime host runtime error >> pure none

  unfoldable pub on_inference_error : Runtime → Raised → Exec W (Option Runtime)
  on_inference_error runtime (inference_error m) = failed_with runtime (backend_failed m)
  on_inference_error runtime e = raise e

  unfoldable pub on_staging_error : Runtime → Raised → Exec W (Option String)
  on_staging_error runtime (inference_error m) =
      fail_runtime host runtime staging_failed >> pure none
  on_staging_error runtime e = raise e

  unfoldable pub on_pod_error : Runtime → Raised → Exec W (Option Runtime)
  on_pod_error runtime (pod_error m) = failed_with runtime (backend_failed m)
  on_pod_error runtime e = raise e

  unfoldable pub on_vm_error : Runtime → Raised → Exec W (Option Runtime)
  on_vm_error runtime (vm_error m) = failed_with runtime (backend_failed m)
  on_vm_error runtime e = raise e

  -- The last part of a handler: the started runtime is filed and reported.
  unfoldable pub publish : Runtime → Exec W (Unit {0})
  publish runtime = do upsert_runtime runtime; report_deployment_ready host runtime

  unfoldable pub inference_endpoint : Runtime → Option String
  inference_endpoint runtime =
      if is_worker_runtime runtime.multi_node_role
      then none
      else some (append s.miner_api_base_url (append "/inference/" runtime.deployment_id))

  unfoldable pub inference_ready : Runtime → Runtime
  unfolding inference_endpoint
  inference_ready runtime = record runtime {
    status = RuntimeStatus.ready;
    current_stage = "ready";
    endpoint = inference_endpoint runtime;
  }

  -- from the staged artifact on
  unfoldable pub serve_staged : Runtime → StageRequest → String → Exec W (Unit {0})
  unfolding on_inference_error publish inference_ready
  serve_staged runtime request path = do
    dir ← call (host.runtime_dir runtime.deployment_id)
    (let starting = record runtime {
      status = RuntimeStatus.starting;
      current_stage = "start_inference_backend";
      image = some request.image;
      staged_artifact_path = some path;
      runtime_dir = some dir;
    } in
        do
          upsert_runtime starting
          started ←
              try_ (call (host.start_runtime starting request) >>= λ r. pure (some r))
                (on_inference_error starting)
          match_option started (pure tt) λ r. publish (inference_ready r))

  -- with the devices at hand
  unfoldable pub stage_and_serve : Runtime → Workload → ℕ → List ℕ → Exec W (Unit {0})
  unfolding on_staging_error serve_staged with_devices
  stage_and_serve runtime w gpu_count devices =
      let held = record (with_devices runtime devices gpu_count) { gpu_fraction = gpu_count } in
      let request = stage_request held w devices in
      do
        staged ←
            try_ (call (host.stage_artifact request) >>= λ p. pure (some p)) (on_staging_error held)
        match_option staged (pure tt) λ path. serve_staged held request path

  unfoldable pub start_inference_runtime : Runtime → Workload → Exec W (Unit {0})
  unfolding stage_and_serve with_gpus
  start_inference_runtime runtime w =
      let gpu_count = get_or w.gpu_count 1 in
      with_gpus runtime gpu_count λ devices. stage_and_serve runtime w gpu_count devices

  unfoldable pub vm_endpoint : Runtime → Runtime
  vm_endpoint runtime = record runtime {
    endpoint = some (append s.miner_api_base_url (append "/vms/" runtime.deployment_id));
  }

  unfoldable pub run_vm : Runtime → Workload → ℕ → List ℕ → Exec W (Unit {0})
  unfolding on_vm_error publish vm_endpoint with_devices
  run_vm runtime w gpu_count devices =
      let starting = record (with_devices runtime devices gpu_count) {
        status = RuntimeStatus.starting;
        current_stage = "start_vm";
      } in
      do
        upsert_runtime starting
        started ←
            try_ (call (host.start_vm starting w) >>= λ r. pure (some r)) (on_vm_error starting)
        match_option started (pure tt) λ r. publish (vm_endpoint r)

  unfoldable pub start_vm_runtime : Runtime → Workload → Exec W (Unit {0})
  unfolding run_vm with_gpus
  start_vm_runtime runtime w =
      let gpu_count = get_or w.gpu_count 1 in
      with_gpus runtime gpu_count λ devices. run_vm runtime w gpu_count devices
