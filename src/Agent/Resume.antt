-- ===== src/Agent/Resume.antt =====
-- `_resume_runtime` of services.py.
use greenference_node.Base.{ℕ, Option, none, some, List, ◌∷◌, get_or, if◌then◌else◌, ◌==◌}
use greenference_node.Allocator.{Granted}
use greenference_node.Protocol.{
  WorkloadKind, inference, pod, vm, Runtime, RuntimeStatus, Workload, Settings, resume_failed,
}
use greenference_node.Agent.Exec.{
  match_option, Exec, Raised, pod_error, http_error, pure, raise, call, try_, ◌>>=◌, ◌>>◌,
}
use greenference_node.Agent.Host.{Host}
use greenference_node.Agent.Parts.{
  on_granted, upsert_runtime, release_gpus, allocate_gpus, allocate_specific_gpus,
}
use greenference_node.Agent.Lifecycle.{report_deployment_ready, suspended_record}
use greenference_node.Agent.Start.{
  foreign_busy_devices, with_devices, start_inference_runtime, start_vm_runtime,
}

-- `n or 1`
abbrev pub or_one : ℕ → ℕ
or_one n = if n == 0 then 1 else n

-- `int(metadata.get("gpu_count", runtime.gpu_fraction or 1) or 1)`
unfoldable pub resume_gpu_count : Runtime → ℕ
resume_gpu_count runtime = or_one (get_or runtime.gpu_count (or_one runtime.gpu_fraction))

module _ {W : Type 0} (host : Host W) (s : Settings) where
  unfoldable pub allocate_fresh : Runtime → Exec W Granted
  allocate_fresh runtime = do
    foreign ← foreign_busy_devices host s
    allocate_gpus runtime.deployment_id (resume_gpu_count runtime) foreign

  -- A pod that has devices must get the same ones.
  unfoldable pub reacquire : WorkloadKind → List ℕ → Runtime → Exec W Granted
  unfolding allocate_fresh
  reacquire pod (d ∷ devices) runtime = allocate_specific_gpus runtime.deployment_id (d ∷ devices)
  reacquire _ devices runtime = allocate_fresh runtime

  unfoldable pub on_resume_error : Runtime → Raised → Exec W (Option Runtime)
  on_resume_error runtime (pod_error m) = do
    release_gpus runtime.deployment_id
    upsert_runtime (record (suspended_record runtime) { last_error = some (resume_failed m) })
    pure none
  on_resume_error runtime e = raise e

  -- `docker start` of the same container
  unfoldable pub resume_container : Runtime → Exec W (Unit {0})
  unfolding on_resume_error
  resume_container runtime = do
    resumed ← try_ (call (host.resume_pod runtime) >>= λ r. pure (some r)) (on_resume_error runtime)
    match_option resumed (pure tt) λ r. upsert_runtime r >> report_deployment_ready host r

  unfoldable pub no_workload : Raised → Exec W (Option Workload)
  no_workload http_error = pure none
  no_workload e = raise e

  unfoldable pub start_again : WorkloadKind → Runtime → Workload → Exec W (Unit {0})
  start_again inference runtime w = start_inference_runtime host s runtime w
  start_again vm runtime w = start_vm_runtime host s runtime w
  start_again _ runtime w = pure tt

  -- The container or VM went with the suspension: it is started anew from the workload.
  unfoldable pub redispatch : Runtime → Exec W (Unit {0})
  unfolding no_workload start_again
  redispatch runtime = do
    release_gpus runtime.deployment_id
    workload ← try_ (call (host.get_workload runtime.workload_id)) no_workload
    match_option workload (pure tt) λ w.
        (let fresh = record runtime {
          status = RuntimeStatus.accepted;
          current_stage = "accepted";
        } in
          upsert_runtime fresh >> start_again runtime.workload_kind fresh w)

  unfoldable pub resume_with : WorkloadKind → Runtime → List ℕ → Exec W (Unit {0})
  unfolding resume_container redispatch
  resume_with pod runtime devices =
      resume_container (with_devices runtime devices (resume_gpu_count runtime))
  resume_with _ runtime devices = redispatch runtime

  unfoldable pub resume_runtime : Runtime → Exec W (Unit {0})
  unfolding reacquire
  resume_runtime runtime = do
    result ← reacquire runtime.workload_kind runtime.gpu_devices runtime
    on_granted result (λ devices. resume_with runtime.workload_kind runtime devices) λ e. pure tt
