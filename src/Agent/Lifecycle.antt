-- ===== src/Agent/Lifecycle.antt =====
-- How a runtime is reported ready, fails, is terminated or suspended.
use greenference_node.Base.{String, Bool, ◌||◌, Option, none, some, if◌then◌else◌}
use greenference_node.Protocol.{
  WorkloadKind, inference, pod, vm, other_kind, Runtime, RuntimeStatus, DeploymentState, Failure,
  Volume,
}
use greenference_node.Agent.Exec.{Exec, pure, call, try_, ◌>>=◌, ◌>>◌, when}
use greenference_node.Agent.Host.{Host}
use greenference_node.Agent.Parts.{
  has_number, has_text, upsert_runtime, release_gpus, pop_volume, log_http, log_any, send,
  ready_update, state_update,
}

unfoldable pub failed_record : Runtime → Failure → Runtime
failed_record runtime error = record runtime {
  status = RuntimeStatus.failed;
  last_error = some error;
  failure_class = some "workload_dispatch";
}

unfoldable pub terminated_record : Runtime → Runtime
terminated_record runtime = record runtime {
  status = RuntimeStatus.terminated;
  current_stage = "terminated";
}

unfoldable pub suspended_record : Runtime → Runtime
suspended_record runtime = record runtime {
  status = RuntimeStatus.suspended;
  current_stage = "suspended";
}

module _ {W : Type 0} (host : Host W) where
  unfoldable pub report_deployment_ready : Runtime → Exec W (Unit {0})
  report_deployment_ready runtime = try_ (send host (ready_update runtime)) log_http

  unfoldable pub report_state : String → DeploymentState → Option Failure → Exec W (Unit {0})
  report_state deployment_id state error =
      try_ (send host (state_update deployment_id state error)) log_http

  unfoldable pub fail_runtime : Runtime → Failure → Exec W (Unit {0})
  unfolding failed_record
  fail_runtime runtime error = do
    release_gpus runtime.deployment_id
    upsert_runtime (failed_record runtime error)
    report_state runtime.deployment_id DeploymentState.failed (some error)

  -- `if path: delete(path)`
  unfoldable pub delete_if : Option String → (String → Exec W (Unit {0})) → Exec W (Unit {0})
  delete_if none delete = pure tt
  delete_if (some path) delete = delete path

  unfoldable pub drop_volume : Option Volume → Exec W (Unit {0})
  drop_volume none = pure tt
  drop_volume (some volume) = call (host.delete_volume volume)

  -- the `try` of `_terminate_runtime`
  unfoldable pub stop_backend : WorkloadKind → Runtime → Exec W (Unit {0})
  unfolding delete_if drop_volume
  stop_backend inference runtime =
      when (has_number runtime.process_id || has_text runtime.container_id) (do
        call (host.stop_runtime runtime)
        delete_if runtime.runtime_dir (λ d. call (host.delete_runtime_dir d))
        delete_if runtime.staged_artifact_path (λ p. call (host.delete_staged_artifact p)))
  stop_backend pod runtime = when (has_text runtime.container_id) (do
    call (host.stop_pod runtime)
    volume ← pop_volume runtime.deployment_id
    drop_volume volume)
  stop_backend vm runtime = when (has_text runtime.vm_id) (do call (host.stop_vm runtime); pure tt)
  stop_backend (other_kind k) runtime = pure tt

  unfoldable pub terminate_runtime : Runtime → Bool → Exec W (Unit {0})
  unfolding terminated_record
  terminate_runtime runtime report = do
    release_gpus runtime.deployment_id
    try_ (stop_backend runtime.workload_kind runtime) log_any
    upsert_runtime (terminated_record runtime)
    when report (report_state runtime.deployment_id DeploymentState.terminated none)

  -- the `try` of `_suspend_runtime`
  unfoldable pub suspend_backend : WorkloadKind → Runtime → Exec W Runtime
  unfolding suspended_record
  suspend_backend pod runtime = call (host.pause_pod runtime)
  suspend_backend inference runtime =
      if has_number runtime.process_id || has_text runtime.container_id
      then (do stopped ← call (host.stop_runtime runtime); pure (suspended_record stopped))
      else pure (suspended_record runtime)
  suspend_backend vm runtime = do
    when (has_text runtime.vm_id) (call (host.stop_vm runtime) >> pure tt)
    pure (suspended_record runtime)
  suspend_backend (other_kind k) runtime = pure (suspended_record runtime)

  unfoldable pub suspend_runtime : Runtime → Exec W (Unit {0})
  suspend_runtime runtime = do
    release_gpus runtime.deployment_id
    suspended ←
        try_ (suspend_backend runtime.workload_kind runtime) (λ _. pure (suspended_record runtime))
    upsert_runtime suspended
    report_state runtime.deployment_id DeploymentState.suspended none
