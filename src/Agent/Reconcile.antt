-- ===== src/Agent/Reconcile.antt =====
-- `_reconcile_once_locked` of services.py, the pass that makes the node run what its leases say, and
-- `_reconcile_workload`.
use greenference_node.Base.{
  ℕ, String, Bool, false, ◌||◌, Option, none, some, List, [], ◌∷◌, if◌then◌else◌, str_eq,
}
use greenference_node.Text.{codes, lower, same}
use greenference_node.Protocol.{
  WorkloadKind, inference, pod, vm, other_kind, Lease, Runtime, RuntimeStatus, DeploymentState,
  Workload, Settings, unsupported_kind, workload_not_found, reconciliation_failed,
}
use greenference_node.Agent.Exec.{Exec, Raised, pure, call, try_, ◌>>=◌, ◌>>◌}
use greenference_node.Agent.Host.{Host}
use greenference_node.Agent.Parts.{
  get_runtime, upsert_runtime, remove_runtime, send, state_update, log_any,
}
use greenference_node.Agent.Lifecycle.{fail_runtime, terminate_runtime, suspend_runtime}
use greenference_node.Agent.Start.{start_inference_runtime, start_vm_runtime}
use greenference_node.Agent.Pod.{start_pod_runtime}
use greenference_node.Agent.Resume.{resume_runtime}

-- `not (lease_node and lease_node != my_node)`
unfoldable pub is_ours : Settings → Lease → Bool
is_ours s lease = str_eq lease.node_id "" || str_eq lease.node_id s.node_id

unfoldable pub our_leases : Settings → List Lease → List Lease
our_leases s [] = []
our_leases s (lease ∷ rest) =
    if is_ours s lease then lease ∷ our_leases s rest else our_leases s rest

-- `deployment_id in {lease.deployment_id for lease in leases}`
unfoldable pub has_lease : String → List Lease → Bool
has_lease deployment_id [] = false
has_lease deployment_id (lease ∷ rest) =
    str_eq lease.deployment_id deployment_id || has_lease deployment_id rest

unfoldable pub is_suspended_lease : Lease → Bool
is_suspended_lease lease = same (lower (codes lease.status)) (codes "suspended")

-- the record of a lease that is taken up
unfoldable pub accepted_record : Lease → WorkloadKind → Runtime
accepted_record lease kind = record {
  deployment_id = lease.deployment_id;
  workload_id = lease.workload_id;
  hotkey = lease.hotkey;
  node_id = lease.node_id;
  workload_kind = kind;
  status = RuntimeStatus.accepted;
  current_stage = "accepted";
  gpu_fraction = 0;
  endpoint = none;
  last_error = none;
  failure_class = none;
  process_id = none;
  container_id = none;
  vm_id = none;
  runtime_dir = none;
  staged_artifact_path = none;
  image = none;
  ssh_host = none;
  ssh_port = none;
  volume_path = none;
  port_mappings = [];
  gpu_devices = [];
  gpu_count = none;
  multi_node = lease.multi_node;
  multi_node_role = none;
  ssh_private_key = none;
  ssh_public_keys = [];
  port_allocations = [];
  ssh_verified = none;
}

module _ {W : Type 0} (host : Host W) (s : Settings) (draws : ℕ) where
  unfoldable pub start_by_kind : WorkloadKind → Runtime → Workload → Exec W (Unit {0})
  start_by_kind inference runtime w = start_inference_runtime host s runtime w
  start_by_kind pod runtime w = start_pod_runtime host s draws runtime w
  start_by_kind vm runtime w = start_vm_runtime host s runtime w
  start_by_kind (other_kind k) runtime w = fail_runtime host runtime unsupported_kind

  unfoldable pub dispatch : Lease → Option Workload → Exec W (Unit {0})
  unfolding start_by_kind
  dispatch lease none =
      send host (state_update lease.deployment_id DeploymentState.failed (some workload_not_found))
  dispatch lease (some w) = do
    upsert_runtime (accepted_record lease w.kind)
    start_by_kind w.kind (accepted_record lease w.kind) w

  unfoldable pub reconcile_workload : Lease → Exec W (Unit {0})
  unfolding dispatch
  reconcile_workload lease = do
    workload ← call (host.get_workload lease.workload_id)
    dispatch lease workload

  -- the handler of whatever `_reconcile_workload` raises
  unfoldable pub report_failure : Lease → Raised → Exec W (Unit {0})
  report_failure lease _ =
      try_
        (send host
          (state_update lease.deployment_id DeploymentState.failed (some reconciliation_failed)))
        log_any

  unfoldable pub launch : Lease → Exec W (Unit {0})
  unfolding report_failure
  launch lease = try_ (reconcile_workload lease) (report_failure lease)

  -- The teardown is local and not reported, since the lease is active; then the lease is new.
  unfoldable pub retry : Lease → Runtime → Exec W (Unit {0})
  retry lease existing =
      terminate_runtime host existing false >> remove_runtime lease.deployment_id >> launch lease

  -- a lease that is not suspended, by the status of its runtime
  unfoldable pub follow_active : Lease → Runtime → RuntimeStatus → Exec W (Unit {0})
  follow_active lease existing RuntimeStatus.suspended = resume_runtime host s existing
  follow_active lease existing RuntimeStatus.accepted = retry lease existing
  follow_active lease existing RuntimeStatus.starting = retry lease existing
  follow_active lease existing _ = pure tt

  unfoldable pub follow_suspended : Runtime → RuntimeStatus → Exec W (Unit {0})
  follow_suspended existing RuntimeStatus.ready = suspend_runtime host existing
  follow_suspended existing RuntimeStatus.starting = suspend_runtime host existing
  follow_suspended existing _ = pure tt

  unfoldable pub follow : Lease → Option Runtime → Exec W (Unit {0})
  follow lease none = if is_suspended_lease lease then pure tt else launch lease
  follow lease (some existing) =
      if is_suspended_lease lease
      then follow_suspended existing existing.status
      else follow_active lease existing existing.status

  -- one round of the loop over the leases
  unfoldable pub follow_lease : Lease → Exec W (Unit {0})
  unfolding follow
  follow_lease lease = do existing ← get_runtime lease.deployment_id; follow lease existing

  unfoldable pub follow_leases : List Lease → Exec W (Unit {0})
  follow_leases [] = pure tt
  follow_leases (lease ∷ rest) = follow_lease lease >> follow_leases rest
