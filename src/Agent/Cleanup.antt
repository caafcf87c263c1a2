-- ===== src/Agent/Cleanup.antt =====
-- The end of a pass of services.py, which removes what is no longer this node's to run, and the pass
-- as a whole: `sync_leases`, `_reconcile_once_locked` and `reconcile_once`.
use greenference_node.Base.{
  ℕ, String, Bool, true, false, Option, some, List, [], ◌∷◌, if◌then◌else◌,
}
use greenference_node.Repository
use greenference_node.Protocol.{Lease, Runtime, RuntimeStatus, DeploymentState, Settings}
use greenference_node.Agent.Exec.{
  Exec, Raised, http_error, pure, raise, gets, call, try_, ◌>>=◌, ◌>>◌, when, unless_busy,
}
use greenference_node.Agent.Host.{Host}
use greenference_node.Agent.Parts.{remove_runtime}
use greenference_node.Agent.Lifecycle.{terminate_runtime}
use greenference_node.Agent.Reconcile.{our_leases, has_lease, follow_leases}

-- `dep is not None and dep.state == DeploymentState.TERMINATED`
unfoldable pub is_terminated : Option DeploymentState → Bool
is_terminated (some DeploymentState.terminated) = true
is_terminated _ = false

module _ {W : Type 0} (host : Host W) (s : Settings) (draws : ℕ) where
  unfoldable pub keep : Raised → Exec W Bool
  keep _ = pure false

  -- The control plane says that the deployment is terminated; if it cannot be asked, it is kept.
  unfoldable pub confirmed_terminated : String → Exec W Bool
  unfolding keep
  confirmed_terminated deployment_id =
      try_ (call (host.get_deployment deployment_id) >>= λ d. pure (is_terminated d)) keep

  -- a runtime without a lease on this node, by its status; `elsewhere` says that the fleet has one
  unfoldable pub clean : String → Runtime → Bool → RuntimeStatus → Exec W (Unit {0})
  clean deployment_id runtime elsewhere RuntimeStatus.terminated = pure tt
  clean deployment_id runtime elsewhere RuntimeStatus.suspended = do
    gone ← confirmed_terminated deployment_id
    when gone (terminate_runtime host runtime true >> remove_runtime deployment_id)
  clean deployment_id runtime true _ = terminate_runtime host runtime false
  clean deployment_id runtime false _ = terminate_runtime host runtime true

  -- one round of the loop over the runtimes
  unfoldable pub clean_item : List Lease → List Lease → String × Runtime → Exec W (Unit {0})
  clean_item fleet ours (deployment_id, runtime) =
      if has_lease deployment_id ours
      then pure tt
      else clean deployment_id runtime (has_lease deployment_id fleet) runtime.status

  unfoldable pub clean_items : List Lease → List Lease → List (String × Runtime) → Exec W (Unit {0})
  clean_items fleet ours [] = pure tt
  clean_items fleet ours (item ∷ rest) = clean_item fleet ours item >> clean_items fleet ours rest

  unfoldable pub no_leases : Raised → Exec W (List Lease)
  no_leases http_error = pure []
  no_leases e = raise e

  unfoldable pub sync_leases : String → Exec W (List Lease)
  unfolding no_leases
  sync_leases hotkey = try_ (call (host.list_leases hotkey)) no_leases

  -- the pass for the leases that were listed
  unfoldable pub reconcile_fleet : List Lease → Exec W (Unit {0})
  reconcile_fleet fleet = do
    follow_leases host s draws (our_leases s fleet)
    items ← gets (λ a. Repository.snapshot_runtime_items a.repository)
    clean_items fleet (our_leases s fleet) items

  unfoldable pub reconcile_once_locked : String → Exec W (Unit {0})
  reconcile_once_locked hotkey = do fleet ← sync_leases hotkey; reconcile_fleet fleet

  unfoldable pub reconcile_once : String → Exec W (Unit {0})
  reconcile_once hotkey = unless_busy tt (reconcile_once_locked hotkey)
