-- ===== src/Agent/Outage.antt =====
-- What a pass does when the control plane cannot be reached.
use greenference_node.Base.{ℕ, String, Bool, not, true, false, List, [], ◌∷◌, ◌≡◌, refl}
use greenference_node.Protocol.{Runtime, RuntimeStatus, Settings}
use greenference_node.Agent.Exec.{
  Agent, Exec, returned, raised, http_error, pure, gets, call, try_, ◌>>=◌, ◌>>◌, when, continue,
  recover,
}
use greenference_node.Agent.Host.{Host}
use greenference_node.Agent.Lifecycle.{terminate_runtime}
use greenference_node.Agent.Reconcile.{our_leases, has_lease, follow_leases}
use greenference_node.Agent.Cleanup.{
  clean, clean_item, clean_items, sync_leases, no_leases, reconcile_fleet, reconcile_once_locked,
}
use greenference_node.Repository.{snapshot_runtime_items}

abbrev pub IsNotSuspended : RuntimeStatus → Type 0
IsNotSuspended RuntimeStatus.suspended = ⊥
IsNotSuspended _ = Unit

abbrev pub NoneSuspended : List (String × Runtime) → Type 0
NoneSuspended [] = Unit
NoneSuspended ((_, rt) ∷ rest) = IsNotSuspended rt.status × NoneSuspended rest

unfoldable pub is_over : RuntimeStatus → Bool
is_over RuntimeStatus.terminated = true
is_over _ = false

module _ {W : Type 0} (host : Host W) (s : Settings) (draws : ℕ) where
  -- Every runtime that is not terminated yet is terminated in turn, and the control plane is told
  -- so.
  unfoldable pub terminate_each : List (String × Runtime) → Exec W (Unit {0})
  terminate_each [] = pure tt
  terminate_each ((_, rt) ∷ rest) =
      when (not (is_over rt.status)) (terminate_runtime host rt true) >> terminate_each rest

  clean_live :
      (d : String) (rt : Runtime) (status : RuntimeStatus)
      → IsNotSuspended status
      → clean host s draws d rt false status
        ≡ when (not (is_over status)) (terminate_runtime host rt true)
  unfolding clean is_over
  clean_live d rt RuntimeStatus.terminated h = refl
  clean_live d rt RuntimeStatus.suspended h = absurd h
  clean_live d rt _ h = refl

  clean_items_lem :
      (items : List (String × Runtime))
      → NoneSuspended items
      → clean_items host s draws [] [] items ≡ terminate_each items
  unfolding clean_items terminate_each clean_item has_lease
  clean_items_lem [] h = refl
  clean_items_lem ((d, rt) ∷ rest) h = rw (clean_live d rt rt.status h.0, clean_items_lem rest h.1)

  sync_leases_lem :
      (hotkey : String) (a : Agent W)
      → (host.list_leases hotkey a.world).0 ≡ raised http_error
      → sync_leases host s draws hotkey a
        ≡ (returned [], record a { world = (host.list_leases hotkey a.world).1 })
  unfolding sync_leases try_ recover call no_leases pure
  sync_leases_lem hotkey a out = rw out

  -- If the control plane cannot be asked for the leases, and no runtime of the node is suspended,
  -- then the pass terminates one after the other all runtimes that are not terminated yet, ready
  -- ones too, and reports each; an exception that a termination lets through ends the pass there.
  pub outage_terminates_each :
      (hotkey : String) (a : Agent W)
      → (host.list_leases hotkey a.world).0 ≡ raised http_error
      → NoneSuspended a.repository.runtimes
      → reconcile_once_locked host s draws hotkey a
        ≡ terminate_each a.repository.runtimes
            (record a { world = (host.list_leases hotkey a.world).1 })
  unfolding reconcile_once_locked ◌>>=◌ continue reconcile_fleet our_leases follow_leases gets pure
      snapshot_runtime_items
  outage_terminates_each hotkey a out live =
      rw (sync_leases_lem hotkey a out, clean_items_lem a.repository.runtimes live)
