-- ===== src/Agent/Examples/Passes.antt =====
-- The passes and recoveries of the node of the examples.
use greenference_node.Base.{◌≡◌, refl, none, [], ◌∷◌}
use greenference_node.Dict.{lookup, insert}
use greenference_node.Text.{lower, same}
use greenference_node.Repository
use greenference_node.Repository.{open_repository, save}
use greenference_node.Agent.Exec.{
  Agent, returned, pure, gets, call, try_, ◌>>=◌, continue, recover, unless_busy, let_go, locked,
}
use greenference_node.Agent.Parts.{codecs}
use greenference_node.Agent.Reconcile.{
  follow_leases, our_leases, has_lease, accepted_record, is_suspended_lease, is_ours,
}
use greenference_node.Agent.Cleanup.{
  clean_items, reconcile_fleet, no_leases, sync_leases, reconcile_once, reconcile_once_locked,
}
use greenference_node.Agent.Recovery.{recover_runtime_state}
use greenference_node.Agent.Following.{steady_pass}
use greenference_node.Agent.Outage.{outage_terminates_each, terminate_each}
use greenference_node.Agent.Unreachable.{Has, recovery_outage_keeps}
use greenference_node.Agent.Host.{Host}
use greenference_node.Agent.Examples.{cut_off, settings, lease, up, node}

outage_terminates_each_example :
    reconcile_once_locked cut_off settings 10 "h" node
    ≡ terminate_each cut_off settings 10 node.repository.runtimes
        (record node { world = (cut_off.list_leases "h" node.world).1 })
unfolding save insert codecs open_repository Repository.get_runtime Repository.upsert_runtime
    accepted_record
outage_terminates_each_example = outage_terminates_each cut_off settings 10 "h" node refl (tt, tt)

recovery_outage_keeps_example :
    Has node.repository node.gpu_allocator node.sent (recover_runtime_state cut_off node).1
recovery_outage_keeps_example = recovery_outage_keeps cut_off (λ d w. refl) node

-- A control plane that answers with the one lease of the node.
abbrev leasing : Host Unit
leasing = record cut_off { list_leases = λ hotkey w. (returned (lease "active" ∷ []), w) }

steady_pass_example : reconcile_once_locked leasing settings 10 "h" node ≡ (returned tt, node)
unfolding is_suspended_lease lower same save insert lookup codecs open_repository our_leases is_ours
    has_lease Repository.get_runtime Repository.upsert_runtime accepted_record
steady_pass_example =
    steady_pass leasing settings 10 "h" node tt (lease "active" ∷ []) refl
      ((refl, (up, refl, tt)), tt) (refl, tt)

abbrev empty_node : Agent Unit
empty_node = record node { repository = open_repository codecs none }

pass_returns : (reconcile_once cut_off settings 10 "h" empty_node).0 ≡ returned tt
unfolding reconcile_once unless_busy let_go locked reconcile_once_locked sync_leases no_leases
    reconcile_fleet our_leases follow_leases clean_items gets call try_ recover ◌>>=◌ continue pure
    open_repository Repository.get_runtime Repository.snapshot_runtime_items
pass_returns = refl
