-- ===== src/Agent/Examples/Invariants.antt =====
-- The invariants of the service and the end of a runtime, on the node of the examples.
use greenference_node.Base.{◌≡◌, refl, [], ◌∷◌, true, false}
use greenference_node.Dict.{lookup, insert}
use greenference_node.Devices.{mem}
use greenference_node.Allocator.{new_allocator, free_devices, get_allocation}
use greenference_node.Allocator.Invariant.{holds}
use greenference_node.Repository
use greenference_node.Repository.{open_repository, save}
use greenference_node.Repository.Persistence.{HasUniqueKeys}
use greenference_node.Protocol.{backend_failed}
use greenference_node.Agent.Parts.{codecs, untouched}
use greenference_node.Agent.Lifecycle.{terminate_runtime, fail_runtime, suspend_runtime}
use greenference_node.Agent.Reconcile.{accepted_record}
use greenference_node.Agent.Recovery.{is_active, rehydrate_gpu_allocator}
use greenference_node.Agent.Safety.{reconciles, recovers, terminates, run, run_restart}
use greenference_node.Agent.Teardown.{teardown_frees}
use greenference_node.Agent.Restart.{restart_reserves}
use greenference_node.Agent.Examples.{cut_off, settings, up, stored, node}

stored-HasUniqueKeys : HasUniqueKeys codecs stored
unfolding codecs untouched save insert lookup open_repository Repository.get_runtime
    Repository.upsert_runtime
stored-HasUniqueKeys = record {
  runtimes = (refl, tt);
  placements = tt;
  volumes = tt;
  collateral = tt;
}

stored_reopens : open_repository codecs stored.file ≡ stored
unfolding codecs untouched save insert lookup open_repository Repository.get_runtime
    Repository.upsert_runtime accepted_record Repository.load_table Repository.dump_table
stored_reopens = refl

run_restart_example :
    open_repository codecs
      (run cut_off settings 10
        (recovers ∷ reconciles "h" ∷ terminates "d1" ∷ [])
        node).repository.file
    ≡ (run cut_off settings 10 (recovers ∷ reconciles "h" ∷ terminates "d1" ∷ []) node).repository
run_restart_example =
    run_restart cut_off settings 10 (recovers ∷ reconciles "h" ∷ terminates "d1" ∷ []) node
      stored-HasUniqueKeys stored_reopens

teardown_frees_example :
    (get_allocation "d1" (terminate_runtime cut_off up true node).1.gpu_allocator ≡ [])
    × (get_allocation "d1" (fail_runtime cut_off up (backend_failed "lost") node).1.gpu_allocator
        ≡ [])
    × (get_allocation "d1" (suspend_runtime cut_off up node).1.gpu_allocator ≡ [])
unfolding accepted_record
teardown_frees_example = teardown_frees cut_off up true (backend_failed "lost") node

restart_reserves_example :
    (holds "d1" 0 (rehydrate_gpu_allocator (up ∷ []) (new_allocator 4)) ≡ true)
    × (mem 0 (free_devices (rehydrate_gpu_allocator (up ∷ []) (new_allocator 4))) ≡ false)
unfolding is_active mem accepted_record
restart_reserves_example = restart_reserves [] [] up 0 (new_allocator 4) refl refl tt
