-- ===== src/Agent/Teardown.antt =====
-- The devices of a runtime that fails, is terminated or is suspended (Agent/Lifecycle).
use greenference_node.Base.{String, Bool, [], ◌≡◌, arith, eq_iff}
use greenference_node.Allocator.{get_allocation}
use greenference_node.Allocator.Invariant.{get_allocation-release}
use greenference_node.Protocol.{Runtime, Failure}
use greenference_node.Agent.Exec.{Agent, modify, locked}
use greenference_node.Agent.Host.{Host}
use greenference_node.Agent.Keeps.{Makes, Makes-bind, keeps_rules}
use greenference_node.Agent.Parts.{
  upsert_runtime, remove_runtime, release_gpus, pop_volume, file_volume, note_sent,
}
use greenference_node.Agent.Lifecycle.{fail_runtime, terminate_runtime, suspend_runtime}
use greenference_node.Agent.Kept.{
  log_any-Keeps, stop_backend-Keeps, suspend_backend-Keeps, report_state-Keeps, IsLocal,
}

module _ {W : Type 0} (d : String) where
  abbrev pub HoldsNothing : Agent W → Type 0
  HoldsNothing a = get_allocation d a.gpu_allocator ≡ []

  HoldsNothing-local : IsLocal HoldsNothing
  unfolding upsert_runtime remove_runtime release_gpus pop_volume file_volume note_sent modify
      locked
  HoldsNothing-local = record {
    inner = record { world = λ a w p. p; lock = λ a b p. p };
    upserts = λ rt. record { at = λ a p. p };
    removes = λ e. record { at = λ a p. p };
    releases =
        λ e. record { at = λ a p. ground (arith, get_allocation-release e d a.gpu_allocator) };
    pops = λ e. record { at = λ a p. p };
    files = λ e v. record { at = λ a p. p };
    notes = λ u. record { at = λ a p. p };
  }

  release_gpus-Makes : Makes HoldsNothing (release_gpus {W = W} d)
  unfolding release_gpus modify
  release_gpus-Makes = record {
    at = λ a. ground (arith, get_allocation-release d d a.gpu_allocator, eq_iff d d);
  }

module _ {W : Type 0} (host : Host W) (rt : Runtime) where
  terminate_runtime-Makes :
      (report : Bool) → Makes (HoldsNothing rt.deployment_id) (terminate_runtime host rt report)
  unfolding terminate_runtime
  terminate_runtime-Makes report =
      let k = HoldsNothing-local {W = W} rt.deployment_id in
      search
        (
          Makes-bind,
          release_gpus-Makes,
          keeps_rules,
          k.upserts,
          stop_backend-Keeps k host,
          log_any-Keeps k host,
          report_state-Keeps k host,
        )
        depth 9

  fail_runtime-Makes :
      (e : Failure) → Makes (HoldsNothing rt.deployment_id) (fail_runtime host rt e)
  unfolding fail_runtime
  fail_runtime-Makes e =
      let k = HoldsNothing-local {W = W} rt.deployment_id in
      search (Makes-bind, release_gpus-Makes, keeps_rules, k.upserts, report_state-Keeps k host)
        depth 9

  suspend_runtime-Makes : Makes (HoldsNothing rt.deployment_id) (suspend_runtime host rt)
  unfolding suspend_runtime
  suspend_runtime-Makes =
      let k = HoldsNothing-local {W = W} rt.deployment_id in
      search
        (
          Makes-bind,
          release_gpus-Makes,
          keeps_rules,
          k.upserts,
          suspend_backend-Keeps k host,
          report_state-Keeps k host,
        )
        depth 9

  -- After a runtime was terminated, failed or suspended its deployment holds no GPU, whatever the
  -- backend and the control plane answered or raised.
  pub teardown_frees :
      (report : Bool) (e : Failure) (a : Agent W)
      → (get_allocation rt.deployment_id (terminate_runtime host rt report a).1.gpu_allocator ≡ [])
        × (get_allocation rt.deployment_id (fail_runtime host rt e a).1.gpu_allocator ≡ [])
        × (get_allocation rt.deployment_id (suspend_runtime host rt a).1.gpu_allocator ≡ [])
  teardown_frees report e a = (
    (terminate_runtime-Makes report).at a,
    (fail_runtime-Makes e).at a,
    suspend_runtime-Makes.at a,
  )
