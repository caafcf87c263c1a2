-- ===== src/Agent/Recovery.antt =====
-- Starting up and shutting down by services.py: `_rehydrate_gpu_allocator`,
-- `_recover_runtime_state_locked` and `terminate_deployment`.
use greenference_node.Base.{
  ℕ, ◌+◌, String, Bool, true, false, Option, none, some, List, [], ◌∷◌, if◌then◌else◌,
}
use greenference_node.Allocator
use greenference_node.Allocator.{GpuAllocator}
use greenference_node.Repository
use greenference_node.Protocol.{Runtime, RuntimeStatus, DeploymentState}
use greenference_node.Agent.Exec.{
  match_option, Exec, Raised, http_error, pure, raise, gets, call, try_, ◌>>=◌, ◌>>◌, unless_busy,
}
use greenference_node.Agent.Host.{Host}
use greenference_node.Agent.Parts.{get_runtime}
use greenference_node.Agent.Lifecycle.{terminate_runtime}

-- `active_states`, and the test of `build_capacity_update`
unfoldable pub is_active : RuntimeStatus → Bool
is_active RuntimeStatus.accepted = true
is_active RuntimeStatus.preparing = true
is_active RuntimeStatus.starting = true
is_active RuntimeStatus.ready = true
is_active _ = false

-- The devices of a record are numbers here, so the handler of one that `int` refuses is left out.
unfoldable pub rehydrate_one : Runtime → List ℕ → GpuAllocator → GpuAllocator
rehydrate_one rt [] a = a
rehydrate_one rt (d ∷ devices) a = (Allocator.rehydrate rt.deployment_id (d ∷ devices) a).1

-- The allocator after a restart, from the runtimes in the state file.
unfoldable pub rehydrate_gpu_allocator : List Runtime → GpuAllocator → GpuAllocator
unfolding rehydrate_one
rehydrate_gpu_allocator [] a = a
rehydrate_gpu_allocator (rt ∷ rest) a =
    rehydrate_gpu_allocator rest
      (if is_active rt.status then rehydrate_one rt rt.gpu_devices a else a)

-- `_RECOVERY_KEEP_STATES`
unfoldable pub keeps_running : DeploymentState → Bool
keeps_running DeploymentState.ready = true
keeps_running DeploymentState.starting = true
keeps_running DeploymentState.scheduled = true
keeps_running DeploymentState.pulling = true
keeps_running DeploymentState.draining = true
keeps_running DeploymentState.suspended = true
keeps_running _ = false

unfoldable pub is_dead : DeploymentState → Bool
is_dead DeploymentState.terminated = true
is_dead DeploymentState.failed = true
is_dead _ = false

-- How many runtimes were kept and how many torn down.
pub record Tally : Type 0 where
  pub resumed : ℕ
  pub torn_down : ℕ

pub data Recovery : Type 0 where
  busy : Recovery
  recovered : Tally → Recovery

-- What the control plane says of a deployment.
pub data Answer : Type 0 where
  unreachable : Answer
  says : Option DeploymentState → Answer

module _ {W : Type 0} (host : Host W) where
  unfoldable pub is_unreachable : Raised → Exec W Answer
  is_unreachable http_error = pure unreachable
  is_unreachable e = raise e

  unfoldable pub ask : String → Exec W Answer
  unfolding is_unreachable
  ask deployment_id =
      try_ (call (host.get_deployment deployment_id) >>= λ d. pure (says d)) is_unreachable

  -- `true` if the runtime is kept
  unfoldable pub settle : Runtime → Answer → Exec W Bool
  settle runtime unreachable = pure true
  settle runtime (says none) = terminate_runtime host runtime false >> pure false
  settle runtime (says (some state)) =
      if keeps_running state
      then pure true
      else (terminate_runtime host runtime (is_dead state) >> pure false)

  unfoldable pub counted : Bool → Tally → Tally
  counted true t = record t { resumed = t.resumed + 1 }
  counted false t = record t { torn_down = t.torn_down + 1 }

  unfoldable pub examine : String → Runtime → RuntimeStatus → Tally → Exec W Tally
  unfolding counted
  examine deployment_id runtime RuntimeStatus.terminated t = pure t
  examine deployment_id runtime RuntimeStatus.failed t = pure t
  examine deployment_id runtime _ t = do
    answer ← ask deployment_id
    kept ← settle runtime answer
    pure (counted kept t)

  unfoldable pub recover_items : List (String × Runtime) → Tally → Exec W Tally
  unfolding examine
  recover_items [] t = pure t
  recover_items ((deployment_id, runtime) ∷ rest) t = do
    t' ← examine deployment_id runtime runtime.status t
    recover_items rest t'

  unfoldable pub recover_runtime_state : Exec W Recovery
  recover_runtime_state = unless_busy busy (do
    items ← gets (λ a. Repository.snapshot_runtime_items a.repository)
    t ← recover_items items (record { resumed = 0; torn_down = 0 })
    pure (recovered t))

  -- `false` for a deployment that the node does not have
  unfoldable pub terminate_deployment : String → Exec W Bool
  terminate_deployment deployment_id = do
    runtime ← get_runtime deployment_id
    match_option runtime (pure false) λ rt. terminate_runtime host rt true >> pure true
