-- ===== src/Agent/Restart.antt =====
-- What the allocator knows after the service is started again over a state file.
use greenference_node.Base.{
  ap, ℕ, String, true, false, List, [], ◌∷◌, ◌++◌, ◌≡◌, ◌≢◌, refl, arith, if◌then◌else◌, eq_iff,
  ◌∙◌, Bool-cases, inl, inr,
}
use greenference_node.Devices.{mem, of_list}
use greenference_node.Allocator.{GpuAllocator, get_allocation, free_devices, rehydrate}
use greenference_node.Allocator.Invariant.{holds, holds-mem-free, get_allocation-assign}
use greenference_node.Allocator.Rehydration.{rehydrate_reserves}
use greenference_node.Protocol.{Runtime}
use greenference_node.Agent.Recovery.{is_active, rehydrate_one, rehydrate_gpu_allocator}

-- No runtime of the list is the deployment's.
abbrev pub IsAbsent : String → List Runtime → Type 0
IsAbsent d [] = Unit
IsAbsent d (rt ∷ rest) = (rt.deployment_id ≢ d) × IsAbsent d rest

rehydrate_one_other :
    (d : String) (rt : Runtime) (devices : List ℕ) (a : GpuAllocator)
    → rt.deployment_id ≢ d
    → get_allocation d (rehydrate_one rt devices a) ≡ get_allocation d a
unfolding rehydrate_one rehydrate
rehydrate_one_other d rt [] a ne = refl
rehydrate_one_other d rt (x ∷ devices) a ne = ground (
  arith,
  get_allocation-assign rt.deployment_id d (of_list (x ∷ devices)) a,
  eq_iff rt.deployment_id d,
)

rehydrate_absent :
    (d : String) (back : List Runtime) (a : GpuAllocator)
    → IsAbsent d back
    → get_allocation d (rehydrate_gpu_allocator back a) ≡ get_allocation d a
unfolding rehydrate_gpu_allocator
rehydrate_absent d [] a h = refl
rehydrate_absent d (rt ∷ back) a h = elim (Bool-cases (is_active rt.status)) [
  | inl active ↦ rw active (
      rehydrate_absent d back (rehydrate_one rt rt.gpu_devices a) h.1
      ∙ rehydrate_one_other d rt rt.gpu_devices a h.0)
  | inr idle ↦ rw idle (rehydrate_absent d back a h.1)
]

rehydrate_one-holds :
    (x : ℕ) (rt : Runtime) (devices : List ℕ) (a : GpuAllocator)
    → mem x devices ≡ true
    → holds rt.deployment_id x (rehydrate_one rt devices a) ≡ true
unfolding rehydrate_one mem
rehydrate_one-holds x rt [] a m = ground arith
rehydrate_one-holds x rt (y ∷ devices) a m =
    (rehydrate_reserves rt.deployment_id (y ∷ devices) x a m).0

restart_step :
    (back : List Runtime) (rt : Runtime) (a : GpuAllocator)
    → is_active rt.status ≡ true
    → IsAbsent rt.deployment_id back
    → get_allocation rt.deployment_id (rehydrate_gpu_allocator (rt ∷ back) a)
      ≡ get_allocation rt.deployment_id (rehydrate_one rt rt.gpu_devices a)
unfolding rehydrate_gpu_allocator
restart_step back rt a active absent =
    rw active (rehydrate_absent rt.deployment_id back (rehydrate_one rt rt.gpu_devices a) absent)

restart_holds :
    (front back : List Runtime) (rt : Runtime) (x : ℕ) (a : GpuAllocator)
    → is_active rt.status ≡ true
    → mem x rt.gpu_devices ≡ true
    → IsAbsent rt.deployment_id back
    → holds rt.deployment_id x (rehydrate_gpu_allocator (front ++ rt ∷ back) a) ≡ true
unfolding rehydrate_gpu_allocator
restart_holds [] back rt x a active m absent =
    ap (mem x) (restart_step back rt a active absent) ∙ rehydrate_one-holds x rt rt.gpu_devices a m
restart_holds (r ∷ front) back rt x a active m absent =
    restart_holds front back rt x
      (if is_active r.status then rehydrate_one r r.gpu_devices a else a) active m absent

-- After a restart, every device that the state file records for an active runtime belongs to that
-- runtime's deployment and is not free, if no later record is of the same deployment.
pub restart_reserves :
    (front back : List Runtime) (rt : Runtime) (x : ℕ) (a : GpuAllocator)
    → is_active rt.status ≡ true
    → mem x rt.gpu_devices ≡ true
    → IsAbsent rt.deployment_id back
    → (holds rt.deployment_id x (rehydrate_gpu_allocator (front ++ rt ∷ back) a) ≡ true)
      × (mem x (free_devices (rehydrate_gpu_allocator (front ++ rt ∷ back) a)) ≡ false)
restart_reserves front back rt x a active m absent =
    let held = restart_holds front back rt x a active m absent in
    (held, holds-mem-free rt.deployment_id x (rehydrate_gpu_allocator (front ++ rt ∷ back) a) held)
