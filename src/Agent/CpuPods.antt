-- ===== src/Agent/CpuPods.antt =====
-- Pods of a template without a GPU, which hold no device and whose record says `gpu_count` 0.
use greenference_node.Base.{
  ◌∙◌, ap, String, ℕ, ◌+◌, ◌≤◌, ◌≡◌, refl, arith, true, some, List, [], ◌∷◌, ◌++◌, length,
  if◌then◌else◌,
}
use greenference_node.Devices.{DeviceSet}
use greenference_node.Allocator.{get_allocation, usable}
use greenference_node.Allocator.Invariant.{IsSound}
use greenference_node.Allocator.Grants.{allocate-Grant}
use greenference_node.Allocator.Decisions.{enough_usable}
use greenference_node.Protocol.{pod, Runtime, Settings}
use greenference_node.Agent.Exec.{Agent, returned, ◌>>=◌, continue}
use greenference_node.Agent.Host.{Host}
use greenference_node.Agent.Parts.{allocate_gpus}
use greenference_node.Agent.Recovery.{is_active}
use greenference_node.Agent.Resume.{resume_gpu_count, allocate_fresh, reacquire}
use greenference_node.Agent.Start.{foreign_busy_devices}
use greenference_node.Agent.Advertise.{reserved_by, reserved_gpus}

reserved_by_one : (rt : Runtime) → rt.gpu_devices ≡ [] → rt.gpu_count ≡ some 0 → reserved_by rt ≡ 1
unfolding reserved_by
reserved_by_one rt empty zero_gpus = rw (empty, zero_gpus)

-- An active pod without a GPU takes one GPU off what the node advertises, as if it held one.
pub cpu_pod_reserves_one :
    (front back : List Runtime) (rt : Runtime)
    → is_active rt.status ≡ true
    → rt.gpu_devices ≡ []
    → rt.gpu_count ≡ some 0
    → reserved_gpus (front ++ rt ∷ back) ≡ reserved_gpus (front ++ back) + 1
unfolding reserved_gpus
cpu_pod_reserves_one [] back rt active empty zero_gpus =
    ground (arith, reserved_by_one rt empty zero_gpus)
cpu_pod_reserves_one (r ∷ front) back rt active empty zero_gpus =
    ground (arith, cpu_pod_reserves_one front back rt active empty zero_gpus)

-- Every runtime has devices on its record.
abbrev pub HaveDevices : List Runtime → Type 0
HaveDevices [] = Unit
HaveDevices (rt ∷ rest) = (1 ≤ length rt.gpu_devices) × HaveDevices rest

abbrev pub devices_of : List Runtime → ℕ
devices_of [] = 0
devices_of (rt ∷ rest) =
    if is_active rt.status then length rt.gpu_devices + devices_of rest else devices_of rest

-- If every runtime's record lists its devices, the GPUs that are reserved are as many as the
-- devices of the active runtimes.
pub reserved_gpus_lem :
    (runtimes : List Runtime) → HaveDevices runtimes → reserved_gpus runtimes ≡ devices_of runtimes
unfolding reserved_gpus reserved_by
reserved_gpus_lem [] h = refl
reserved_gpus_lem (rt ∷ rest) h = ground (arith, reserved_gpus_lem rest h.1)

module _ {W : Type 0} (host : Host W) (s : Settings) where
  asks_for_one :
      (rt : Runtime) (a b : Agent W) (foreign : DeviceSet)
      → rt.gpu_count ≡ some 0
      → foreign_busy_devices host s a ≡ (returned foreign, b)
      → allocate_fresh host s rt a ≡ allocate_gpus rt.deployment_id 1 foreign b
  unfolding allocate_fresh ◌>>=◌ continue resume_gpu_count
  asks_for_one rt a b foreign zero_gpus probe = rw (probe, zero_gpus)

  one_granted :
      (d : String) (foreign : DeviceSet) (b : Agent W)
      → IsSound b.gpu_allocator
      → 1 ≤ length (usable (some foreign) b.gpu_allocator)
      → length (get_allocation d (allocate_gpus d 1 foreign b).1.gpu_allocator) ≡ 1
  unfolding allocate_gpus
  one_granted d foreign b sound free =
      let (l, e) = enough_usable d 1 (some foreign) b.gpu_allocator sound free in
      let g = allocate-Grant d 1 (some foreign) b.gpu_allocator l sound (omega arith) e in
      ap length g.recorded ∙ g.count

  -- When a suspended pod without a GPU resumes and the allocator has a usable device, the pod
  -- takes one.
  cpu_pod_resume_takes_one :
      (rt : Runtime) (a b : Agent W) (foreign : DeviceSet)
      → rt.gpu_count ≡ some 0
      → foreign_busy_devices host s a ≡ (returned foreign, b)
      → IsSound b.gpu_allocator
      → 1 ≤ length (usable (some foreign) b.gpu_allocator)
      → length (get_allocation rt.deployment_id (reacquire host s pod [] rt a).1.gpu_allocator) ≡ 1
  unfolding reacquire
  cpu_pod_resume_takes_one rt a b foreign zero_gpus probe sound free =
      rw (asks_for_one rt a b foreign zero_gpus probe)
        (one_granted rt.deployment_id foreign b sound free)
