-- ===== src/Allocator.antt =====
-- services/node-agent/src/greencompute_node_agent/domain/gpu_allocator.py: which physical GPU
-- belongs to which deployment. Device indices and counts are naturals, a set of indices is an
-- ascending list, and every method runs under the allocator's lock, so it is one step.
pub mod Invariant
pub mod Grants
pub mod Decisions
pub mod Capacity
pub mod Rehydration
pub mod Interleaving
mod Examples
use greenference_node.Base.{
  ℕ, ◌-◌, String, Option, none, some, List, [], ◌∷◌, ltb, ◌==◌, if◌then◌else◌, length, take, get_or,
  not, Bool, true, false, str_eq, ◌&&◌,
}
use greenference_node.Dict.{Dict, lookup, insert, erase}
use greenference_node.Devices.{DeviceSet, of_list, union, diff, inter, subset, range}

-- GpuAllocationError, by the place that raises it.
pub data GpuAllocationError : Type 0 where
  exceeds_node : ℕ → ℕ → GpuAllocationError
  not_enough_free : ℕ → ℕ → GpuAllocationError
  already_in_use : DeviceSet → GpuAllocationError

pub data Granted : Type 0 where
  granted : List ℕ → Granted
  refused : GpuAllocationError → Granted

pub record GpuAllocator : Type 0 where
  pub total_gpus : ℕ
  pub device_ids : DeviceSet
  pub allocations : Dict DeviceSet

-- __init__
unfoldable pub new_allocator : ℕ → GpuAllocator
new_allocator total_gpus = record {
  total_gpus = total_gpus;
  device_ids = range total_gpus;
  allocations = [];
}

-- `used |= devices` over the values of the dict
unfoldable pub collect : DeviceSet → Dict DeviceSet → DeviceSet
collect used [] = used
collect used ((_, devices) ∷ rest) = collect (union used devices) rest

unfoldable pub allocated_devices : GpuAllocator → DeviceSet
unfolding collect
allocated_devices a = collect [] a.allocations

unfoldable pub free_devices : GpuAllocator → DeviceSet
free_devices a = diff a.device_ids (allocated_devices a)

unfoldable pub free_count : GpuAllocator → ℕ
free_count a = length (free_devices a)

unfoldable pub used_count : GpuAllocator → ℕ
used_count a = a.total_gpus - free_count a

-- `self._allocations.get(deployment_id, set())`, sorted
unfoldable pub get_allocation : String → GpuAllocator → DeviceSet
get_allocation deployment_id a = get_or (lookup deployment_id a.allocations) []

-- `self._allocations[deployment_id] = devices`
unfoldable pub assign : String → DeviceSet → GpuAllocator → GpuAllocator
assign deployment_id devices a = record a {
  allocations = insert deployment_id devices a.allocations;
}

-- free devices outside `avoid`
unfoldable pub usable : Option DeviceSet → GpuAllocator → DeviceSet
usable avoid a = diff (free_devices a) (get_or avoid [])

unfoldable pub allocate : String → ℕ → Option DeviceSet → GpuAllocator → Granted × GpuAllocator
allocate deployment_id gpu_count avoid a =
    let free = usable avoid a in
    if gpu_count == 0
    then (granted [], a)
    else if ltb a.total_gpus gpu_count
    then (refused (exceeds_node gpu_count a.total_gpus), a)
    else if ltb (length free) gpu_count
    then (refused (not_enough_free gpu_count (length free)), a)
    else (granted (take gpu_count free), assign deployment_id (of_list (take gpu_count free)) a)

-- what `allocate_specific` may give to the deployment: what is free, and what it has
unfoldable pub available : String → GpuAllocator → DeviceSet
available deployment_id a = union (free_devices a) (get_allocation deployment_id a)

unfoldable pub is_empty : DeviceSet → Bool
is_empty [] = true
is_empty (_ ∷ _) = false

unfoldable pub allocate_specific : String → List ℕ → GpuAllocator → Granted × GpuAllocator
unfolding is_empty
allocate_specific deployment_id devices a =
    let want = of_list devices in
    if is_empty want
    then (granted [], a)
    else if subset want (available deployment_id a)
    then (granted want, assign deployment_id want a)
    else (refused (already_in_use (diff want (available deployment_id a))), a)

unfoldable pub release : String → GpuAllocator → List ℕ × GpuAllocator
release deployment_id a =
    (get_allocation deployment_id a, record a { allocations = erase deployment_id a.allocations })

-- the dict of overlaps that `rehydrate` warns about
unfoldable pub overlaps : String → DeviceSet → Dict DeviceSet → Dict (List ℕ)
unfolding is_empty
overlaps deployment_id want [] = []
overlaps deployment_id want ((dep, alloc) ∷ rest) =
    let tail = overlaps deployment_id want rest in
    if not (str_eq dep deployment_id) && not (is_empty (inter want alloc))
    then (dep, inter want alloc) ∷ tail
    else tail

-- It never refuses: the devices are recorded, and the overlaps are for the log.
unfoldable pub rehydrate : String → List ℕ → GpuAllocator → Dict (List ℕ) × GpuAllocator
unfolding overlaps
rehydrate deployment_id devices a =
    let want = of_list devices in
    (overlaps deployment_id want a.allocations, assign deployment_id want a)

pub record Status : Type 0 where
  pub total_gpus : ℕ
  pub free_gpus : ℕ
  pub used_gpus : ℕ
  pub allocations : Dict (List ℕ)

unfoldable pub status : GpuAllocator → Status
status a = record {
  total_gpus = a.total_gpus;
  free_gpus = free_count a;
  used_gpus = used_count a;
  allocations = a.allocations;
}
