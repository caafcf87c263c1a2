-- ===== src/Allocator/Interleaving.antt =====
-- The heartbeat loop, the worker loop and the routes call the allocator from their own threads. A
-- method holds the lock from its first read to its last write, so a run is a sequence of calls.
use greenference_node.Base.{ℕ, ◌≡◌, String, Option, List, true}
use greenference_node.Devices.{DeviceSet}
use greenference_node.Allocator.{GpuAllocator, new_allocator, allocate, allocate_specific, release}
use greenference_node.Allocator.Invariant.{
  IsSound, holds, new_allocator-IsSound, allocate-IsSound, allocate_specific-IsSound,
  release-IsSound,
}

-- One call, by any thread.
pub data Call : GpuAllocator → GpuAllocator → Type 0 where
  allocates :
      (d : String) (n : ℕ) (avoid : Option DeviceSet) (a : GpuAllocator)
      → Call a (allocate d n avoid a).1
  reserves :
      (d : String) (devices : List ℕ) (a : GpuAllocator) → Call a (allocate_specific d devices a).1
  releases : (d : String) (a : GpuAllocator) → Call a (release d a).1

pub data Calls (a : GpuAllocator) : GpuAllocator → Type 0 where
  here : Calls a a
  next : {b c : GpuAllocator} → Calls a b → Call b c → Calls a c

Call-IsSound : {a b : GpuAllocator} → Call a b → IsSound a → IsSound b
Call-IsSound (allocates d n avoid a) h = allocate-IsSound d n avoid a h
Call-IsSound (reserves d devices a) h = allocate_specific-IsSound d devices a h
Call-IsSound (releases d a) h = release-IsSound d a h

pub Calls-IsSound : {a b : GpuAllocator} → IsSound a → Calls a b → IsSound b
Calls-IsSound h here = h
Calls-IsSound h (next r c) = Call-IsSound c (Calls-IsSound h r)

-- However the threads' calls of `allocate`, `allocate_specific` and `release` interleave on a new
-- allocator, no device is held by two deployments.
pub no_double_allocation :
    (n : ℕ) {b : GpuAllocator}
    → Calls (new_allocator n) b
    → (d e : String) (x : ℕ) → holds d x b ≡ true
    → holds e x b ≡ true
    → d ≡ e
no_double_allocation n calls = (Calls-IsSound (new_allocator-IsSound n) calls).exclusive
