-- ===== src/Allocator/Examples.antt =====
-- The allocator's theorems on a node of four GPUs.
use greenference_node.Base.{ℕ, ◌≡◌, ◌↔◌, refl, arith, String, none, some, List, [], ◌∷◌, true}
use greenference_node.Dict.{lookup, insert, erase}
use greenference_node.Devices.{mem, of_list, add, union, diff, inter, range}
use greenference_node.Allocator.{
  GpuAllocator, granted, refused, exceeds_node, new_allocator, collect, allocated_devices,
  free_devices, get_allocation, assign, usable, allocate, is_empty, allocate_specific, release,
  overlaps, rehydrate,
}
use greenference_node.Allocator.Invariant.{IsSound, holds, new_allocator-IsSound, allocate-IsSound}
use greenference_node.Allocator.Grants.{Grant, allocate-Grant}
use greenference_node.Allocator.Decisions.{Room, IsOpen, allocate_iff, allocate_specific_iff}
use greenference_node.Allocator.Interleaving.{
  Calls, here, next, allocates, releases, no_double_allocation,
}

abbrev four : GpuAllocator
four = new_allocator 4

-- the deployment "a" has the devices 0 and 1
abbrev loaded : GpuAllocator
loaded = (allocate "a" 2 none four).1

loaded-IsSound : IsSound loaded
loaded-IsSound = allocate-IsSound "a" 2 none four (new_allocator-IsSound 4)

granted_three : (allocate "b" 1 (some (2 ∷ [])) loaded).0 ≡ granted (3 ∷ [])
unfolding allocate usable free_devices allocated_devices collect new_allocator range diff mem
    of_list add union assign lookup insert
granted_three = refl

allocate-Grant_example :
    Grant "b" 1 (some (2 ∷ [])) loaded (3 ∷ []) (allocate "b" 1 (some (2 ∷ [])) loaded).1
allocate-Grant_example =
    allocate-Grant "b" 1 (some (2 ∷ [])) loaded (3 ∷ []) loaded-IsSound (omega arith) granted_three

allocate_iff_example :
    ((l : List ℕ) × ((allocate "b" 3 none loaded).0 ≡ granted l))
    ↔ ((l : List ℕ) × Room 3 none loaded l)
allocate_iff_example = allocate_iff "b" 3 none loaded loaded-IsSound

refused_five : (allocate "b" 5 none loaded).0 ≡ refused (exceeds_node 5 4)
unfolding allocate assign usable new_allocator diff free_devices range mem allocated_devices
refused_five = refl

allocate_specific_iff_example :
    ((l : List ℕ) × ((allocate_specific "b" (1 ∷ 2 ∷ []) loaded).0 ≡ granted l))
    ↔ ((x : ℕ) → mem x (1 ∷ 2 ∷ []) ≡ true → IsOpen "b" loaded x)
allocate_specific_iff_example = allocate_specific_iff "b" (1 ∷ 2 ∷ []) loaded loaded-IsSound

on_node : (x : ℕ) → mem x (3 ∷ 2 ∷ []) ≡ true → mem x loaded.device_ids ≡ true
unfolding mem allocate usable free_devices allocated_devices collect new_allocator range diff
    of_list add union assign lookup insert
on_node x h = ground arith

quiet_three : (rehydrate "c" (3 ∷ 2 ∷ []) loaded).0 ≡ []
unfolding rehydrate overlaps inter is_empty allocate usable free_devices allocated_devices collect
    new_allocator range diff mem of_list add union assign lookup insert
quiet_three = refl

busy-Calls : Calls four (allocate "b" 1 none (release "c" loaded).1).1
busy-Calls =
    next (next (next here (allocates "a" 2 none four)) (releases "c" loaded))
      (allocates "b" 1 none (release "c" loaded).1)

held_two : holds "b" 2 (allocate "b" 1 none (release "c" loaded).1).1 ≡ true
unfolding release erase allocate usable free_devices allocated_devices collect new_allocator range
    diff mem of_list add union assign lookup insert get_allocation
held_two = refl

no_double_allocation_example : ◌≡◌ {A = String} "b" "b"
no_double_allocation_example = no_double_allocation 4 busy-Calls "b" "b" 2 held_two held_two
