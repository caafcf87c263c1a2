-- ===== src/Allocator/Rehydration.antt =====
-- `rehydrate`, which records what a container already runs on.
use greenference_node.Base.{
  ℕ, ◌≡◌, refl, String, List, [], ◌∷◌, arith, get_or, true, false, str_eq, eq_iff, Bool-cases, inl,
  inr,
}
use greenference_node.Dict.{Dict, lookup}
use greenference_node.Devices.{DeviceSet, mem, of_list, inter}
use greenference_node.Devices.Laws.{mem-inter, mem-of_list}
use greenference_node.Devices.Order.{of_list-IsAscending}
use greenference_node.Allocator.{
  GpuAllocator, free_devices, is_empty, overlaps, rehydrate, get_allocation,
}
use greenference_node.Allocator.Invariant.{
  IsSound, holds, assign-IsSound, holds-mem-free, get_allocation-assign,
}

none_of_empty : (x : ℕ) (s : DeviceSet) → is_empty s ≡ true → mem x s ≡ false
unfolding is_empty mem
none_of_empty x [] h = refl
none_of_empty x (y ∷ s) h = cc

-- With nothing to warn about, no other deployment has any of the devices.
overlaps_lem :
    (d e : String) (x : ℕ) (want : DeviceSet) (m : Dict DeviceSet)
    → overlaps d want m ≡ []
    → str_eq e d ≡ false
    → mem x want ≡ true
    → mem x (get_or (lookup e m) []) ≡ false
unfolding overlaps lookup mem
overlaps_lem d e x want [] h ne w = refl
overlaps_lem d e x want ((k, s) ∷ m) h ne w = ground (
  arith,
  eq_iff k e,
  eq_iff k d,
  eq_iff e d,
  mem-inter x want s,
  none_of_empty x (inter want s),
  overlaps_lem d e x want m,
)

-- The devices that are rehydrated are not free afterwards, whoever else holds them.
pub rehydrate_reserves :
    (d : String) (devices : List ℕ) (x : ℕ) (a : GpuAllocator)
    → mem x devices ≡ true
    → (holds d x (rehydrate d devices a).1 ≡ true)
      × (mem x (free_devices (rehydrate d devices a).1) ≡ false)
rehydrate_reserves d devices x a m = (held, holds-mem-free d x (rehydrate d devices a).1 held)
  where
    held : holds d x (rehydrate d devices a).1 ≡ true
    held =
        unfold rehydrate in
        ground
          (arith, get_allocation-assign d d (of_list devices) a, mem-of_list x devices, eq_iff d d)

-- Rehydrating devices of the node with no overlap to warn about keeps the allocator sound.
pub rehydrate-IsSound :
    (d : String) (devices : List ℕ) (a : GpuAllocator)
    → IsSound a
    → ((x : ℕ) → mem x devices ≡ true → mem x a.device_ids ≡ true)
    → (rehydrate d devices a).0 ≡ []
    → IsSound (rehydrate d devices a).1
unfolding rehydrate get_allocation
rehydrate-IsSound d devices a sound on quiet =
    assign-IsSound d (of_list devices) a sound (of_list-IsAscending devices)
      (λ x m. on x (cc (mem-of_list x devices)))
      λ x e m h. elim (Bool-cases (str_eq e d)) [
        | inl same ↦ ground (arith, eq_iff e d)
        | inr other ↦ cc (overlaps_lem d e x (of_list devices) a.allocations quiet other m)
      ]
