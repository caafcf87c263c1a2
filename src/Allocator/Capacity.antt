-- ===== src/Allocator/Capacity.antt =====
-- The counts that `status` reports.
use greenference_node.Base.{
  ℕ, ◌+◌, ◌≡◌, refl, ap, String, [], ◌∷◌, arith, length, get_or, true, false, str_eq, eq_iff, inl,
  inr, str_eq_self,
}
use greenference_node.Dict.{Dict, lookup, IsUnique}
use greenference_node.Devices.{DeviceSet, mem, union, IsAscending}
use greenference_node.Devices.Laws.{mem-union}
use greenference_node.Devices.Order.{union-IsAscending, range-IsAscending}
use greenference_node.Devices.Count.{length-union, length-diff, length-range}
use greenference_node.Allocator.{
  none, GpuAllocator, collect, allocated_devices, free_devices, free_count, used_count,
  get_allocation,
}
use greenference_node.Allocator.Invariant.{IsSound, collect_holder}

-- The sizes of the sets in the dict, added up.
pub sum_sizes : Dict DeviceSet → ℕ
sum_sizes [] = 0
sum_sizes ((_, s) ∷ m) = length s + sum_sizes m

-- Each set ascends and is disjoint from what was collected before it.
abbrev Apart : DeviceSet → Dict DeviceSet → Type 0
Apart used [] = Unit
Apart used ((_, s) ∷ m) =
    IsAscending s × ((x : ℕ) → mem x s ≡ true → mem x used ≡ false) × Apart (union used s) m

abbrev find : String → Dict DeviceSet → DeviceSet
find d m = get_or (lookup d m) []

-- What the rest of a dict holds under a key, the whole dict holds under it.
found_later :
    (d k : String) (s : DeviceSet) (m : Dict DeviceSet) (x : ℕ)
    → lookup k m ≡ none
    → mem x (find d m) ≡ true
    → (str_eq k d ≡ false) × (mem x (find d ((k, s) ∷ m)) ≡ true)
unfolding lookup mem
found_later d k s m x u h = ground (arith, eq_iff k d)

apart_lem :
    (used : DeviceSet) (m : Dict DeviceSet)
    → IsUnique m
    → ((d : String) → IsAscending (find d m))
    → ((d e : String) (x : ℕ) → mem x (find d m) ≡ true → mem x (find e m) ≡ true → d ≡ e)
    → ((d : String) (x : ℕ) → mem x (find d m) ≡ true → mem x used ≡ false)
    → Apart used m
unfolding lookup mem
apart_lem used [] u asc excl fresh = tt
apart_lem used ((k, s) ∷ m) u asc excl fresh = (
  ground (arith, asc k, str_eq_self k),
  λ x h. ground (arith, fresh k x, str_eq_self k),
  apart_lem (union used s) m u.1 (λ d. ground (arith, asc d, eq_iff k d, u.0))
      (λ d e x h g. excl d e x (found_later d k s m x u.0 h).1 (found_later e k s m x u.0 g).1)
      (λ d x h.
        let (other, whole) = found_later d k s m x u.0 h in
        ground (
          arith,
          mem-union x used s,
          fresh d x whole,
          excl d k x whole,
          str_eq_self k,
          eq_iff k d,
        )),
)

length-collect :
    (used : DeviceSet) (m : Dict DeviceSet)
    → Apart used m
    → length (collect used m) ≡ length used + sum_sizes m
unfolding collect sum_sizes
length-collect used [] h = omega arith
length-collect used ((_, s) ∷ m) h =
    omega (arith, length-union used s h.0 h.1, length-collect (union used s) m h.2)

collect-IsAscending :
    (used : DeviceSet) (m : Dict DeviceSet) → IsAscending used → IsAscending (collect used m)
unfolding collect
collect-IsAscending used [] h = h
collect-IsAscending used ((_, s) ∷ m) h =
    collect-IsAscending (union used s) m (union-IsAscending used s h)

-- The sets of a sound allocator are disjoint, and every device in them is one of the node's.
allocated-Apart : (a : GpuAllocator) → IsSound a → Apart [] a.allocations
unfolding get_allocation mem
allocated-Apart a sound =
    apart_lem [] a.allocations sound.unique sound.ascending sound.exclusive (λ d x h. refl)

allocated-on_node :
    (x : ℕ) (a : GpuAllocator)
    → IsSound a
    → mem x (allocated_devices a) ≡ true
    → mem x a.device_ids ≡ true
unfolding allocated_devices get_allocation mem
allocated-on_node x a sound h = elim (collect_holder x [] a.allocations sound.unique h) [
  | inl m ↦ cc
  | inr (d, m) ↦ sound.in_range d x m
]

-- In a sound allocator the devices in use are as many as the deployments hold together, and with
-- the free ones they make up the node.
pub used_count_lem :
    (a : GpuAllocator)
    → IsSound a
    → (used_count a ≡ sum_sizes a.allocations) × (free_count a + used_count a ≡ a.total_gpus)
unfolding used_count free_count free_devices allocated_devices
used_count_lem a sound = omega (
  arith,
  length-collect [] a.allocations (allocated-Apart a sound),
  length-diff a.device_ids (allocated_devices a) (rw sound.ids (range-IsAscending a.total_gpus))
      (collect-IsAscending [] a.allocations tt) (λ x h. allocated-on_node x a sound h),
  ap {B = ℕ} length sound.ids,
  length-range a.total_gpus,
)
