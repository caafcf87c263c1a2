-- ===== src/Allocator/Invariant.antt =====
-- The soundness of an allocator, which has one owner for a device, under the methods.
use greenference_node.Base.{
  str_eq_self, ◌⊎◌, ℕ, ◌≡◌, refl, String, Option, List, [], ◌∷◌, arith, take, get_or, true, false,
  str_eq, eq_iff, if◌then◌else◌, Bool-cases, inl, inr, Bool, ◌||◌, sym, ◌∙◌,
}
use greenference_node.Dict.{
  Dict, lookup, IsUnique, insert-IsUnique, erase-IsUnique, lookup-insert, lookup-erase,
}
use greenference_node.Devices.{DeviceSet, mem, of_list, union, subset, range, IsAscending}
use greenference_node.Devices.Laws.{mem-union, mem-diff, mem-of_list, mem-of-subset}
use greenference_node.Devices.Order.{of_list-IsAscending}
use greenference_node.Devices.Count.{mem-take}
use greenference_node.Allocator.{
  GpuAllocator, new_allocator, collect, allocated_devices, free_devices, get_allocation, assign,
  usable, allocate, available, allocate_specific, release,
}

-- The deployment holds the device.
abbrev pub holds : String → ℕ → GpuAllocator → Bool
holds dep x a = mem x (get_allocation dep a)

pub record IsSound (a : GpuAllocator) : Type 0 where
  pub ids : a.device_ids ≡ range a.total_gpus
  pub unique : IsUnique a.allocations
  pub ascending : (dep : String) → IsAscending (get_allocation dep a)
  pub in_range : (dep : String) (x : ℕ) → holds dep x a ≡ true → mem x a.device_ids ≡ true
  pub exclusive : (d e : String) (x : ℕ) → holds d x a ≡ true → holds e x a ≡ true → d ≡ e

pub get_allocation-assign :
    (d e : String) (s : DeviceSet) (a : GpuAllocator)
    → get_allocation e (assign d s a) ≡ (if str_eq d e then s else get_allocation e a)
unfolding get_allocation assign
get_allocation-assign d e s a = rw lookup-insert (ground arith)

pub get_allocation-release :
    (d e : String) (a : GpuAllocator)
    → get_allocation e (release d a).1 ≡ (if str_eq d e then [] else get_allocation e a)
unfolding get_allocation release
get_allocation-release d e a = rw lookup-erase (ground arith)

device_ids-assign :
    (d : String) (s : DeviceSet) (a : GpuAllocator) → (assign d s a).device_ids ≡ a.device_ids
unfolding assign
device_ids-assign d s a = refl

-- What is collected holds the start and every value of the dict.
mem-collect :
    (x : ℕ) (used : DeviceSet) (m : Dict DeviceSet)
    → mem x used ≡ true
    → mem x (collect used m) ≡ true
unfolding collect
mem-collect x used [] h = h
mem-collect x used ((d, s) ∷ m) h = mem-collect x (union used s) m (rw mem-union (ground arith))

mem-collect_value :
    (x : ℕ) (d : String) (used : DeviceSet) (m : Dict DeviceSet)
    → mem x (get_or (lookup d m) []) ≡ true
    → mem x (collect used m) ≡ true
unfolding collect lookup mem
mem-collect_value x d used [] h = cc
mem-collect_value x d used ((e, s) ∷ m) h = elim (Bool-cases (str_eq e d)) [
  | inl p ↦ mem-collect x (union used s) m (rw mem-union (ground arith))
  | inr p ↦ mem-collect_value x d (union used s) m (ground arith)
]

-- What somebody holds is not free.
pub holds-mem-free :
    (d : String) (x : ℕ) (a : GpuAllocator) → holds d x a ≡ true → mem x (free_devices a) ≡ false
unfolding free_devices allocated_devices get_allocation
holds-mem-free d x a h = rw mem-diff (ground (arith, mem-collect_value x d [] a.allocations))

-- Who holds a device that is collected.
pub collect_holder :
    (x : ℕ) (used : DeviceSet) (m : Dict DeviceSet)
    → IsUnique m
    → mem x (collect used m) ≡ true
    → (mem x used ≡ true) ⊎ ((d : String) × (mem x (get_or (lookup d m) []) ≡ true))
unfolding collect lookup mem
collect_holder x used [] u h = inl h
collect_holder x used ((e, s) ∷ m) u h = elim (collect_holder x (union used s) m u.1 h) [
  | inl here ↦ elim (Bool-cases (mem x used)) [
    | inl old ↦ inl old
    | inr new ↦ inr (e, rw (str_eq_self e) (ground (arith, mem-union x used s)))
  ]
  | inr (d, later) ↦ inr (d, ground (arith, u.0, eq_iff e d))
]

-- A device of the node that nobody holds is free.
pub mem-free_of_unheld :
    (x : ℕ) (a : GpuAllocator)
    → IsSound a
    → mem x a.device_ids ≡ true
    → ((d : String) → holds d x a ≡ false)
    → mem x (free_devices a) ≡ true
unfolding free_devices allocated_devices get_allocation mem
mem-free_of_unheld x a sound on free = elim (Bool-cases (mem x (collect [] a.allocations))) [
  | inl used ↦ elim (collect_holder x [] a.allocations sound.unique used) [
    | inl m ↦ cc
    | inr (d, m) ↦ cc (free d)
  ]
  | inr unused ↦ ground (arith, mem-diff x a.device_ids (collect [] a.allocations))
]

module _ (d : String) (s : DeviceSet) (a : GpuAllocator) (sound : IsSound a) where
  -- A set that ascends, lies on the node and is held by nobody else may be assigned.
  pub assign-IsSound :
      IsAscending s
      → ((x : ℕ) → mem x s ≡ true → mem x a.device_ids ≡ true)
      → ((x : ℕ) (e : String) → mem x s ≡ true → holds e x a ≡ true → d ≡ e)
      → IsSound (assign d s a)
  assign-IsSound asc range_of apart = record {
    ids = unfold assign in sound.ids;
    unique = unfold assign in insert-IsUnique d s a.allocations sound.unique;
    ascending = λ e. rw get_allocation-assign (ground (arith, sound.ascending e));
    in_range = λ e x m. ground (
      arith,
      device_ids-assign d s a,
      get_allocation-assign d e s a,
      range_of x,
      sound.in_range e x,
    );
    exclusive = λ e f x m n. ground (
      arith,
      get_allocation-assign d e s a,
      get_allocation-assign d f s a,
      eq_iff d e,
      eq_iff d f,
      apart x e,
      apart x f,
      sound.exclusive e f x,
    );
  }

-- A new allocator gives nothing to anybody.
pub new_allocator-IsSound : (n : ℕ) → IsSound (new_allocator n)
unfolding new_allocator get_allocation lookup mem
new_allocator-IsSound n = record {
  ids = refl;
  unique = tt;
  ascending = λ e. tt;
  in_range = λ e x m. cc;
  exclusive = λ e f x m. cc;
}

usable-free :
    (avoid : Option DeviceSet) (x : ℕ) (a : GpuAllocator)
    → mem x (usable avoid a) ≡ true
    → mem x (free_devices a) ≡ true
unfolding usable
usable-free avoid x a h = ground (arith, mem-diff x (free_devices a) (get_or avoid []))

free-on_node :
    (x : ℕ) (a : GpuAllocator) → mem x (free_devices a) ≡ true → mem x a.device_ids ≡ true
unfolding free_devices
free-on_node x a h = ground (arith, mem-diff x a.device_ids (allocated_devices a))

-- Handing out usable devices keeps the allocator sound.
grant-IsSound :
    (d : String) (n : ℕ) (avoid : Option DeviceSet) (a : GpuAllocator)
    → IsSound a
    → IsSound (assign d (of_list (take n (usable avoid a))) a)
grant-IsSound d n avoid a sound =
    assign-IsSound d (of_list (take n (usable avoid a))) a sound
      (of_list-IsAscending (take n (usable avoid a))) (λ x m. free-on_node x a (taken x m))
      (λ x e m h. cc (holds-mem-free e x a h, taken x m))
  where
    taken :
        (x : ℕ) → mem x (of_list (take n (usable avoid a))) ≡ true → mem x (free_devices a) ≡ true
    taken x m =
        usable-free avoid x a
          (mem-take x n (usable avoid a) (sym (mem-of_list x (take n (usable avoid a))) ∙ m))

pub allocate-IsSound :
    (d : String) (n : ℕ) (avoid : Option DeviceSet) (a : GpuAllocator)
    → IsSound a
    → IsSound (allocate d n avoid a).1
unfolding allocate
allocate-IsSound d n avoid a sound = ground (arith, grant-IsSound d n avoid a sound)

reserve-IsSound :
    (d : String) (want : DeviceSet) (a : GpuAllocator)
    → IsSound a
    → IsAscending want
    → subset want (available d a) ≡ true
    → IsSound (assign d want a)
unfolding available
reserve-IsSound d want a sound asc inside =
    assign-IsSound d want a sound asc
      (λ x m. ground (arith, free-on_node x a, sound.in_range d x, split x m))
      (λ x e m h. ground (arith, holds-mem-free e x a h, sound.exclusive d e x, split x m))
  where
    split :
        (x : ℕ) → mem x want ≡ true → (mem x (free_devices a) || mem x (get_allocation d a)) ≡ true
    split x m =
        sym (mem-union x (free_devices a) (get_allocation d a))
        ∙ mem-of-subset x want (available d a) inside m

pub allocate_specific-IsSound :
    (d : String) (devices : List ℕ) (a : GpuAllocator)
    → IsSound a
    → IsSound (allocate_specific d devices a).1
unfolding allocate_specific
allocate_specific-IsSound d devices a sound =
    ground (arith, reserve-IsSound d (of_list devices) a sound (of_list-IsAscending devices))

device_ids-release : (d : String) (a : GpuAllocator) → (release d a).1.device_ids ≡ a.device_ids
unfolding release
device_ids-release d a = refl

pub release-IsSound : (d : String) (a : GpuAllocator) → IsSound a → IsSound (release d a).1
unfolding mem
release-IsSound d a sound = record {
  ids = unfold release in sound.ids;
  unique = unfold release in erase-IsUnique d a.allocations sound.unique;
  ascending = λ e. rw get_allocation-release (ground (arith, sound.ascending e));
  in_range = λ e x m.
      ground (arith, device_ids-release d a, get_allocation-release d e a, sound.in_range e x);
  exclusive = λ e f x m n.
      ground
        (arith, get_allocation-release d e a, get_allocation-release d f a, sound.exclusive e f x);
}
