-- ===== src/Allocator/Grants.antt =====
-- What `allocate` and `allocate_specific` hand out.
use greenference_node.Base.{
  ℕ, ◌<◌, ◌≤◌, ◌≡◌, ◌≢◌, refl, String, Option, List, [], ◌∷◌, arith, length, take, get_or, true,
  false, eq_iff, not, ◌&&◌, ◌∙◌, length-take, str_eq_self, ap,
}
use greenference_node.Devices.{DeviceSet, mem, of_list, subset, IsAscending}
use greenference_node.Devices.Laws.{mem-union, mem-diff, mem-of_list, subset_of_mem}
use greenference_node.Devices.Order.{
  of_list-IsAscending, range-IsAscending, diff-IsAscending, take-IsAscending,
}
use greenference_node.Devices.Count.{mem-take, eq_of_mem, length-diff-le, length-range}
use greenference_node.Allocator.{
  GpuAllocator, GpuAllocationError, granted, refused, allocated_devices, free_devices,
  get_allocation, assign, usable, allocate, available, is_empty, allocate_specific, release,
}
use greenference_node.Allocator.Invariant.{
  IsSound, holds, get_allocation-assign, get_allocation-release, holds-mem-free, mem-free_of_unheld,
  release-IsSound,
}

free_devices-IsAscending : (a : GpuAllocator) → IsSound a → IsAscending (free_devices a)
unfolding free_devices
free_devices-IsAscending a sound =
    diff-IsAscending a.device_ids (allocated_devices a)
      (rw sound.ids (range-IsAscending a.total_gpus))

pub usable-IsAscending :
    (avoid : Option DeviceSet) (a : GpuAllocator) → IsSound a → IsAscending (usable avoid a)
unfolding usable
usable-IsAscending avoid a sound =
    diff-IsAscending (free_devices a) (get_or avoid []) (free_devices-IsAscending a sound)

-- No more devices are usable than the node has.
pub usable-le-total :
    (avoid : Option DeviceSet) (a : GpuAllocator)
    → IsSound a
    → length (usable avoid a) ≤ a.total_gpus
unfolding usable free_devices
usable-le-total avoid a sound = omega (
  arith,
  length-diff-le (free_devices a) (get_or avoid []),
  length-diff-le a.device_ids (allocated_devices a),
  length-range a.total_gpus,
  ap {B = ℕ} length sound.ids,
)

-- `set(allocated)` has the elements of `allocated` in its order.
of_list-take : (n : ℕ) (s : DeviceSet) → IsAscending s → of_list (take n s) ≡ take n s
of_list-take n s asc =
    eq_of_mem (of_list (take n s)) (take n s) (of_list-IsAscending (take n s))
      (take-IsAscending n s asc) (λ x. mem-of_list x (take n s))

of_list_self : (s : DeviceSet) → IsAscending s → of_list s ≡ s
of_list_self s asc = eq_of_mem (of_list s) s (of_list-IsAscending s) asc (λ x. mem-of_list x s)

-- What a caller of `allocate` may rely on.
pub record Grant (d : String) (n : ℕ) (avoid : Option DeviceSet) (a : GpuAllocator) (l : List ℕ)
    (b : GpuAllocator) : Type 0 where
  pub count : length l ≡ n
  pub sorted : IsAscending l
  pub unheld : (e : String) (x : ℕ) → mem x l ≡ true → holds e x a ≡ false
  pub not_avoided : (x : ℕ) → mem x l ≡ true → mem x (get_or avoid []) ≡ false
  pub recorded : get_allocation d b ≡ l
  pub others : (e : String) → d ≢ e → get_allocation e b ≡ get_allocation e a

pub Grant-take :
    (d : String) (n : ℕ) (avoid : Option DeviceSet) (a : GpuAllocator)
    → IsSound a
    → n ≤ length (usable avoid a)
    → Grant d n avoid a (take n (usable avoid a)) (assign d (of_list (take n (usable avoid a))) a)
Grant-take d n avoid a sound enough = record {
  count = omega (arith, length-take n (usable avoid a));
  sorted = take-IsAscending n (usable avoid a) (usable-IsAscending avoid a sound);
  unheld =
      λ e x m. ground (arith, holds-mem-free e x a, mem-take x n (usable avoid a) m, unusable x);
  not_avoided = λ x m. ground (arith, mem-take x n (usable avoid a) m, unusable x);
  recorded =
      get_allocation-assign d d (of_list (take n (usable avoid a))) a
      ∙ rw (str_eq_self d) (of_list-take n (usable avoid a) (usable-IsAscending avoid a sound));
  others = λ e ne.
      ground (arith, get_allocation-assign d e (of_list (take n (usable avoid a))) a, eq_iff d e);
}
  where
    unusable :
        (x : ℕ) → mem x (usable avoid a) ≡ (mem x (free_devices a) && not (mem x (get_or avoid [])))
    unusable x = unfold usable in mem-diff x (free_devices a) (get_or avoid [])

pub granted_by :
    (d : String) (n : ℕ) (avoid : Option DeviceSet) (a : GpuAllocator) (l : List ℕ)
    → 0 < n
    → (allocate d n avoid a).0 ≡ granted l
    → (n ≤ length (usable avoid a))
      × (l ≡ take n (usable avoid a))
      × ((allocate d n avoid a).1 ≡ assign d (of_list (take n (usable avoid a))) a)
unfolding allocate
granted_by d n avoid a l pos e = ground arith

-- From a sound allocator, a request for n > 0 devices that is granted returns n devices in
-- ascending order, none of them held by any deployment or listed in `avoid`; the deployment then
-- holds exactly those, and every other deployment holds what it held.
pub allocate-Grant :
    (d : String) (n : ℕ) (avoid : Option DeviceSet) (a : GpuAllocator) (l : List ℕ)
    → IsSound a
    → 0 < n
    → (allocate d n avoid a).0 ≡ granted l
    → Grant d n avoid a l (allocate d n avoid a).1
allocate-Grant d n avoid a l sound pos e =
    let (enough, taken, after) = granted_by d n avoid a l pos e in
    rw (after, taken) (Grant-take d n avoid a sound enough)

-- A request that `allocate` refuses leaves the allocator as it was.
pub refused_unchanged :
    (d : String) (n : ℕ) (avoid : Option DeviceSet) (a : GpuAllocator) (e : GpuAllocationError)
    → (allocate d n avoid a).0 ≡ refused e
    → (allocate d n avoid a).1 ≡ a
unfolding allocate
refused_unchanged d n avoid a e h = ground arith

released_available :
    (d : String) (a : GpuAllocator)
    → IsSound a
    → subset (get_allocation d a) (available d (release d a).1) ≡ true
unfolding available mem release
released_available d a sound =
    subset_of_mem (get_allocation d a) (available d (release d a).1) λ x m.
      mem-union x (free_devices (release d a).1) (get_allocation d (release d a).1)
      ∙ ground (
        arith,
        mem-free_of_unheld x (release d a).1 (release-IsSound d a sound) (sound.in_range d x m)
            λ e. ground (arith, get_allocation-release d e a, eq_iff d e, sound.exclusive d e x m),
      )

empty_lem : (s : DeviceSet) → is_empty s ≡ true → s ≡ []
unfolding is_empty
empty_lem [] h = refl
empty_lem (x ∷ s) h = cc

-- A pod that is suspended and resumed gets back its devices: after `release`, the same devices can
-- be reserved again, and then every deployment holds what it held before.
allocate_specific-release :
    (d : String) (a : GpuAllocator)
    → IsSound a
    → ((allocate_specific d (get_allocation d a) (release d a).1).0 ≡ granted (get_allocation d a))
      × ((e : String)
          → get_allocation e (allocate_specific d (get_allocation d a) (release d a).1).1
            ≡ get_allocation e a)
unfolding allocate_specific
allocate_specific-release d a sound =
    rw (of_list_self (get_allocation d a) (sound.ascending d), released_available d a sound)
      (
        ground (arith, empty_lem (get_allocation d a)),
        λ e. ground (
          arith,
          empty_lem (get_allocation d a),
          get_allocation-assign d e (get_allocation d a) (release d a).1,
          get_allocation-release d e a,
          eq_iff d e,
        ),
      )
