-- ===== src/Allocator/Decisions.antt =====
-- When `allocate` and `allocate_specific` grant a request.
use greenference_node.Base.{
  ℕ, ◌<◌, ◌≤◌, ◌≡◌, ◌↔◌, refl, String, Option, List, [], ◌∷◌, arith, length, take, get_or, true,
  false, Bool-cases, inl, inr, ◌||◌, sym, ◌∙◌, ◌==◌,
}
use greenference_node.Devices.{DeviceSet, mem, of_list, union, subset, IsAscending}
use greenference_node.Devices.Laws.{
  mem-union, mem-diff, mem-of_list, subset_of_mem, mem-of-subset, mem-range,
}
use greenference_node.Devices.Count.{mem-take, length-diff}
use greenference_node.Allocator.{
  GpuAllocator, granted, allocated_devices, free_devices, get_allocation, usable, allocate,
  available, is_empty, allocate_specific,
}
use greenference_node.Allocator.Invariant.{IsSound, holds, holds-mem-free, mem-free_of_unheld}
use greenference_node.Allocator.Grants.{usable-IsAscending, usable-le-total, Grant-take}

-- `n` devices that could be handed out: they are devices of the node, in ascending order, no
-- deployment holds one of them, and `avoid` lists none.
pub record Room (n : ℕ) (avoid : Option DeviceSet) (a : GpuAllocator) (l : List ℕ) : Type 0 where
  pub count : length l ≡ n
  pub sorted : IsAscending l
  pub on_node : (x : ℕ) → mem x l ≡ true → x < a.total_gpus
  pub unheld : (e : String) (x : ℕ) → mem x l ≡ true → holds e x a ≡ false
  pub not_avoided : (x : ℕ) → mem x l ≡ true → mem x (get_or avoid []) ≡ false

on_node_iff :
    (x : ℕ) (a : GpuAllocator) → IsSound a → (mem x a.device_ids ≡ true) ↔ (x < a.total_gpus)
on_node_iff x a sound =
    rw sound.ids
      (λ m. ground (arith, mem-range x a.total_gpus), λ h. ground (arith, mem-range x a.total_gpus))

Room-take :
    (n : ℕ) (avoid : Option DeviceSet) (a : GpuAllocator)
    → IsSound a
    → n ≤ length (usable avoid a)
    → Room n avoid a (take n (usable avoid a))
Room-take n avoid a sound enough =
    let g = Grant-take "" n avoid a sound enough in
    record {
      count = g.count;
      sorted = g.sorted;
      on_node = λ x m. (on_node_iff x a sound).0 (on x (mem-take x n (usable avoid a) m));
      unheld = g.unheld;
      not_avoided = g.not_avoided;
    }
  where
    on : (x : ℕ) → mem x (usable avoid a) ≡ true → mem x a.device_ids ≡ true
    on x m =
        unfold usable free_devices in
        ground (
          arith,
          m,
          mem-diff x (free_devices a) (get_or avoid []),
          mem-diff x a.device_ids (allocated_devices a),
        )

Room-le-usable :
    (n : ℕ) (avoid : Option DeviceSet) (a : GpuAllocator) (l : List ℕ)
    → IsSound a
    → Room n avoid a l
    → n ≤ length (usable avoid a)
Room-le-usable n avoid a l sound room = omega (
  arith,
  room.count,
  length-diff (usable avoid a) l (usable-IsAscending avoid a sound) room.sorted inside,
)
  where
    inside : (x : ℕ) → mem x l ≡ true → mem x (usable avoid a) ≡ true
    inside x m =
        let free =
          mem-free_of_unheld x a sound ((on_node_iff x a sound).1 (room.on_node x m))
            (λ e. room.unheld e x m) in
        let spare = room.not_avoided x m in
        unfold usable in ground (arith, mem-diff x (free_devices a) (get_or avoid []))

pub enough_usable :
    (d : String) (n : ℕ) (avoid : Option DeviceSet) (a : GpuAllocator)
    → IsSound a
    → n ≤ length (usable avoid a)
    → (l : List ℕ) × ((allocate d n avoid a).0 ≡ granted l)
unfolding allocate
enough_usable d n avoid a sound h = elim (Bool-cases (n == 0)) [
  | inl z ↦ ([], ground arith)
  | inr p ↦ (take n (usable avoid a), ground (arith, usable-le-total avoid a sound))
]

-- A sound allocator grants a request for n devices exactly when there are n different devices of
-- the node that no deployment holds and that `avoid` does not list.
pub allocate_iff :
    (d : String) (n : ℕ) (avoid : Option DeviceSet) (a : GpuAllocator)
    → IsSound a
    → ((l : List ℕ) × ((allocate d n avoid a).0 ≡ granted l)) ↔ ((l : List ℕ) × Room n avoid a l)
allocate_iff d n avoid a sound = (
  λ given. (take n (usable avoid a), Room-take n avoid a sound (there given)),
  λ room. enough_usable d n avoid a sound (Room-le-usable n avoid a room.0 sound room.1),
)
  where
    there : (l : List ℕ) × ((allocate d n avoid a).0 ≡ granted l) → n ≤ length (usable avoid a)
    there (l, e) = unfold allocate in ground arith

subset_of_empty : (s t : DeviceSet) → is_empty s ≡ true → subset s t ≡ true
unfolding is_empty subset
subset_of_empty [] t h = refl
subset_of_empty (x ∷ s) t h = cc

-- What the deployment may reserve: a device of the node that no other deployment holds.
abbrev pub IsOpen : String → GpuAllocator → ℕ → Type 0
IsOpen d a x = (x < a.total_gpus) × ((e : String) → holds e x a ≡ true → e ≡ d)

available_iff :
    (d : String) (a : GpuAllocator) (x : ℕ)
    → IsSound a
    → (mem x (available d a) ≡ true) ↔ IsOpen d a x
unfolding available
available_iff d a x sound = (there, back)
  where
    both :
        mem x (union (free_devices a) (get_allocation d a))
        ≡ (mem x (free_devices a) || holds d x a)
    both = mem-union x (free_devices a) (get_allocation d a)

    there : mem x (union (free_devices a) (get_allocation d a)) ≡ true → IsOpen d a x
    there m = elim (Bool-cases (holds d x a)) [
      | inl own ↦
          ((on_node_iff x a sound).0 (sound.in_range d x own), λ e h. sound.exclusive e d x h own)
      | inr other ↦
          let free : mem x (free_devices a) ≡ true = ground (arith, both) in
          (
            (on_node_iff x a sound).0 (
                unfold free_devices in
                ground (arith, free, mem-diff x a.device_ids (allocated_devices a))),
            λ e h. ground (arith, holds-mem-free e x a h),
          )
    ]

    back : IsOpen d a x → mem x (union (free_devices a) (get_allocation d a)) ≡ true
    back (on, only) = elim (Bool-cases (holds d x a)) [
      | inl own ↦ ground (arith, both)
      | inr other ↦
          let free = mem-free_of_unheld x a sound ((on_node_iff x a sound).1 on) (λ e.
            elim (Bool-cases (holds e x a)) [ inl h ↦ ground (arith, only e h) | inr h ↦ h ]) in
          ground (arith, both)
    ]

granted_specific :
    (d : String) (devices : List ℕ) (a : GpuAllocator)
    → ((l : List ℕ) × ((allocate_specific d devices a).0 ≡ granted l))
      ↔ (subset (of_list devices) (available d a) ≡ true)
unfolding allocate_specific
granted_specific d devices a = (there, back)
  where
    there :
        (l : List ℕ) × ((allocate_specific d devices a).0 ≡ granted l)
        → subset (of_list devices) (available d a) ≡ true
    there (l, h) = ground (arith, subset_of_empty (of_list devices) (available d a))

    back :
        subset (of_list devices) (available d a) ≡ true
        → (l : List ℕ) × ((allocate_specific d devices a).0 ≡ granted l)
    back h = elim (Bool-cases (is_empty (of_list devices))) [
      | inl none_left ↦ ([], ground arith)
      | inr some_left ↦ (of_list devices, ground arith)
    ]

-- A sound allocator grants a reservation exactly when each device that it names is one of the node's
-- that no other deployment holds; the deployment's own devices may be named.
pub allocate_specific_iff :
    (d : String) (devices : List ℕ) (a : GpuAllocator)
    → IsSound a
    → ((l : List ℕ) × ((allocate_specific d devices a).0 ≡ granted l))
      ↔ ((x : ℕ) → mem x devices ≡ true → IsOpen d a x)
allocate_specific_iff d devices a sound =
    let (there, back) = granted_specific d devices a in
    (
      λ given x m. (available_iff d a x sound).0 (
          mem-of-subset x (of_list devices) (available d a) (there given)
            (mem-of_list x devices ∙ m)),
      λ h. back (
          subset_of_mem (of_list devices) (available d a)
            (λ x m. (available_iff d a x sound).1 (h x (sym (mem-of_list x devices) ∙ m)))),
    )
