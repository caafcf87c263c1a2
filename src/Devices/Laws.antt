-- ===== src/Devices/Laws.antt =====
-- Membership in the sets that the operations return.
use greenference_node.Base.{
  ℕ, zero, suc, ◌+◌, ◌≡◌, refl, true, not, ◌&&◌, ◌||◌, List, [], ◌∷◌, arith, ltb, leb, ◌==◌,
  Bool-cases, ==_iff, inl, inr,
}
use greenference_node.Devices.{
  DeviceSet, mem, add, of_list, union, diff, inter, subset, range_from, range,
}

pub mem-add : (x y : ℕ) (s : DeviceSet) → mem x (add y s) ≡ (x == y || mem x s)
unfolding mem add
mem-add x y [] = refl
mem-add x y (z ∷ s) = ground (arith, mem-add x y s)

pub mem-of_list : (x : ℕ) (l : List ℕ) → mem x (of_list l) ≡ mem x l
unfolding of_list mem
mem-of_list x [] = refl
mem-of_list x (y ∷ l) = ground (arith, mem-add x y (of_list l), mem-of_list x l)

pub mem-union : (x : ℕ) (s t : DeviceSet) → mem x (union s t) ≡ (mem x s || mem x t)
unfolding union mem
mem-union x s [] = ground arith
mem-union x s (y ∷ t) = ground (arith, mem-union x (add y s) t, mem-add x y s)

pub mem-diff : (x : ℕ) (s t : DeviceSet) → mem x (diff s t) ≡ (mem x s && not (mem x t))
unfolding diff mem
mem-diff x [] t = refl
mem-diff x (y ∷ s) t = elim (Bool-cases (x == y)) [
  | inl e ↦ rw ((==_iff x y).0 e) (ground (arith, mem-diff y s t))
  | inr e ↦ ground (arith, mem-diff x s t)
]

pub mem-inter : (x : ℕ) (s t : DeviceSet) → mem x (inter s t) ≡ (mem x s && mem x t)
unfolding inter mem
mem-inter x [] t = refl
mem-inter x (y ∷ s) t = elim (Bool-cases (x == y)) [
  | inl e ↦ rw ((==_iff x y).0 e) (ground (arith, mem-inter y s t))
  | inr e ↦ ground (arith, mem-inter x s t)
]

mem-range_from : (x start n : ℕ) → mem x (range_from start n) ≡ (leb start x && ltb x (start + n))
unfolding mem range_from
mem-range_from x start zero = ground arith
mem-range_from x start (suc n) = ground (arith, mem-range_from x (suc start) n)

pub mem-range : (x n : ℕ) → mem x (range n) ≡ ltb x n
unfolding range
mem-range x n = ground (arith, mem-range_from x 0 n)

pub mem-of-subset : (x : ℕ) (s t : DeviceSet) → subset s t ≡ true → mem x s ≡ true → mem x t ≡ true
unfolding subset mem
mem-of-subset x [] t h m = cc
mem-of-subset x (y ∷ s) t h m = elim (Bool-cases (x == y)) [
  | inl e ↦ rw ((==_iff x y).0 e) (ground arith)
  | inr e ↦ ground (arith, mem-of-subset x s t)
]

pub subset_of_mem :
    (s t : DeviceSet) → ((x : ℕ) → mem x s ≡ true → mem x t ≡ true) → subset s t ≡ true
unfolding subset mem
subset_of_mem [] t h = refl
subset_of_mem (y ∷ s) t h = ground (arith, h y, subset_of_mem s t (λ x m. h x (ground arith)))

pub ruleset set_laws = (mem-add, mem-of_list, mem-union, mem-diff, mem-inter, mem-range)
