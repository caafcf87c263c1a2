-- ===== src/Devices/Count.antt =====
-- An ascending list is determined by its members; sizes of unions and differences.
use greenference_node.Base.{
  ℕ, zero, suc, ◌+◌, ◌≤◌, ◌≡◌, ap, refl, true, false, List, [], ◌∷◌, arith, length, take,
}
use greenference_node.Devices.{
  DeviceSet, mem, add, union, diff, inter, range_from, range, IsAscending,
}
use greenference_node.Devices.Laws.{mem-inter, mem-add}
use greenference_node.Devices.Order.{mem-Above, inter-IsAscending}

abbrev SameMembers : DeviceSet → DeviceSet → Type 0
SameMembers s t = (x : ℕ) → mem x s ≡ mem x t

-- The heads of two such lists agree, and then so do the members of the rests.
heads_agree :
    (x y : ℕ) (s t : DeviceSet)
    → IsAscending (x ∷ s)
    → IsAscending (y ∷ t)
    → SameMembers (x ∷ s) (y ∷ t)
    → x ≡ y
unfolding mem
heads_agree x y s t hs ht h = ground (arith, h x, h y, mem-Above x y t ht.0, mem-Above y x s hs.0)

tails_agree :
    (x y : ℕ) (s t : DeviceSet)
    → IsAscending (x ∷ s)
    → IsAscending (y ∷ t)
    → SameMembers (x ∷ s) (y ∷ t)
    → SameMembers s t
unfolding mem
tails_agree x y s t hs ht h z =
    ground (arith, h z, heads_agree x y s t hs ht h, mem-Above z y t ht.0, mem-Above z x s hs.0)

-- Two sets whose lists ascend are equal when they have the same members.
pub eq_of_mem : (s t : DeviceSet) → IsAscending s → IsAscending t → SameMembers s t → s ≡ t
unfolding mem
eq_of_mem [] [] hs ht h = refl
eq_of_mem [] (y ∷ t) hs ht h = ground (arith, h y)
eq_of_mem (x ∷ s) [] hs ht h = ground (arith, h x)
eq_of_mem (x ∷ s) (y ∷ t) hs ht h =
    cc (heads_agree x y s t hs ht h, eq_of_mem s t hs.1 ht.1 (tails_agree x y s t hs ht h))

length-diff-inter : (s t : DeviceSet) → length (diff s t) + length (inter s t) ≡ length s
unfolding diff inter
length-diff-inter [] t = omega arith
length-diff-inter (x ∷ s) t = ground (arith, length-diff-inter s t)

-- Taking away a subset leaves the rest.
pub length-diff :
    (s t : DeviceSet)
    → IsAscending s
    → IsAscending t
    → ((x : ℕ) → mem x t ≡ true → mem x s ≡ true)
    → length (diff s t) + length t ≡ length s
length-diff s t hs ht sub = omega (arith, length-diff-inter s t, ap {B = ℕ} length meet)
  where
    meet : inter s t ≡ t
    meet =
        eq_of_mem (inter s t) t (inter-IsAscending s t hs) ht
          λ x. rw mem-inter (ground (arith, sub x))

pub length-add : (x : ℕ) (s : DeviceSet) → mem x s ≡ false → length (add x s) ≡ suc (length s)
unfolding mem add
length-add x [] h = refl
length-add x (y ∷ s) h = ground (arith, length-add x s)

-- A union of disjoint sets has the sum of their sizes.
pub length-union :
    (s t : DeviceSet)
    → IsAscending t
    → ((x : ℕ) → mem x t ≡ true → mem x s ≡ false)
    → length (union s t) ≡ length s + length t
unfolding union mem
length-union s [] ht apart = omega arith
length-union s (y ∷ t) ht apart = ground (
  arith,
  length-add y s,
  apart y,
  length-union (add y s) t ht.1 λ x m. rw mem-add (ground (arith, apart x, mem-Above x y t ht.0)),
)

length-range_from : (start n : ℕ) → length (range_from start n) ≡ n
unfolding range_from
length-range_from start zero = refl
length-range_from start (suc n) = ap suc (length-range_from (suc start) n)

pub length-range : (n : ℕ) → length (range n) ≡ n
unfolding range
length-range n = length-range_from 0 n

pub mem-take : (x n : ℕ) (s : List ℕ) → mem x (take n s) ≡ true → mem x s ≡ true
unfolding mem
mem-take x zero s h = cc
mem-take x (suc n) [] h = h
mem-take x (suc n) (y ∷ s) h = ground (arith, mem-take x n s)

pub length-diff-le : (s t : DeviceSet) → length (diff s t) ≤ length s
unfolding diff
length-diff-le [] t = omega arith
length-diff-le (x ∷ s) t = ground (arith, length-diff-le s t)
