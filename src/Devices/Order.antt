-- ===== src/Devices/Order.antt =====
-- Every operation returns an ascending list, and an ascending list is determined by its members.
use greenference_node.Base.{ℕ, zero, suc, ◌≤◌, ◌<◌, ◌≡◌, refl, false, List, [], ◌∷◌, arith, take}
use greenference_node.Devices.{
  DeviceSet, mem, add, of_list, union, diff, inter, range_from, range, Above, IsAscending,
}

-- What is above a bound is above a smaller one.
Above-trans : (x y : ℕ) (s : DeviceSet) → x < y → Above y s → Above x s
Above-trans x y [] h a = tt
Above-trans x y (z ∷ s) h a = (omega arith, Above-trans x y s h a.1)

Above-add : (x y : ℕ) (s : DeviceSet) → y < x → Above y s → Above y (add x s)
unfolding add
Above-add x y [] h a = (h, tt)
Above-add x y (z ∷ s) h a = ground (arith, Above-add x y s h a.1)

pub add-IsAscending : (x : ℕ) (s : DeviceSet) → IsAscending s → IsAscending (add x s)
unfolding add
add-IsAscending x [] h = (tt, tt)
add-IsAscending x (y ∷ s) h =
    ground (arith, add-IsAscending x s h.1, Above-add x y s, Above-trans x y s)

pub of_list-IsAscending : (l : List ℕ) → IsAscending (of_list l)
unfolding of_list
of_list-IsAscending [] = tt
of_list-IsAscending (x ∷ l) = add-IsAscending x (of_list l) (of_list-IsAscending l)

pub union-IsAscending : (s t : DeviceSet) → IsAscending s → IsAscending (union s t)
unfolding union
union-IsAscending s [] h = h
union-IsAscending s (y ∷ t) h = union-IsAscending (add y s) t (add-IsAscending y s h)

Above-diff : (x : ℕ) (s t : DeviceSet) → Above x s → Above x (diff s t)
unfolding diff
Above-diff x [] t h = tt
Above-diff x (y ∷ s) t h = ground (arith, Above-diff x s t h.1)

pub diff-IsAscending : (s t : DeviceSet) → IsAscending s → IsAscending (diff s t)
unfolding diff
diff-IsAscending [] t h = tt
diff-IsAscending (y ∷ s) t h = ground (arith, diff-IsAscending s t h.1, Above-diff y s t h.0)

Above-inter : (x : ℕ) (s t : DeviceSet) → Above x s → Above x (inter s t)
unfolding inter
Above-inter x [] t h = tt
Above-inter x (y ∷ s) t h = ground (arith, Above-inter x s t h.1)

pub inter-IsAscending : (s t : DeviceSet) → IsAscending s → IsAscending (inter s t)
unfolding inter
inter-IsAscending [] t h = tt
inter-IsAscending (y ∷ s) t h = ground (arith, inter-IsAscending s t h.1, Above-inter y s t h.0)

Above-take : (x n : ℕ) (s : DeviceSet) → Above x s → Above x (take n s)
Above-take x zero s h = tt
Above-take x (suc n) [] h = tt
Above-take x (suc n) (y ∷ s) h = (h.0, Above-take x n s h.1)

pub take-IsAscending : (n : ℕ) (s : DeviceSet) → IsAscending s → IsAscending (take n s)
take-IsAscending zero s h = tt
take-IsAscending (suc n) [] h = tt
take-IsAscending (suc n) (y ∷ s) h = (Above-take y n s h.0, take-IsAscending n s h.1)

Above-range_from : (x start n : ℕ) → x < start → Above x (range_from start n)
unfolding range_from
Above-range_from x start zero h = tt
Above-range_from x start (suc n) h = (h, Above-range_from x (suc start) n (omega arith))

range_from-IsAscending : (start n : ℕ) → IsAscending (range_from start n)
unfolding range_from
range_from-IsAscending start zero = tt
range_from-IsAscending start (suc n) =
    (Above-range_from start (suc start) n (omega arith), range_from-IsAscending (suc start) n)

pub range-IsAscending : (n : ℕ) → IsAscending (range n)
unfolding range
range-IsAscending n = range_from-IsAscending 0 n

-- A bound of every member is none of them.
pub mem-Above : (x y : ℕ) (s : DeviceSet) → Above y s → x ≤ y → mem x s ≡ false
unfolding mem
mem-Above x y [] h l = refl
mem-Above x y (z ∷ s) h l = ground (arith, mem-Above x y s h.1 l)
