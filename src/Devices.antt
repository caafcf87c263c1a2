-- ===== src/Devices.antt =====
-- Python sets of device indices, as ascending lists: what `sorted` returns of such a set is the
-- list itself.
pub mod Laws
pub mod Order
pub mod Count
use greenference_node.Base.{
  ℕ, zero, suc, ◌<◌, Bool, true, false, ◌&&◌, ◌||◌, List, [], ◌∷◌, ltb, ◌==◌, if◌then◌else◌,
}

abbrev pub DeviceSet : Type 0
DeviceSet = List ℕ

-- `x in s`
unfoldable pub mem : ℕ → DeviceSet → Bool
mem x [] = false
mem x (y ∷ s) = x == y || mem x s

-- `s.add(x)`
unfoldable pub add : ℕ → DeviceSet → DeviceSet
add x [] = x ∷ []
add x (y ∷ s) = if ltb x y then x ∷ y ∷ s else if x == y then y ∷ s else y ∷ add x s

-- `set(l)`
unfoldable pub of_list : List ℕ → DeviceSet
of_list [] = []
of_list (x ∷ l) = add x (of_list l)

-- `s | t`
unfoldable pub union : DeviceSet → DeviceSet → DeviceSet
union s [] = s
union s (y ∷ t) = union (add y s) t

-- `s - t`
unfoldable pub diff : DeviceSet → DeviceSet → DeviceSet
diff [] t = []
diff (x ∷ s) t = let rest = diff s t in if mem x t then rest else x ∷ rest

-- `s & t`
unfoldable pub inter : DeviceSet → DeviceSet → DeviceSet
inter [] t = []
inter (x ∷ s) t = let rest = inter s t in if mem x t then x ∷ rest else rest

-- `s.issubset(t)`
unfoldable pub subset : DeviceSet → DeviceSet → Bool
subset [] t = true
subset (x ∷ s) t = mem x t && subset s t

range_from : ℕ → ℕ → DeviceSet
range_from start zero = []
range_from start (suc n) = start ∷ range_from (suc start) n

-- `set(range(n))`
unfoldable pub range : ℕ → DeviceSet
unfolding range_from
range n = range_from 0 n

-- Every member is above x.
abbrev pub Above : ℕ → DeviceSet → Type 0
Above x [] = Unit
Above x (y ∷ s) = (x < y) × Above x s

-- The order that makes a list a set.
abbrev pub IsAscending : DeviceSet → Type 0
IsAscending [] = Unit
IsAscending (x ∷ s) = Above x s × IsAscending s
