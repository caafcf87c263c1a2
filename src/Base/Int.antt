-- ===== src/Base/Int.antt =====
-- Signed integers over the native numbers, under the library's names (its ℤ stands on the unary ℕ).
use Prim.Native.Nat.{◌≤◌, ℕ, zero, suc, ◌+◌, ◌*◌, ◌-◌}
use mathlib.Core.Path.{◌≡◌, ◌∙◌, ap₂}
use native.Mathlib.Nat.{add_comm, mul_comm}
use mathlib.Core.Bool.{true, Bool, false}
use mathlib.Core.Logic.{◌↔◌}
use native.Mathlib.Omega.{arith}
use greenference_node.Base.Tests.{ltb, leb, ◌==◌, if◌then◌else◌}

-- `negsuc n` is -(n + 1).
pub data ℤ : Type 0 where
  pos : ℕ → ℤ
  negsuc : ℕ → ℤ

abbrev pub pos_part : ℤ → ℕ
pos_part (pos n) = n
pos_part (negsuc n) = 0

abbrev pub neg_part : ℤ → ℕ
neg_part (pos n) = 0
neg_part (negsuc n) = suc n

-- a - b, as an integer.
abbrev pub sub_ℕ : ℕ → ℕ → ℤ
sub_ℕ a b = if leb b a then pos (a - b) else negsuc (b - a - 1)

abbrev pub ltb_ℤ : ℤ → ℤ → Bool
ltb_ℤ a b = ltb (pos_part a + neg_part b) (pos_part b + neg_part a)

abbrev pub eq_ℤ : ℤ → ℤ → Bool
eq_ℤ (pos a) (pos b) = a == b
eq_ℤ (pos a) (negsuc b) = false
eq_ℤ (negsuc a) (pos b) = false
eq_ℤ (negsuc a) (negsuc b) = a == b

infixl 70 ◌*ℤ◌
unfoldable pub ◌*ℤ◌ : ℤ → ℤ → ℤ
a *ℤ b =
    sub_ℕ (pos_part a * pos_part b + neg_part a * neg_part b)
      (pos_part a * neg_part b + neg_part a * pos_part b)

infix 50 ◌≤ℤ◌
abbrev pub ◌≤ℤ◌ : ℤ → ℤ → Type 0
a ≤ℤ b = pos_part a + neg_part b ≤ pos_part b + neg_part a

pub eq_ℤ_iff : (a b : ℤ) → (eq_ℤ a b ≡ true) ↔ (a ≡ b)
eq_ℤ_iff a b = ground arith

pub ltb_ℤ_iff : (a b : ℤ) → (ltb_ℤ a b ≡ false) ↔ (b ≤ℤ a)
ltb_ℤ_iff a b = ground arith

abbrev pub negate : ℤ → ℤ
negate (pos zero) = pos 0
negate (pos (suc n)) = negsuc n
negate (negsuc n) = pos (suc n)

pub negate-parts : (a : ℤ) → (pos_part (negate a) ≡ neg_part a) × (neg_part (negate a) ≡ pos_part a)
negate-parts a = ground arith

pub mul-negate : (a b : ℤ) → negate a *ℤ negate b ≡ a *ℤ b
unfolding ◌*ℤ◌
mul-negate a b =
    let x = negate-parts a in
    let y = negate-parts b in
    ap₂ sub_ℕ
      (ap₂ ◌+◌ (ap₂ ◌*◌ x.0 y.0) (ap₂ ◌*◌ x.1 y.1)
        ∙ add_comm (neg_part a * neg_part b) (pos_part a * pos_part b))
      (ap₂ ◌+◌ (ap₂ ◌*◌ x.0 y.1) (ap₂ ◌*◌ x.1 y.0)
        ∙ add_comm (neg_part a * pos_part b) (pos_part a * neg_part b))

pub negate-le : (a b : ℤ) → pos 0 ≤ℤ a → pos 1 ≤ℤ b → negate a ≤ℤ b
negate-le a b ha hb = ground arith

pub *ℤ_comm : (a b : ℤ) → a *ℤ b ≡ b *ℤ a
unfolding ◌*ℤ◌
*ℤ_comm a b =
    ap₂ sub_ℕ (ap₂ ◌+◌ (mul_comm (pos_part a) (pos_part b)) (mul_comm (neg_part a) (neg_part b))) (
      ap₂ ◌+◌ (mul_comm (pos_part a) (neg_part b)) (mul_comm (neg_part a) (pos_part b))
      ∙ add_comm (neg_part b * pos_part a) (pos_part b * neg_part a))
