-- ===== src/Multinode/Payload.antt =====
-- The values of an inference payload, and Python's `int`, `str` and truth of them.
-- Texts are ASCII. A float is given by its truncation, whether it is nonzero and its text; a list or
-- a dict by whether it has elements and its text.
use greenference_node.Base.{
  ℕ, ◌+◌, ◌-◌, ◌*◌, String, Bool, true, false, not, ◌&&◌, Option, none, some, List, [], ◌∷◌, ℤ, pos,
  negsuc, negate, leb, ◌==◌, if◌then◌else◌,
}
use greenference_node.Text.{codes, strip}
use greenference_node.Text.Words.{show_int, is_empty}

pub data Value : Type 0 where
  null : Value
  boolean : Bool → Value
  number : ℤ → Value
  fraction : ℤ → Bool → String → Value
  infinite : Bool → Value
  undefined_number : Value
  text : String → Value
  container : Bool → String → Value

-- What a conversion does: `overflowed` is the OverflowError, which no clause of the parser names;
-- `refused` stands for the errors that it does name.
pub data Reading {ℓ} (A : Type ℓ) : Type ℓ where
  read : A → Reading A
  refused overflowed : Reading A

infixl 5 ◌>>=◌
unfoldable pub ◌>>=◌ {ℓ ℓ'} : {A : Type ℓ} {B : Type ℓ'} → Reading A → (A → Reading B) → Reading B
read a >>= f = f a
refused >>= f = refused
overflowed >>= f = overflowed

-- The digits read so far: whether the last character was one, and their number.
next_digit : Bool × ℕ → ℕ → Option (Bool × ℕ)
next_digit (after_digit, n) c =
    if leb b'0' c && leb c b'9'
    then some (true, n * 10 + (c - b'0'))
    else if c == b'_' && after_digit
    then some (false, n)
    else none

read_digits : Option (Bool × ℕ) → List ℕ → Option ℕ
unfolding next_digit
read_digits none s = none
read_digits (some (true, n)) [] = some n
read_digits (some (false, n)) [] = none
read_digits (some state) (c ∷ s) = read_digits (next_digit state c) s

signed : (ℕ → ℤ) → Option ℕ → Reading ℤ
signed sign none = refused
signed sign (some n) = read (sign n)

read_sign : List ℕ → Reading ℤ
unfolding signed read_digits
read_sign [] = refused
read_sign (c ∷ s) =
    if c == b'-'
    then signed (λ n. negate (pos n)) (read_digits (some (false, 0)) s)
    else signed pos (read_digits (some (false, 0)) (if c == b'+' then s else c ∷ s))

-- `int(v)`
unfoldable pub to_int : Value → Reading ℤ
unfolding read_sign strip
to_int null = refused
to_int (boolean b) = read (pos (if b then 1 else 0))
to_int (number n) = read n
to_int (fraction truncated nonzero shown) = read truncated
to_int (infinite negative) = overflowed
to_int undefined_number = refused
to_int (text s) = read_sign (strip (codes s))
to_int (container nonempty shown) = refused

-- `str(v)`
unfoldable pub to_str : Value → String
unfolding show_int
to_str null = "None"
to_str (boolean b) = if b then "True" else "False"
to_str (number n) = show_int n
to_str (fraction truncated nonzero shown) = shown
to_str (infinite negative) = if negative then "-inf" else "inf"
to_str undefined_number = "nan"
to_str (text s) = s
to_str (container nonempty shown) = shown

-- `bool(v)`
unfoldable pub truth : Value → Bool
unfolding is_empty
truth null = false
truth (boolean b) = b
truth (number (pos n)) = not (n == 0)
truth (number (negsuc n)) = true
truth (fraction truncated nonzero shown) = nonzero
truth (infinite negative) = true
truth undefined_number = true
truth (text s) = not (is_empty s)
truth (container nonempty shown) = nonempty

-- No value of a dict is infinite.
abbrev pub IsFinite : Value → Type 0
IsFinite null = Unit
IsFinite (boolean b) = Unit
IsFinite (number n) = Unit
IsFinite (fraction truncated nonzero shown) = Unit
IsFinite (infinite negative) = ⊥
IsFinite undefined_number = Unit
IsFinite (text s) = Unit
IsFinite (container nonempty shown) = Unit

-- What holds of a value that was read, or of an overflow.
abbrev pub OnReading : {A : Type 0} → (A → Type 0) → Type 0 → Reading A → Type 0
OnReading Q O (read x) = Q x
OnReading Q O refused = Unit
OnReading Q O overflowed = O

pub record Reads {A : Type 0} (Q : A → Type 0) (O : Type 0) (r : Reading A) : Type 0 where
  pub at : OnReading Q O r

pub Reads-bind :
    {A B : Type 0} {R : A → Type 0} {Q : B → Type 0} {O : Type 0} (r : Reading A)
    (f : A → Reading B)
    → Reads R O r
    → ((x : A) → R x → Reads Q O (f x))
    → Reads Q O (r >>= f)
unfolding ◌>>=◌
Reads-bind (read x) f q h = h x q.at
Reads-bind refused f q h = record { at = tt }
Reads-bind overflowed f q h = record { at = q.at }

pub Reads-if :
    {A : Type 0} {Q : A → Type 0} {O : Type 0} (b : Bool) (r r' : Reading A)
    → Reads Q O r
    → Reads Q O r'
    → Reads Q O (if b then r else r')
Reads-if true r r' h h' = h
Reads-if false r r' h h' = h'

pub Reads-map :
    {A : Type 0} {Q R : A → Type 0} {O P : Type 0} (r : Reading A)
    → ((x : A) → Q x → R x)
    → (O → P)
    → Reads Q O r
    → Reads R P r
Reads-map (read x) g f h = record { at = g x h.at }
Reads-map refused g f h = record { at = tt }
Reads-map overflowed g f h = record { at = f h.at }

signed-Reads : {O : Type 0} (sign : ℕ → ℤ) (n : Option ℕ) → Reads (λ z. Unit {0}) O (signed sign n)
unfolding signed
signed-Reads sign none = record { at = tt }
signed-Reads sign (some n) = record { at = tt }

read_sign-Reads : {O : Type 0} (s : List ℕ) → Reads (λ z. Unit {0}) O (read_sign s)
unfolding read_sign
read_sign-Reads [] = record { at = tt }
read_sign-Reads (c ∷ s) =
    Reads-if (c == b'-') _ _ (signed-Reads (λ n. negate (pos n)) (read_digits (some (false, 0)) s))
      (signed-Reads pos (read_digits (some (false, 0)) (if c == b'+' then s else c ∷ s)))

-- `int` overflows on an infinite number alone.
pub to_int-Reads : (v : Value) → Reads (λ z. Unit {0}) (IsFinite v → ⊥) (to_int v)
unfolding to_int
to_int-Reads null = record { at = tt }
to_int-Reads (boolean b) = record { at = tt }
to_int-Reads (number n) = record { at = tt }
to_int-Reads (fraction truncated nonzero shown) = record { at = tt }
to_int-Reads (infinite negative) = record { at = λ h. h }
to_int-Reads undefined_number = record { at = tt }
to_int-Reads (text s) = read_sign-Reads (strip (codes s))
to_int-Reads (container nonempty shown) = record { at = tt }
