-- ===== src/Prelude/Fixed.antt =====
-- Numbers with three digits behind the point, as whole thousandths: an instance of `Double` by which
-- the definitions run on concrete inputs, and which meets the laws that the theorems name.
use Prim.Native.Nat.{ℕ, suc, ◌+◌, ◌-◌, ◌*◌, ◌/◌, ◌^◌, ◌<◌}
use mathlib.Core.Path.{◌≡◌, ap}
use mathlib.Core.Bool.{Bool, true, false}
use native.Mathlib.Omega.{arith}
use multie_layer_kache.Prelude.Tests.{if◌then◌else◌, leb, ltb}
use multie_layer_kache.Prelude.Floats.{Double, IsOrdered, IsExact}

-- `negsuc n` is -(n + 1) thousandths.
pub data Fixed : Type 0 where
  pos : ℕ → Fixed
  negsuc : ℕ → Fixed

abbrev pos_part : Fixed → ℕ
pos_part (pos n) = n
pos_part (negsuc n) = 0

abbrev neg_part : Fixed → ℕ
neg_part (pos n) = 0
neg_part (negsuc n) = suc n

abbrev difference : ℕ → ℕ → Fixed
difference a b = if leb b a then pos (a - b) else negsuc (b - a - 1)

abbrev is_negative : Fixed → Bool
is_negative (pos n) = false
is_negative (negsuc n) = true

-- the sign of a product or a quotient
abbrev is_opposite : Bool → Bool → Bool
is_opposite true true = false
is_opposite true false = true
is_opposite false b = b

abbrev magnitude : Fixed → ℕ
magnitude x = pos_part x + neg_part x

abbrev signed : Bool → ℕ → Fixed
signed true n = difference 0 n
signed false n = pos n

abbrev fixed_le : Fixed → Fixed → Bool
fixed_le a b = leb (pos_part a + neg_part b) (pos_part b + neg_part a)

abbrev fixed_lt : Fixed → Fixed → Bool
fixed_lt a b = ltb (pos_part a + neg_part b) (pos_part b + neg_part a)

instance abbrev pub fixed_double : Double Fixed
fixed_double = record {
  lit = λ m k. pos (m * 1000 / 10 ^ k);
  of_int = λ n. pos (n * 1000);
  trunc = λ x. pos_part x / 1000;
  neg = λ x. difference (neg_part x) (pos_part x);
  add = λ x y. difference (pos_part x + pos_part y) (neg_part x + neg_part y);
  sub = λ x y. difference (pos_part x + neg_part y) (neg_part x + pos_part y);
  mul = λ x y.
      signed (is_opposite (is_negative x) (is_negative y)) (magnitude x * magnitude y / 1000);
  div = λ x y.
      signed (is_opposite (is_negative x) (is_negative y)) (magnitude x * 1000 / magnitude y);
  lt = fixed_lt;
  le = fixed_le;
}

pub Fixed-IsOrdered : IsOrdered fixed_double
Fixed-IsOrdered = record {
  le_refl = λ x. ground arith;
  le_trans = λ x y z p q. ground arith;
  le_total = λ x y p. ground arith;
  lt-not-le = λ x y. ground arith;
}

div_self_number : (n : ℕ) → 0 < n → (n + 0) * 1000 / (n + 0) ≡ 1000
div_self_number n h = grind arith

-- A positive value by itself is 1.
div_self_fixed : (x : Fixed) → fixed_lt (pos 0) x ≡ true → fixed_double.div x x ≡ pos 1000
div_self_fixed (pos n) h = ap pos (div_self_number n (ground arith))
div_self_fixed (negsuc n) h = absurd (ground arith)

add_nought_fixed : (x : Fixed) → fixed_double.add x (pos 0) ≡ x
add_nought_fixed (pos n) = ground arith
add_nought_fixed (negsuc n) = ground arith

pub Fixed-IsExact : IsExact fixed_double
Fixed-IsExact = record {
  mul_nought = λ n. ground arith;
  add_nought = add_nought_fixed;
  div_self = div_self_fixed;
}
