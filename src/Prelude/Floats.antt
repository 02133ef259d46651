-- ===== src/Prelude/Floats.antt =====
-- Python's `float`. The arithmetic of IEEE doubles is the platform's and not this repository's, so
-- it is a parameter: an instance `Double W` gives the operations, and the records of laws say what
-- a theorem relies on. `Prelude/Fixed.antt` is an instance by which the definitions run.
use Prim.Native.Nat.{ℕ}
use mathlib.Core.Path.{◌≡◌}
use mathlib.Core.Bool.{Bool, true, false, not}
use mathlib.Core.List.{List, [], ◌∷◌}
use native.Mathlib.Omega.{arith}
use multie_layer_kache.Prelude.Tests.{if◌then◌else◌}
use multie_layer_kache.Prelude.Sort.{IsOrder}

pub record Double (W : Type 0) : Type 0 where
  -- the literal with the digits `m` and `k` of them behind the point: `lit 65 2` is 0.65
  pub lit : ℕ → ℕ → W
  -- an `int` in float arithmetic
  pub of_int : ℕ → W
  -- `int(x)`; what is negative gives 0, where the code compares it with a count
  pub trunc : W → ℕ
  pub neg : W → W
  pub add : W → W → W
  pub sub : W → W → W
  pub mul : W → W → W
  pub div : W → W → W
  -- `<` and `<=`
  pub lt : W → W → Bool
  pub le : W → W → Bool

module _ {W : Type 0} ⦃d : Double W⦄ where
  abbrev pub nought : W
  nought = d.lit 0 0

  abbrev pub one : W
  one = d.lit 1 0

  -- `max(x, y)` keeps its first argument unless the second is greater
  abbrev pub fmax : W → W → W
  fmax x y = if d.lt x y then y else x

  -- `min(x, y)` keeps its first argument unless the second is less
  abbrev pub fmin : W → W → W
  fmin x y = if d.lt y x then y else x

  abbrev max_from : W → List W → W
  max_from m [] = m
  max_from m (x ∷ xs) = max_from (fmax m x) xs

  -- `max(l, default=w)`
  abbrev pub max_default : W → List W → W
  max_default w [] = w
  max_default w (x ∷ xs) = max_from x xs

-- Comparison of doubles that are no NaN.
pub record IsOrdered {W : Type 0} (d : Double W) : Type 0 where
  pub le_refl : (x : W) → d.le x x ≡ true
  pub le_trans : (x y z : W) → d.le x y ≡ true → d.le y z ≡ true → d.le x z ≡ true
  pub le_total : (x y : W) → d.le x y ≡ false → d.le y x ≡ true
  pub lt-not-le : (x y : W) → d.lt x y ≡ not (d.le y x)

-- What rounding leaves exact, for finite doubles (-0.0 being 0.0).
pub record IsExact {W : Type 0} (d : Double W) : Type 0 where
  pub mul_nought : (n : ℕ) → d.mul (d.of_int n) (d.lit 0 0) ≡ d.lit 0 0
  pub add_nought : (x : W) → d.add x (d.lit 0 0) ≡ x
  pub div_self : (x : W) → d.lt (d.lit 0 0) x ≡ true → d.div x x ≡ d.lit 1 0

module _ {W : Type 0} ⦃d : Double W⦄ (o : IsOrdered d) {A : Type 0} (key : A → W) where
  -- `sorted(…, key=key)`
  pub ascending-IsOrder : IsOrder (λ x y. d.le (key x) (key y))
  ascending-IsOrder = record {
    total = λ x y. o.le_total (key x) (key y);
    trans = λ x y z. o.le_trans (key x) (key y) (key z);
  }

  -- `sorted(…, key=key, reverse=True)`
  pub descending-IsOrder : IsOrder (λ x y. d.le (key y) (key x))
  descending-IsOrder = record {
    total = λ x y. o.le_total (key y) (key x);
    trans = λ x y z p q. o.le_trans (key z) (key y) (key x) q p;
  }

module _ {W : Type 0} ⦃d : Double W⦄ (o : IsOrdered d) where
  pub le_of_lt : (x y : W) → d.lt x y ≡ true → d.le x y ≡ true
  le_of_lt x y h = ground (arith, o.lt-not-le x y, o.le_total y x)

  pub lt_of_not-le : (x y : W) → d.le x y ≡ false → d.lt y x ≡ true
  lt_of_not-le x y h = ground (arith, o.lt-not-le y x)

  -- A value below a threshold is below whatever the threshold is at most.
  pub le_of_lt_le : (x y z : W) → d.lt x y ≡ true → d.le y z ≡ true → d.lt x z ≡ true
  le_of_lt_le x y z h k = ground (arith, o.lt-not-le x y, o.lt-not-le x z, o.le_trans y z x)
