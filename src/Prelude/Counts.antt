-- ===== src/Prelude/Counts.antt =====
-- Python's counting in a dictionary, `counts[x] = counts.get(x, 0) + 1`, and how much it counts.
use Prim.Native.Nat.{ℕ, ◌+◌}
use mathlib.Core.Path.{◌≡◌, refl}
use mathlib.Core.List.{List, [], ◌∷◌}
use native.Mathlib.Omega.{arith}
use multie_layer_kache.Prelude.Tests.{Key, ◌==◌, or_default}
use multie_layer_kache.Prelude.Lists.{length, count_by}
use multie_layer_kache.Prelude.Members.{Distinct}
use multie_layer_kache.Prelude.Dict
use multie_layer_kache.Prelude.Dict.{Dict, keys, values}

-- `sum(l)`
abbrev pub sum_of : List ℕ → ℕ
sum_of [] = 0
sum_of (n ∷ ns) = n + sum_of ns

module _ {A : Type 0} ⦃key : Key A⦄ where
  -- `counter[x]`, which is 0 for an element that is not there
  unfoldable pub count_of : A → Dict A ℕ → ℕ
  unfolding Dict.get
  count_of x counts = or_default (Dict.get x counts) 0

  unfoldable pub count_into : Dict A ℕ → List A → Dict A ℕ
  unfolding count_of Dict.put
  count_into counts [] = counts
  count_into counts (x ∷ xs) = count_into (Dict.put x (count_of x counts + 1) counts) xs

module _ {A : Type 0} ⦃key : Key A⦄ where
  pub sum_of-put :
      (x : A) (n : ℕ) (d : Dict A ℕ)
      → sum_of (values (Dict.put x n d)) + count_of x d ≡ sum_of (values d) + n
  unfolding Dict.put Dict.get count_of
  sum_of-put x n [] = omega arith
  sum_of-put x n ((y, m) ∷ d) = ground (arith, sum_of-put x n d)

  pub sum_of-count_into :
      (d : Dict A ℕ) (xs : List A)
      → sum_of (values (count_into d xs)) ≡ sum_of (values d) + length xs
  unfolding count_into
  sum_of-count_into d [] = omega arith
  sum_of-count_into d (x ∷ xs) = omega (
    arith,
    sum_of-count_into (Dict.put x (count_of x d + 1) d) xs,
    sum_of-put x (count_of x d + 1) d,
  )

  pub count_into-Distinct :
      (d : Dict A ℕ) (xs : List A) → Distinct (keys d) → Distinct (keys (count_into d xs))
  unfolding count_into
  count_into-Distinct d [] h = h
  count_into-Distinct d (x ∷ xs) h =
      count_into-Distinct (Dict.put x (count_of x d + 1) d) xs
        (Dict.put-Distinct x (count_of x d + 1) d h)

  pub count_of-count_into :
      (k : A) (d : Dict A ℕ) (xs : List A)
      → count_of k (count_into d xs) ≡ count_of k d + count_by (λ x. x == k) xs
  unfolding count_of count_into
  count_of-count_into k d [] = omega arith
  count_of-count_into k d (x ∷ xs) =
      let next = Dict.put x (count_of x d + 1) d in
      ground (
        arith,
        count_of-count_into k next xs,
        Dict.get-put x k (count_of x d + 1) d,
        key.equal_iff x k,
      )

  pub count_of-empty : (k : A) → count_of k [] ≡ 0
  unfolding count_of Dict.get
  count_of-empty k = refl
