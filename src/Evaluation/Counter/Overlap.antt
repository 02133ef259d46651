-- ===== src/Evaluation/Counter/Overlap.antt =====
-- How many tokens two lists share.
use multie_layer_kache.Prelude.{
  ℕ, ◌+◌, ◌≤◌, ◌≡◌, refl, false, List, [], ◌∷◌, some, arith, Key, ◌==◌, length, inl, inr,
  Bool-cases, All,
}
use multie_layer_kache.Prelude.Members.{Distinct, In, All-of_In}
use multie_layer_kache.Prelude.Dict
use multie_layer_kache.Prelude.Dict.{Dict, keys, values}
use multie_layer_kache.Prelude.Counts.{
  sum_of, count_of, count_into, sum_of-count_into, count_into-Distinct,
}
use multie_layer_kache.Evaluation.Counter.{intersect, common_count}

module _ {A : Type 0} ⦃key : Key A⦄ where
  sum_of-intersect-le : (c d : Dict A ℕ) → sum_of (values (intersect c d)) ≤ sum_of (values c)
  unfolding intersect
  sum_of-intersect-le [] d = omega arith
  sum_of-intersect-le ((x, n) ∷ c) d = ground (arith, sum_of-intersect-le c d)

  sum_of-remove :
      (x : A) (d : Dict A ℕ) → sum_of (values (Dict.remove x d)) + count_of x d ≤ sum_of (values d)
  unfolding Dict.remove Dict.get count_of
  sum_of-remove x [] = omega arith
  sum_of-remove x ((y, m) ∷ d) = ground (arith, sum_of-remove x d)

  pub count_of-remove :
      (x y : A) (d : Dict A ℕ) → (x == y) ≡ false → count_of y (Dict.remove x d) ≡ count_of y d
  unfolding count_of
  count_of-remove x y d h = rw (Dict.get-remove x y d, h)

  -- An element that is not counted on the left plays no part on the right.
  intersect-remove :
      (x : A) (c d : Dict A ℕ) → (In x (keys c) → ⊥) → intersect c (Dict.remove x d) ≡ intersect c d
  unfolding intersect
  intersect-remove x [] d out = refl
  intersect-remove x ((y, n) ∷ c) d out = elim (Bool-cases (x == y)) [
    | inl e ↦ absurd (out (inl ((key.equal_iff x y).0 e)))
    | inr e ↦ rw (count_of-remove x y d e, intersect-remove x c d (λ m. out (inr m)))
  ]

  sum_of-intersect-le_right :
      (c d : Dict A ℕ) → Distinct (keys c) → sum_of (values (intersect c d)) ≤ sum_of (values d)
  unfolding intersect
  sum_of-intersect-le_right [] d h = omega arith
  sum_of-intersect-le_right ((x, n) ∷ c) d (out, h) =
      let rest = sum_of-intersect-le_right c (Dict.remove x d) h in
      let rest' : sum_of (values (intersect c d)) ≤ sum_of (values (Dict.remove x d)) =
        rw (intersect-remove x c d out) at rest in
      ground (arith, rest', sum_of-remove x d)

  sum_of-intersect_same :
      (c d : Dict A ℕ)
      → All (λ e. Dict.get e.0 d ≡ some e.1) c
      → sum_of (values (intersect c d)) ≡ sum_of (values c)
  unfolding intersect count_of
  sum_of-intersect_same [] d h = refl
  sum_of-intersect_same ((x, n) ∷ c) d (e, h) = rw e (ground (arith, sum_of-intersect_same c d h))

  -- Two lists share no more tokens than either has.
  pub common_count_lem :
      (xs ys : List A) → (common_count xs ys ≤ length xs) × (common_count xs ys ≤ length ys)
  unfolding common_count
  common_count_lem xs ys =
      let c = count_into [] xs in
      let d = count_into [] ys in
      (
        omega (arith, sum_of-intersect-le c d, sum_of-count_into [] xs),
        omega (
          arith,
          sum_of-intersect-le_right c d (count_into-Distinct [] xs tt),
          sum_of-count_into [] ys,
        ),
      )

  pub common_count_self : (xs : List A) → common_count xs xs ≡ length xs
  unfolding common_count
  common_count_self xs =
      let c = count_into [] xs in
      let all : All (λ e. Dict.get e.0 c ≡ some e.1) c =
        All-of_In (λ e. Dict.get e.0 c ≡ some e.1) c
          (λ e m. Dict.In-get e.0 e.1 c (count_into-Distinct [] xs tt) m) in
      omega (arith, sum_of-intersect_same c c all, sum_of-count_into [] xs)
