-- ===== src/Evaluation/Quality/Ratios.antt =====
-- The counts that `QualityEvaluator` divides, against the lengths that it divides them by.
use multie_layer_kache.Prelude.{
  ℕ, ◌+◌, ◌≤◌, min, max, ◌≡◌, ◌∙◌, ap, refl, Bool, List, [], ◌∷◌, arith, Key, ◌==◌, string_key,
  if◌then◌else◌, length, count_by, inl, inr, Bool-cases, equal-true, equal_self, if_true, if_false,
}
use multie_layer_kache.Prelude.Members.{Distinct, In}
use multie_layer_kache.Prelude.Dict
use multie_layer_kache.Prelude.Dict.{Dict, keys, values}
use multie_layer_kache.Evaluation.Lcs.{lcs_length}
use multie_layer_kache.Evaluation.Lcs.Longest.{
  IsSubsequence, none_left, skip, keep, lcs_length_lem, IsSubsequence-nil,
}
use multie_layer_kache.Evaluation.Distance.{levenshtein}
use multie_layer_kache.Evaluation.Distance.Scripts.{levenshtein-le}
use multie_layer_kache.Prelude.Counts.{
  sum_of, count_of, count_into, sum_of-count_into, count_of-count_into, count_of-empty,
  count_into-Distinct,
}
use multie_layer_kache.Evaluation.Counter.{intersect, common_count}
use multie_layer_kache.Evaluation.Counter.Overlap.{common_count_lem, count_of-remove}

module _ {A : Type 0} ⦃key : Key A⦄ where
  -- A subsequence has no element more often.
  count_by-IsSubsequence :
      (p : A → Bool) {s xs : List A} → IsSubsequence s xs → count_by p s ≤ count_by p xs
  count_by-IsSubsequence p none_left = omega arith
  count_by-IsSubsequence p (skip x h) = omega (arith, count_by-IsSubsequence p h)
  count_by-IsSubsequence p (keep x h) = omega (arith, count_by-IsSubsequence p h)

  sum_of-intersect-remove_le :
      (k : A) (c d : Dict A ℕ)
      → sum_of (values (intersect (Dict.remove k c) d)) ≤ sum_of (values (intersect c d))
  unfolding intersect Dict.remove
  sum_of-intersect-remove_le k [] d = omega arith
  sum_of-intersect-remove_le k ((x, n) ∷ c) d = ground (arith, sum_of-intersect-remove_le k c d)

  sum_of-intersect-cons :
      (x : A) (n : ℕ) (c d : Dict A ℕ)
      → sum_of (values (intersect ((x, n) ∷ c) d))
        ≡ min n (count_of x d) + sum_of (values (intersect c d))
  unfolding intersect
  sum_of-intersect-cons x n c d = ground arith

  count_of-cons :
      (k x : A) (n : ℕ) (c : Dict A ℕ)
      → count_of k ((x, n) ∷ c) ≡ (if x == k then n else count_of k c)
  unfolding count_of Dict.get
  count_of-cons k x n c = ground arith

  sum_of-intersect-remove :
      (k : A) (c d : Dict A ℕ)
      → min (count_of k c) (count_of k d) + sum_of (values (intersect (Dict.remove k c) d))
        ≤ sum_of (values (intersect c d))
  unfolding Dict.remove
  sum_of-intersect-remove k [] d = omega (arith, count_of-empty k)
  sum_of-intersect-remove k ((x, n) ∷ c) d = elim (Bool-cases (x == k)) [
    | inl e ↦
        let same : count_of x d ≡ count_of k d = ap (λ y. count_of y d) (equal-true x k e) in
        rw e (
          omega (
            arith,
            same,
            sum_of-intersect-cons x n c d,
            count_of-cons k x n c,
            if_true (x == k) n (count_of k c) e,
            sum_of-intersect-remove_le k c d,
          ))
    | inr e ↦ rw e (
        omega (
          arith,
          sum_of-intersect-cons x n c d,
          sum_of-intersect-cons x n (Dict.remove k c) d,
          count_of-cons k x n c,
          if_false (x == k) n (count_of k c) e,
          sum_of-intersect-remove k c d,
        ))
  ]

  count_of-missing : (k : A) (c : Dict A ℕ) → (In k (keys c) → ⊥) → count_of k c ≡ 0
  unfolding count_of
  count_of-missing k c out = rw (Dict.get_absent k c out) refl

  -- The bounds of a counter without one of its keys.
  smaller :
      (x : A) (n : ℕ) (c left right : Dict A ℕ)
      → (In x (keys c) → ⊥)
      → ((k : A)
          → (count_of k ((x, n) ∷ c) ≤ count_of k left)
            × (count_of k ((x, n) ∷ c) ≤ count_of k right))
      → (k : A)
      → (count_of k c ≤ count_of k (Dict.remove x left)) × (count_of k c ≤ count_of k right)
  smaller x n c left right out below k = elim (Bool-cases (x == k)) [
    | inl e ↦
        let missing = count_of-missing x c out in
        let missing' : count_of k c ≡ 0 = rw (equal-true x k e) at missing in
        (omega (arith, missing'), omega (arith, missing'))
    | inr e ↦
        let same = count_of-cons k x n c ∙ if_false (x == k) n (count_of k c) e in
        (omega (arith, same, below k, count_of-remove x k left e), omega (arith, same, below k))
  ]

  -- What is counted in both counters is counted in their intersection.
  sum_of-le-intersect :
      (c left right : Dict A ℕ)
      → Distinct (keys c)
      → ((k : A) → (count_of k c ≤ count_of k left) × (count_of k c ≤ count_of k right))
      → sum_of (values c) ≤ sum_of (values (intersect left right))
  sum_of-le-intersect [] left right h below = omega arith
  sum_of-le-intersect ((x, n) ∷ c) left right (out, h) below =
      let rest =
        sum_of-le-intersect c (Dict.remove x left) right h (smaller x n c left right out below) in
      omega (
        arith,
        rest,
        sum_of-intersect-remove x left right,
        below x,
        count_of-cons x x n c,
        if_true (x == x) n (count_of x c) (equal_self x),
      )

  lcs_length-le-common_count : (xs ys : List A) → lcs_length xs ys ≤ common_count xs ys
  unfolding common_count
  lcs_length-le-common_count xs ys =
      let (s, h, k, l) =
        (lcs_length_lem xs ys [] (IsSubsequence-nil xs) (IsSubsequence-nil ys)).1 in
      let c = count_into [] s in
      omega (
        arith,
        l,
        sum_of-count_into [] s,
        sum_of-le-intersect c (count_into [] xs) (count_into [] ys) (count_into-Distinct [] s tt)
            (λ x. (
              omega (
                arith,
                count_of-count_into x [] s,
                count_of-count_into x [] xs,
                count_by-IsSubsequence (λ y. y == x) h,
              ),
              omega (
                arith,
                count_of-count_into x [] s,
                count_of-count_into x [] ys,
                count_by-IsSubsequence (λ y. y == x) k,
              ),
            )),
      )

  -- The longest common subsequence of two lists is no longer than the number of elements they share,
  -- which is at most the length of either; their edit distance is at most the greater length.
  pub numerators_le :
      (xs ys : List A)
      → (lcs_length xs ys ≤ common_count xs ys)
        × (common_count xs ys ≤ min (length xs) (length ys))
        × (levenshtein xs ys ≤ max (length xs) (length ys))
  numerators_le xs ys = (
    lcs_length-le-common_count xs ys,
    omega (arith, common_count_lem xs ys),
    levenshtein-le xs ys,
  )
