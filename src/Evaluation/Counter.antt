-- ===== src/Evaluation/Counter.antt =====
-- The `collections.Counter` that `token_f1` of src/evaluators/quality_metrics.py counts tokens with: a
-- dictionary from an element to how often it occurs, and `&`, which keeps the smaller count.
pub mod Overlap
use multie_layer_kache.Prelude.{
  ℕ, ◌+◌, min, Bool, List, [], ◌∷◌, Key, if◌then◌else◌, ltb, or_default,
}
use multie_layer_kache.Prelude.Dict
use multie_layer_kache.Prelude.Dict.{Dict}
use multie_layer_kache.Prelude.Counts.{sum_of, count_of, count_into}

module _ {A : Type 0} ⦃key : Key A⦄ where
  -- `counter & other`
  unfoldable pub intersect : Dict A ℕ → Dict A ℕ → Dict A ℕ
  unfolding count_of
  intersect [] other = []
  intersect ((x, n) ∷ counts) other =
      let rest = intersect counts other in
      let both = min n (count_of x other) in if ltb 0 both then (x, both) ∷ rest else rest

  -- `sum((Counter(xs) & Counter(ys)).values())`
  unfoldable pub common_count : List A → List A → ℕ
  unfolding count_into intersect
  common_count xs ys = sum_of (Dict.values (intersect (count_into [] xs) (count_into [] ys)))
