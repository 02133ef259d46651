-- ===== src/Evaluation/Lcs.antt =====
-- src/evaluators/quality_metrics.py: `_lcs_length`, row by row. The inner loop writes `curr[j]` for
-- j = 1 … n; a row is the list of its cells, and a round reads `prev[j - 1]`, `prev[j]`, `curr[j - 1]`.
pub mod Rows
pub mod Longest
use multie_layer_kache.Prelude.{
  ℕ, ◌+◌, max, Bool, List, [], ◌∷◌, map, Key, ◌==◌, if◌then◌else◌, last_cell,
}

module _ {A : Type 0} ⦃key : Key A⦄ where
  -- the cells of `curr` from `j` on: `diagonal` is `prev[j - 1]`, then come `prev[j]` and what follows,
  -- and `left` is `curr[j - 1]`
  unfoldable pub lcs_row : A → List A → ℕ → List ℕ → ℕ → List ℕ
  lcs_row x [] diagonal above left = []
  lcs_row x (y ∷ ys) diagonal [] left = []
  lcs_row x (y ∷ ys) diagonal (up ∷ above) left =
      let cell = if x == y then diagonal + 1 else max left up in cell ∷ lcs_row x ys up above cell

  -- one round of the outer loop, from `prev` to the `prev` of the next
  unfoldable pub lcs_round : A → List A → List ℕ → List ℕ
  unfolding lcs_row
  lcs_round x b [] = []
  lcs_round x b (p ∷ prev) = 0 ∷ lcs_row x b p prev 0

  unfoldable pub lcs_rounds : List A → List A → List ℕ → List ℕ
  unfolding lcs_round
  lcs_rounds [] b prev = prev
  lcs_rounds (x ∷ a) b prev = lcs_rounds a b (lcs_round x b prev)

  -- `prev[n]` after the rounds
  unfoldable pub lcs_length : List A → List A → ℕ
  unfolding lcs_rounds
  lcs_length a b = last_cell 0 (lcs_rounds a b (0 ∷ map (λ y. 0) b))
