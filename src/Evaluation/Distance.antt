-- ===== src/Evaluation/Distance.antt =====
-- src/evaluators/quality_metrics.py: `_levenshtein`, row by row. The inner loop overwrites `dp[j]` for
-- j = 1 … n; a row is the list of its cells, and a step reads `prev`, the old `dp[j]` and `dp[j - 1]`.
pub mod Table
pub mod Scripts
use multie_layer_kache.Prelude.{
  ℕ, suc, ◌+◌, min, Bool, List, [], ◌∷◌, Key, ◌==◌, if◌then◌else◌, last_cell, length,
}

-- `list(range(i, i + k))`
abbrev pub count_up : {A : Type 0} → ℕ → List A → List ℕ
count_up i [] = []
count_up i (y ∷ ys) = i ∷ count_up (suc i) ys

module _ {A : Type 0} ⦃key : Key A⦄ where
  -- the cells of `dp` from `j` on: `diagonal` is `prev`, then come the old `dp[j]` and what follows,
  -- and `left` is the new `dp[j - 1]`
  unfoldable pub edit_row : A → List A → ℕ → List ℕ → ℕ → List ℕ
  edit_row x [] diagonal above left = []
  edit_row x (y ∷ ys) diagonal [] left = []
  edit_row x (y ∷ ys) diagonal (up ∷ above) left =
      let cell = if x == y then diagonal else 1 + min (min diagonal up) left in
      cell ∷ edit_row x ys up above cell

  -- round `i` of the outer loop
  unfoldable pub edit_round : ℕ → A → List A → List ℕ → List ℕ
  unfolding edit_row
  edit_round i x b [] = []
  edit_round i x b (p ∷ dp) = i ∷ edit_row x b p dp i

  unfoldable pub edit_rounds : ℕ → List A → List A → List ℕ → List ℕ
  unfolding edit_round
  edit_rounds i [] b dp = dp
  edit_rounds i (x ∷ a) b dp = edit_rounds (suc i) a b (edit_round i x b dp)

  -- `dp[n]` after the rounds
  unfoldable pub levenshtein : List A → List A → ℕ
  unfolding edit_rounds
  levenshtein a b = last_cell 0 (edit_rounds 1 a b (0 ∷ count_up 1 b))
