-- ===== src/Evaluation/Lcs/Rows.antt =====
-- The table of `_lcs_length` against the recursion on the two words, read from their ends.
use mathlib.Core.List.{reverse, reverse_aux}
use multie_layer_kache.Prelude.{
  ℕ, ◌+◌, max, ◌≡◌, ◌∙◌, refl, sym, ap, List, [], ◌∷◌, map, Key, ◌==◌, if◌then◌else◌, last_cell,
}
use multie_layer_kache.Evaluation.Lcs.{lcs_row, lcs_round, lcs_rounds, lcs_length}

module _ {A : Type 0} ⦃key : Key A⦄ where
  abbrev pub lcs : List A → List A → ℕ
  lcs [] ys = 0
  lcs (x ∷ xs) [] = 0
  lcs (x ∷ xs) (y ∷ ys) =
      let both = lcs xs ys in
      let right = lcs (x ∷ xs) ys in
      let left = lcs xs (y ∷ ys) in if x == y then both + 1 else max right left

  -- the cells of a row behind the one of `sb`: `sa` and `sb` are the words read so far, last letter first
  abbrev cells : List A → List A → List A → List ℕ
  cells sa sb [] = []
  cells sa sb (y ∷ ys) = lcs sa (y ∷ sb) ∷ cells sa (y ∷ sb) ys

  lcs_row-cells :
      (x : A) (sa sb ys : List A)
      → lcs_row x ys (lcs sa sb) (cells sa sb ys) (lcs (x ∷ sa) sb) ≡ cells (x ∷ sa) sb ys
  unfolding lcs_row
  lcs_row-cells x sa sb [] = refl
  lcs_row-cells x sa sb (y ∷ ys) =
      ap (λ l. lcs (x ∷ sa) (y ∷ sb) ∷ l) (lcs_row-cells x sa (y ∷ sb) ys)

  lcs-empty : (sa : List A) → lcs sa [] ≡ 0
  lcs-empty [] = refl
  lcs-empty (x ∷ sa) = refl

  lcs_rounds-cells :
      (sa xs b : List A) → lcs_rounds xs b (0 ∷ cells sa [] b) ≡ 0 ∷ cells (reverse_aux xs sa) [] b
  unfolding lcs_rounds lcs_round
  lcs_rounds-cells sa [] b = refl
  lcs_rounds-cells sa (x ∷ xs) b =
      ap (λ l. lcs_rounds xs b (0 ∷ l))
        (ap (λ d. lcs_row x b d (cells sa [] b) 0) (sym (lcs-empty sa)) ∙ lcs_row-cells x sa [] b)
      ∙ lcs_rounds-cells (x ∷ sa) xs b

  cells-zero : (sb ys : List A) → cells [] sb ys ≡ map (λ y. 0) ys
  cells-zero sb [] = refl
  cells-zero sb (y ∷ ys) = ap (◌∷◌ 0) (cells-zero (y ∷ sb) ys)

  last_cell-cells :
      (sa sb ys : List A) → last_cell (lcs sa sb) (cells sa sb ys) ≡ lcs sa (reverse_aux ys sb)
  last_cell-cells sa sb [] = refl
  last_cell-cells sa sb (y ∷ ys) = last_cell-cells sa (y ∷ sb) ys

  -- The table computes the recursion on the reversed words.
  pub lcs_length-reverse : (a b : List A) → lcs_length a b ≡ lcs (reverse a) (reverse b)
  unfolding lcs_length
  lcs_length-reverse a b =
      ap (λ l. last_cell 0 (lcs_rounds a b (0 ∷ l))) (sym (cells-zero [] b))
      ∙ ap (last_cell 0) (lcs_rounds-cells [] a b)
      ∙ ap (λ n. last_cell n (cells (reverse a) [] b)) (sym (lcs-empty (reverse a)))
      ∙ last_cell-cells (reverse a) [] b
