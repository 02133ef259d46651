-- ===== src/Evaluation/Distance/Table.antt =====
-- The table of `_levenshtein` against the recursion on the two words, read from their ends.
use mathlib.Core.List.{reverse, reverse_aux}
use multie_layer_kache.Prelude.{
  ℕ, suc, ◌+◌, min, ◌≡◌, ◌∙◌, refl, sym, ap, List, [], ◌∷◌, Key, ◌==◌, if◌then◌else◌, last_cell,
  length,
}
use multie_layer_kache.Evaluation.Distance.{
  count_up, edit_row, edit_round, edit_rounds, levenshtein,
}

module _ {A : Type 0} ⦃key : Key A⦄ where
  abbrev pub edits : List A → List A → ℕ
  edits [] ys = length ys
  edits (x ∷ xs) [] = suc (length xs)
  edits (x ∷ xs) (y ∷ ys) =
      let both = edits xs ys in
      let insertion = edits (x ∷ xs) ys in
      let deletion = edits xs (y ∷ ys) in
      if x == y then both else 1 + min (min both deletion) insertion

  -- the cells of a row behind the one of `sb`: `sa` and `sb` are the words read so far, last letter first
  abbrev edit_cells : List A → List A → List A → List ℕ
  edit_cells sa sb [] = []
  edit_cells sa sb (y ∷ ys) = edits sa (y ∷ sb) ∷ edit_cells sa (y ∷ sb) ys

  edit_row-edit_cells :
      (x : A) (sa sb ys : List A)
      → edit_row x ys (edits sa sb) (edit_cells sa sb ys) (edits (x ∷ sa) sb)
        ≡ edit_cells (x ∷ sa) sb ys
  unfolding edit_row
  edit_row-edit_cells x sa sb [] = refl
  edit_row-edit_cells x sa sb (y ∷ ys) =
      ap (λ l. edits (x ∷ sa) (y ∷ sb) ∷ l) (edit_row-edit_cells x sa (y ∷ sb) ys)

  pub edits-empty : (sa : List A) → edits sa [] ≡ length sa
  edits-empty [] = refl
  edits-empty (x ∷ sa) = refl

  edit_rounds-edit_cells :
      (sa xs b : List A)
      → edit_rounds (suc (length sa)) xs b (length sa ∷ edit_cells sa [] b)
        ≡ length (reverse_aux xs sa) ∷ edit_cells (reverse_aux xs sa) [] b
  unfolding edit_rounds edit_round
  edit_rounds-edit_cells sa [] b = refl
  edit_rounds-edit_cells sa (x ∷ xs) b =
      ap (λ l. edit_rounds (suc (suc (length sa))) xs b (suc (length sa) ∷ l))
        (ap (λ d. edit_row x b d (edit_cells sa [] b) (suc (length sa))) (sym (edits-empty sa))
          ∙ edit_row-edit_cells x sa [] b)
      ∙ edit_rounds-edit_cells (x ∷ sa) xs b

  edit_cells-count_up : (sb ys : List A) → edit_cells [] sb ys ≡ count_up (suc (length sb)) ys
  edit_cells-count_up sb [] = refl
  edit_cells-count_up sb (y ∷ ys) = ap (◌∷◌ (suc (length sb))) (edit_cells-count_up (y ∷ sb) ys)

  last_cell-edit_cells :
      (sa sb ys : List A)
      → last_cell (edits sa sb) (edit_cells sa sb ys) ≡ edits sa (reverse_aux ys sb)
  last_cell-edit_cells sa sb [] = refl
  last_cell-edit_cells sa sb (y ∷ ys) = last_cell-edit_cells sa (y ∷ sb) ys

  -- The table computes the recursion on the reversed words.
  pub levenshtein-reverse : (a b : List A) → levenshtein a b ≡ edits (reverse a) (reverse b)
  unfolding levenshtein
  levenshtein-reverse a b =
      ap (λ l. last_cell 0 (edit_rounds 1 a b (0 ∷ l))) (sym (edit_cells-count_up [] b))
      ∙ ap (last_cell 0) (edit_rounds-edit_cells [] a b)
      ∙ ap (λ n. last_cell n (edit_cells (reverse a) [] b)) (sym (edits-empty (reverse a)))
      ∙ last_cell-edit_cells (reverse a) [] b
