-- ===== src/Evaluation/Quality/Agreement.antt =====
-- The scores of `QualityEvaluator` for an answer that normalises to the same text as the reference.
use multie_layer_kache.Prelude.{
  ℕ, ◌<◌, max, ◌≡◌, refl, ap, String, false, List, [], ◌∷◌, arith, Key, string_key, equal_self, inl,
  inr, Bool-cases, if◌then◌else◌, length,
}
use multie_layer_kache.Prelude.Floats.{Double, nought, one}
use multie_layer_kache.Evaluation.Lcs.{lcs_length}
use multie_layer_kache.Evaluation.Lcs.Longest.{
  IsSubsequence, none_left, keep, lcs_length_lem, lcs_length-le,
}
use multie_layer_kache.Evaluation.Distance.{levenshtein}
use multie_layer_kache.Evaluation.Distance.Scripts.{Script, done, same, levenshtein_lem}
use multie_layer_kache.Evaluation.Counter.Overlap.{common_count_self}
use multie_layer_kache.Evaluation.Quality.{
  Strings, IsExactOnCounts, is_empty, characters, normalize_answer, tokens, f1_of, token_f1,
  exact_match, rouge_l, edit_similarity,
}

module _ {A : Type 0} where
  IsSubsequence-self : (xs : List A) → IsSubsequence xs xs
  IsSubsequence-self [] = none_left
  IsSubsequence-self (x ∷ xs) = keep x (IsSubsequence-self xs)

  Script-self : (xs : List A) → Script xs xs 0
  Script-self [] = done
  Script-self (x ∷ xs) = same x (Script-self xs)

  is_empty-false : (xs : List A) → is_empty xs ≡ false → 0 < length xs
  is_empty-false [] h = absurd (ground arith)
  is_empty-false (x ∷ xs) h = omega arith

module _ {A : Type 0} ⦃key : Key A⦄ where
  lcs_length_self : (xs : List A) → lcs_length xs xs ≡ length xs
  lcs_length_self xs =
      let all = IsSubsequence-self xs in
      omega (arith, (lcs_length_lem xs xs xs all all).0, (lcs_length-le xs xs).0)

  levenshtein_self : (xs : List A) → levenshtein xs xs ≡ 0
  levenshtein_self xs = omega (arith, (levenshtein_lem xs xs 0 (Script-self xs)).0)

module _ {W : Type 0} ⦃d : Double W⦄ (exact : IsExactOnCounts d) where
  f1_of_whole : (n : ℕ) → 0 < n → f1_of n n n ≡ one {W = W}
  unfolding f1_of
  f1_of_whole n h = rw (exact.whole n h, exact.two_positive, exact.harmonic) refl

  token_f1_same :
      (str : Strings) (p r : String) → tokens str p ≡ tokens str r → token_f1 str p r ≡ one {W = W}
  unfolding token_f1
  token_f1_same str p r e = rw e (elim (Bool-cases (is_empty (tokens str r))) [
    | inl h ↦ rw h refl
    | inr h ↦
        rw
          (
            h,
            common_count_self (tokens str r),
            f1_of_whole (length (tokens str r)) (is_empty-false (tokens str r) h),
          )
          refl
  ])

  rouge_l_same :
      (str : Strings) (p r : String)
      → tokens str p ≡ tokens str r
      → rouge_l str p r ≡ (if is_empty (tokens str r) then nought {W = W} else one)
  unfolding rouge_l
  rouge_l_same str p r e = rw e (elim (Bool-cases (is_empty (tokens str r))) [
    | inl h ↦ rw h refl
    | inr h ↦
        rw
          (
            h,
            lcs_length_self (tokens str r),
            f1_of_whole (length (tokens str r)) (is_empty-false (tokens str r) h),
          )
          refl
  ])

  edit_similarity_same :
      (str : Strings) (p r : String)
      → normalize_answer str p ≡ normalize_answer str r
      → edit_similarity str p r ≡ one {W = W}
  unfolding edit_similarity
  edit_similarity_same str p r e =
      let a = characters (normalize_answer str r) in
      rw e (elim (Bool-cases (is_empty a)) [
        | inl h ↦ rw h refl
        | inr h ↦
            let long : 0 < max (length a) (length a) = omega (arith, is_empty-false a h) in
            rw
              (
                h,
                levenshtein_self a,
                exact.none_of (max (length a) (length a)) long,
                exact.sub_nought,
              )
              refl
      ])

  -- An answer that normalises to the same text as the reference has exact match, token F1 and edit
  -- similarity 1; its ROUGE-L is 1 too, unless no token is left, where it is 0 although the others
  -- are 1.
  pub same_answer :
      (str : Strings) (p r : String)
      → normalize_answer str p ≡ normalize_answer str r
      → (exact_match str p r ≡ one {W = W})
        × (token_f1 str p r ≡ one {W = W})
        × (edit_similarity str p r ≡ one {W = W})
        × (rouge_l str p r ≡ (if is_empty (tokens str r) then nought {W = W} else one))
  unfolding exact_match tokens
  same_answer str p r e =
      let e' : tokens str p ≡ tokens str r = ap (λ t. str.split t) e in
      (
        rw (e, equal_self (normalize_answer str r)) refl,
        token_f1_same str p r e',
        edit_similarity_same str p r e,
        rouge_l_same str p r e',
      )
