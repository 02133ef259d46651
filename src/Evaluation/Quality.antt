-- ===== src/Evaluation/Quality.antt =====
-- src/evaluators/quality_metrics.py: `QualityEvaluator`. The string methods and `re.sub` are the
-- standard library's and a parameter; the patterns, the separators and their order are the source's.
pub mod Agreement
pub mod Scores
pub mod Ratios
use Prim.Native.String.{[] as empty, ◌∷◌ as push}
use multie_layer_kache.Prelude.{
  ℕ, ◌+◌, ◌<◌, ◌≡◌, max, String, Bool, true, false, not, ◌&&◌, ◌||◌, List, [], ◌∷◌, ◌++◌, map,
  Option, none, some, ◌==◌, string_key, nat_key, if◌then◌else◌, length, zip, filter_by, or_default,
}
use multie_layer_kache.Prelude.Members.{member}
use multie_layer_kache.Prelude.Dict
use multie_layer_kache.Prelude.Dict.{Dict}
use multie_layer_kache.Prelude.Floats.{Double, nought, one, max_default}
use multie_layer_kache.Evaluation.Counter.{common_count}
use multie_layer_kache.Evaluation.Lcs.{lcs_length}
use multie_layer_kache.Evaluation.Distance.{levenshtein}

-- What the normalisation calls: `text.lower()`, `re.sub(pattern, repl, text)`, `text.translate` with a
-- table that deletes, `string.punctuation`, `text.split()`, `text.split(sep)`, `text.strip()` and
-- `sep.join(parts)`.
pub record Strings : Type 0 where
  pub lower : String → String
  pub sub : String → String → String → String
  pub delete : String → String → String
  pub punctuation : String
  pub split : String → List String
  pub split_on : String → String → List String
  pub strip : String → String
  pub join : String → List String → String

-- the characters of a string, each as a string of one
unfoldable pub characters : String → List String
characters empty = []
characters (push c s) = push c empty ∷ characters s

abbrev pub is_empty {ℓ} : {A : Type ℓ} → List A → Bool
is_empty [] = true
is_empty (x ∷ xs) = false

abbrev pub articles_pattern : String
articles_pattern = "\\b(a|an|the)\\b"

unfoldable pub normalize_answer : Strings → String → String
normalize_answer str text =
    let lowered = str.lower text in
    let bare = str.sub articles_pattern " " lowered in
    str.join " " (str.split (str.delete str.punctuation bare))

-- the tokens of the normalised text
unfoldable pub tokens : Strings → String → List String
unfolding normalize_answer
tokens str text = str.split (normalize_answer str text)

-- What rounding leaves exact on small whole numbers: a count by itself is 1, nothing by a count is 0,
-- and 2 · 1 · 1 / (1 + 1) is 1.
pub record IsExactOnCounts {W : Type 0} (d : Double W) : Type 0 where
  pub whole : (n : ℕ) → 0 < n → d.div (d.of_int n) (d.of_int n) ≡ d.lit 1 0
  pub none_of : (n : ℕ) → 0 < n → d.div (d.of_int 0) (d.of_int n) ≡ d.lit 0 0
  pub sub_nought : d.sub (d.lit 1 0) (d.lit 0 0) ≡ d.lit 1 0
  pub two_positive : d.le (d.add (d.lit 1 0) (d.lit 1 0)) (d.lit 0 0) ≡ false
  pub harmonic :
      d.div (d.mul (d.mul (d.of_int 2) (d.lit 1 0)) (d.lit 1 0)) (d.add (d.lit 1 0) (d.lit 1 0))
      ≡ d.lit 1 0

module _ {W : Type 0} ⦃d : Double W⦄ where
  -- the harmonic mean of `common / n` and `common / m`
  unfoldable pub f1_of : ℕ → ℕ → ℕ → W
  f1_of common n m =
      let precision = d.div (d.of_int common) (d.of_int n) in
      let recall = d.div (d.of_int common) (d.of_int m) in
      let total = d.add precision recall in
      if d.le total nought && d.le nought total
      then nought
      else d.div (d.mul (d.mul (d.of_int 2) precision) recall) total

  unfoldable pub token_f1 : Strings → String → String → W
  unfolding tokens f1_of common_count
  token_f1 str prediction reference =
      let pred_tokens = tokens str prediction in
      let ref_tokens = tokens str reference in
      if is_empty pred_tokens && is_empty ref_tokens
      then one
      else if is_empty pred_tokens || is_empty ref_tokens
      then nought
      else f1_of (common_count pred_tokens ref_tokens) (length pred_tokens) (length ref_tokens)

  unfoldable pub exact_match : Strings → String → String → W
  unfolding normalize_answer
  exact_match str prediction reference =
      if normalize_answer str prediction == normalize_answer str reference then one else nought

  unfoldable pub rouge_l : Strings → String → String → W
  unfolding tokens f1_of lcs_length
  rouge_l str prediction reference =
      let pred_tokens = tokens str prediction in
      let ref_tokens = tokens str reference in
      if is_empty pred_tokens || is_empty ref_tokens
      then nought
      else f1_of (lcs_length pred_tokens ref_tokens) (length pred_tokens) (length ref_tokens)

  unfoldable pub edit_similarity : Strings → String → String → W
  unfolding normalize_answer levenshtein characters
  edit_similarity str prediction reference =
      let a = characters (normalize_answer str prediction) in
      let b = characters (normalize_answer str reference) in
      if is_empty a && is_empty b
      then one
      else if is_empty a || is_empty b
      then nought
      else d.sub one (d.div (d.of_int (levenshtein a b)) (d.of_int (max (length a) (length b))))

-- the reference answers of a sample, split at "|"; a sample with none has the empty one
unfoldable pub references_of : Strings → String → List String
references_of str ref =
    let refs = filter_by (λ r. not (r == "")) (map (λ r. str.strip r) (str.split_on "|" ref)) in
    if is_empty refs then "" ∷ [] else refs

-- `metrics or [...]`
unfoldable pub metrics_of : Option (List String) → List String
metrics_of requested =
    let names = or_default requested [] in
    if is_empty names then "f1" ∷ "em" ∷ "rouge_l" ∷ "edit_sim" ∷ [] else names

module _ {W : Type 0} ⦃d : Double W⦄ where
  -- `max(metric(pred, r) for r in refs)`; `refs` is never empty
  abbrev pub best : (String → String → W) → String → List String → W
  best metric pred refs = max_default nought (map (metric pred) refs)

  -- `if name in self.metrics: scores[name].append(score)`
  unfoldable pub append_score :
      List String → String → W → Dict String (List W) → Dict String (List W)
  unfolding Dict.modify
  append_score metrics name score scores =
      if member name metrics then Dict.modify name (λ l. l ++ score ∷ []) scores else scores

  -- the body of the loop over the samples
  unfoldable pub score_sample :
      Strings → List String → Dict String (List W) → String × String → Dict String (List W)
  unfolding append_score references_of token_f1 exact_match rouge_l edit_similarity
  score_sample str metrics scores (pred, ref) =
      let refs = references_of str ref in
      let scores1 = append_score metrics "f1" (best (token_f1 str) pred refs) scores in
      let scores2 = append_score metrics "em" (best (exact_match str) pred refs) scores1 in
      let scores3 = append_score metrics "rouge_l" (best (rouge_l str) pred refs) scores2 in
      append_score metrics "edit_sim" (best (edit_similarity str) pred refs) scores3

  unfoldable pub score_samples :
      Strings → List String → Dict String (List W) → List (String × String) → Dict String (List W)
  unfolding score_sample
  score_samples str metrics scores [] = scores
  score_samples str metrics scores (s ∷ samples) =
      score_samples str metrics (score_sample str metrics scores s) samples

  -- `{m: [] for m in self.metrics}`
  unfoldable pub no_scores : List String → Dict String (List W) → Dict String (List W)
  unfolding Dict.put
  no_scores [] scores = scores
  no_scores (m ∷ metrics) scores = no_scores metrics (Dict.put m [] scores)

  -- `{m: mean(v) for m, v in scores.items() if v}`
  unfoldable pub means : (List W → W) → Dict String (List W) → Dict String W
  means mean [] = []
  means mean ((m, v) ∷ scores) =
      let rest = means mean scores in if is_empty v then rest else (m, mean v) ∷ rest

  -- `mean` is `round(float(np.mean(v)), 4)`; lists of different lengths fail the assertion
  unfoldable pub evaluate :
      Strings → (List W → W) → List String → List String → List String → Option (Dict String W)
  unfolding score_samples no_scores means zip
  evaluate str mean metrics predictions references =
      if length predictions == length references
      then some (
          means mean
            (score_samples str metrics (no_scores metrics []) (zip predictions references)))
      else none
