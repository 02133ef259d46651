-- ===== src/Evaluation/Quality/Scores.antt =====
-- What `QualityEvaluator.evaluate` returns for a metric.
use mathlib.Core.Option
use mathlib.Core.List.{append-nil, append_assoc}
use multie_layer_kache.Prelude.{
  ◌<◌, ◌≡◌, ◌∙◌, refl, ap, sym, String, Bool, true, false, Option, none, some, List, [], ◌∷◌, ◌++◌,
  map, arith, ◌==◌, string_key, nat_key, if◌then◌else◌, length, length-map, length-zip, zip, inl,
  inr, Bool-cases,
}
use multie_layer_kache.Prelude.Members.{member}
use multie_layer_kache.Prelude.Dict
use multie_layer_kache.Prelude.Dict.{Dict}
use multie_layer_kache.Prelude.Floats.{Double}
use multie_layer_kache.Evaluation.Quality.{
  Strings, references_of, token_f1, exact_match, rouge_l, edit_similarity, best, append_score,
  score_sample, score_samples, no_scores, means, evaluate,
}

-- The four metrics and their names.
pub data Metric : Type 0 where
  f1 em rouge edit : Metric

abbrev pub metric_name : Metric → String
metric_name f1 = "f1"
metric_name em = "em"
metric_name rouge = "rouge_l"
metric_name edit = "edit_sim"

both_same : {A : Type 0} (b : Bool) (x : A) → (if b then x else x) ≡ x
both_same true x = refl
both_same false x = refl

module _ {W : Type 0} ⦃d : Double W⦄ where
  abbrev pub metric_score : Metric → Strings → String → String → W
  metric_score f1 = token_f1
  metric_score em = exact_match
  metric_score rouge = rouge_l
  metric_score edit = edit_similarity

  -- the best score of a prediction against the references that stand in one string
  abbrev pub sample_score : Metric → Strings → String × String → W
  sample_score k str (pred, ref) = best (metric_score k str) pred (references_of str ref)

  abbrev append_end : W → List W → List W
  append_end x l = l ++ x ∷ []

  get-append_score :
      (m name : String) (metrics : List String) (x : W) (scores : Dict String (List W))
      → Dict.get m (append_score metrics name x scores) ≡ (
          if name == m
          then if member name metrics
            then Option.map (append_end x) (Dict.get m scores)
            else Dict.get m scores
          else Dict.get m scores)
  unfolding append_score
  get-append_score m name metrics x scores = elim (Bool-cases (member name metrics)) [
    | inl h ↦ rw h (Dict.get-modify name m (append_end x) scores)
    | inr h ↦ rw h (sym (both_same (name == m) (Dict.get m scores)))
  ]

  get-score_sample :
      (k : Metric) (str : Strings) (metrics : List String) (scores : Dict String (List W))
      (s : String × String)
      → member (metric_name k) metrics ≡ true
      → Dict.get (metric_name k) (score_sample str metrics scores s)
        ≡ Option.map (append_end (sample_score k str s)) (Dict.get (metric_name k) scores)
  unfolding score_sample
  get-score_sample f1 str metrics scores (p, r) h =
      rw (get-append_score, get-append_score, get-append_score, get-append_score, h) refl
  get-score_sample em str metrics scores (p, r) h =
      rw (get-append_score, get-append_score, get-append_score, get-append_score, h) refl
  get-score_sample rouge str metrics scores (p, r) h =
      rw (get-append_score, get-append_score, get-append_score, get-append_score, h) refl
  get-score_sample edit str metrics scores (p, r) h =
      rw (get-append_score, get-append_score, get-append_score, get-append_score, h) refl

  get-score_samples :
      (k : Metric) (str : Strings) (metrics : List String) (scores : Dict String (List W))
      (l : List W) (samples : List (String × String))
      → member (metric_name k) metrics ≡ true
      → Dict.get (metric_name k) scores ≡ some l
      → Dict.get (metric_name k) (score_samples str metrics scores samples)
        ≡ some (l ++ map (sample_score k str) samples)
  unfolding score_samples
  get-score_samples k str metrics scores l [] h e = e ∙ ap some (sym (append-nil l))
  get-score_samples k str metrics scores l (s ∷ samples) h e =
      let next : Dict.get (metric_name k) (score_sample str metrics scores s)
          ≡ some (l ++ sample_score k str s ∷ []) =
        get-score_sample k str metrics scores s h
        ∙ ap (Option.map (append_end (sample_score k str s))) e in
      get-score_samples k str metrics (score_sample str metrics scores s)
        (l ++ sample_score k str s ∷ []) samples h next
      ∙ ap some (append_assoc l (sample_score k str s ∷ []) (map (sample_score k str) samples))

  get-no_scores :
      (m : String) (metrics : List String) (scores : Dict String (List W))
      → Dict.get m scores ≡ some []
      → Dict.get m (no_scores metrics scores) ≡ some []
  unfolding no_scores
  get-no_scores m [] scores h = h
  get-no_scores m (n ∷ metrics) scores h =
      get-no_scores m metrics (Dict.put n [] scores)
        (Dict.get-put n m [] scores ∙ ground (arith, h))

  get-no_scores-member :
      (m : String) (metrics : List String) (scores : Dict String (List W))
      → member m metrics ≡ true
      → Dict.get m (no_scores metrics scores) ≡ some []
  unfolding no_scores
  get-no_scores-member m [] scores h = cc
  get-no_scores-member m (n ∷ metrics) scores h = elim (Bool-cases (m == n)) [
    | inl e ↦ get-no_scores m metrics (Dict.put n [] scores) (
        Dict.get-put n m [] scores
        ∙ ground (arith, string_key.equal_iff m n, string_key.equal_iff n m))
    | inr e ↦ get-no_scores-member m metrics (Dict.put n [] scores) (rw e at h)
  ]

  get-means :
      (mean : List W → W) (m : String) (x : W) (l : List W) (scores : Dict String (List W))
      → Dict.get m scores ≡ some (x ∷ l)
      → Dict.get m (means mean scores) ≡ some (mean (x ∷ l))
  unfolding means Dict.get
  get-means mean m x l [] h = cc
  get-means mean m x l ((n, []) ∷ scores) h = elim (Bool-cases (n == m)) [
    | inl e ↦ absurd (cc (rw e at h))
    | inr e ↦ get-means mean m x l scores (rw e at h)
  ]
  get-means mean m x l ((n, y ∷ v) ∷ scores) h = elim (Bool-cases (n == m)) [
    | inl e ↦ rw e (ground (arith, rw e at h))
    | inr e ↦ rw e (get-means mean m x l scores (rw e at h))
  ]

  -- the entry of a metric in what `evaluate` returns
  abbrev pub entry : String → Option (Dict String W) → Option W
  entry m none = none
  entry m (some scores) = Dict.get m scores

  mean_of_samples :
      (mean : List W → W) (m : String) (scores : Dict String (List W)) (l : List W)
      → 0 < length l
      → Dict.get m scores ≡ some l
      → Dict.get m (means mean scores) ≡ some (mean l)
  mean_of_samples mean m scores [] h e = absurd (omega arith)
  mean_of_samples mean m scores (x ∷ l) h e = get-means mean m x l scores e

  -- For as many references as predictions, and at least one, `evaluate` returns for each requested
  -- metric the mean over the samples, in their order, of the best score of the prediction against the
  -- references of its sample.
  pub evaluate_lem :
      (k : Metric) (str : Strings) (mean : List W → W)
      (metrics predictions references : List String)
      → length predictions ≡ length references
      → 0 < length predictions
      → member (metric_name k) metrics ≡ true
      → entry (metric_name k) (evaluate str mean metrics predictions references)
        ≡ some (mean (map (sample_score k str) (zip predictions references)))
  unfolding evaluate
  evaluate_lem k str mean metrics predictions references same long asked =
      let m = metric_name k in
      let samples = zip predictions references in
      let scores = no_scores metrics [] in
      let all : Dict.get m (score_samples str metrics scores samples)
          ≡ some (map (sample_score k str) samples) =
        get-score_samples k str metrics scores [] samples asked
          (get-no_scores-member m metrics [] asked) in
      rw ((nat_key.equal_iff (length predictions) (length references)).1 same) (
        mean_of_samples mean m (score_samples str metrics scores samples)
          (map (sample_score k str) samples)
          (omega (
            arith,
            length-map (sample_score k str) samples,
            length-zip predictions references same,
            long,
          ))
          all)
