-- ===== src/Policies/Learned/Contract.antt =====
-- The learned policy keeps the contract of `decide`, and the one that the hybrid policy relies on.
use multie_layer_kache.Prelude.{
  ℕ, ◌≡◌, ◌∙◌, refl, Option, none, some, List, [], ◌∷◌, map, arith, length, length-map, zip,
  map-zip_left, either_branch,
}
use multie_layer_kache.Prelude.Floats.{Double}
use multie_layer_kache.Telemetry.Schema.{BlockState}
use multie_layer_kache.Policies.Base.{PolicyConfig, SystemMetrics, Readings, pressure_of, finish}
use multie_layer_kache.Policies.Ids.{ids}
use multie_layer_kache.Policies.Heuristic.Contract.{
  decided, scored_id, map-map_of, if-in_order, keep_all-in_order, h2o-in_order,
}
use multie_layer_kache.Policies.Hybrid.Contract.{IsAligned}
use multie_layer_kache.Policies.Learned.{
  Model, LearnedPolicy, min_from, max_from, scores_of, attention_scores, normalised, predicted,
  score_blocks, score_to_decision, learned_decisions, decide_with, decide, scorer_of,
}

-- What the learned policy relies on: a model that returns predicts one value for each block.
pub record IsPredictor {W : Type 0} (model : Model W) : Type 0 where
  pub one_each :
      (blocks : List (BlockState W)) (m : SystemMetrics W) (raw : List W)
      → model.predict blocks m ≡ some raw
      → length raw ≡ length blocks

abbrev pub ArePredictors : {W : Type 0} → Option (Model W) → Type 0
ArePredictors none = Unit
ArePredictors (some model) = IsPredictor model

module _ {W : Type 0} ⦃d : Double W⦄ where
  length-attention_scores :
      (blocks : List (BlockState W)) → length (attention_scores blocks) ≡ length blocks
  unfolding attention_scores
  length-attention_scores blocks = length-map _ blocks

  length-normalised :
      (raw : List W) (blocks : List (BlockState W))
      → length raw ≡ length blocks
      → length (normalised raw blocks) ≡ length blocks
  unfolding normalised
  length-normalised [] blocks h = length-attention_scores blocks
  length-normalised (x ∷ xs) blocks h =
      let Aligned : List W → Type 0 = λ l. length l ≡ length blocks in
      let lo = min_from x xs in
      let hi = max_from x xs in
      let scale : W → W = λ y. d.div (d.sub y lo) (d.sub hi lo) in
      let half : BlockState W → W = λ b. d.lit 5 1 in
      either_branch Aligned (d.lt lo hi) (map scale (x ∷ xs)) (map half blocks)
        (length-map scale (x ∷ xs) ∙ h) (length-map half blocks)

  length-predicted :
      (raw : Option (List W)) (blocks : List (BlockState W))
      → ((l : List W) → raw ≡ some l → length l ≡ length blocks)
      → length (predicted raw blocks) ≡ length blocks
  unfolding predicted
  length-predicted none blocks h = length-attention_scores blocks
  length-predicted (some l) blocks h = length-normalised l blocks (h l refl)

  length-score_blocks :
      (model : Model W) (blocks : List (BlockState W)) (m : SystemMetrics W)
      → IsPredictor model
      → length (score_blocks model blocks m) ≡ length blocks
  unfolding score_blocks
  length-score_blocks model blocks m h =
      length-predicted (model.predict blocks m) blocks (h.one_each blocks m)

  score_to_decision-id :
      (c : PolicyConfig W) (i : ℕ) (s : W) → (score_to_decision c i s).block_id ≡ i
  unfolding score_to_decision
  score_to_decision-id c i s = ground arith

  learned_decisions-in_order :
      (c : PolicyConfig W) (model : Model W) (pressure : W) (m : SystemMetrics W)
      (blocks : List (BlockState W))
      → IsPredictor model
      → decided (learned_decisions c model pressure m blocks) ≡ ids blocks
  unfolding learned_decisions
  learned_decisions-in_order c model pressure m blocks h =
      let scores = score_blocks model blocks m in
      if-in_order _ _ _ _ (keep_all-in_order blocks) (
        map-map_of _ _ scored_id (λ e. ground (arith, score_to_decision-id c (scored_id e) e.1))
          (zip blocks scores)
        ∙ map-zip_left (λ (b : BlockState W). b.block_id) blocks scores
            (length-score_blocks model blocks m h))

  decide_with-in_order :
      (model : Option (Model W)) (p : LearnedPolicy W) (r : Readings W)
      (blocks : List (BlockState W)) (m : SystemMetrics W)
      → ArePredictors model
      → decided (decide_with model p r blocks m).0 ≡ ids blocks
  unfolding decide_with finish
  decide_with-in_order none p r blocks m h = h2o-in_order p.fallback.config (pressure_of m) blocks
  decide_with-in_order (some model) p r blocks m h =
      learned_decisions-in_order p.base.config model (pressure_of m) m blocks h

  -- With no model, or with a model that predicts one value for each block or raises, the learned policy
  -- answers with one decision for each block, in the order of the blocks.
  pub learned-in_order :
      (p : LearnedPolicy W) (r : Readings W) (blocks : List (BlockState W)) (m : SystemMetrics W)
      → ArePredictors p.model
      → decided (decide p r blocks m).0 ≡ ids blocks
  unfolding decide
  learned-in_order p r blocks m h = decide_with-in_order p.model p r blocks m h

  scores_of-length :
      (model : Option (Model W)) (blocks : List (BlockState W)) (m : SystemMetrics W)
      (scores : List W)
      → ArePredictors model
      → scores_of model blocks m ≡ some scores
      → length scores ≡ length blocks
  scores_of-length none blocks m scores h e = ground (arith, length-attention_scores blocks)
  scores_of-length (some model) blocks m scores h e =
      ground (arith, length-score_blocks model blocks m h)

  -- With such a model the learned policy gives the hybrid policy one score for each block, also where
  -- the model raises: it is a scorer as the theorems on the hybrid policy want it.
  pub scorer_of-IsAligned : (p : LearnedPolicy W) → ArePredictors p.model → IsAligned (scorer_of p)
  unfolding scorer_of
  scorer_of-IsAligned p h = record {
    one_each = λ blocks m scores e. scores_of-length p.model blocks m scores h e;
  }
