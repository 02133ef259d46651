-- ===== src/Policies/Learned.antt =====
-- src/cache_policies/learned.py: `LearnedPolicy`. The feature extractor and the model are a parameter,
-- `Model`; loading and saving it are the pickle library's.
pub mod Contract
use multie_layer_kache.Prelude.{
  ℕ, String, Bool, true, false, ◌&&◌, Option, none, some, List, [], ◌∷◌, map, if◌then◌else◌, zip,
  nat_key,
}
use multie_layer_kache.Prelude.Floats.{Double, nought, one, fmin, fmax}
use multie_layer_kache.Prelude.Members.{member}
use multie_layer_kache.Telemetry.Schema.{
  BlockState, BlockDecision, keep_gpu, quantize, offload_cpu, evict,
}
use multie_layer_kache.Policies.Base.{
  PolicyConfig, PolicyDecision, BasePolicy, SystemMetrics, Readings, pressure_of, finish, keep_all,
}
use multie_layer_kache.Policies.Ids.{sink_ids, max_attention}
use multie_layer_kache.Policies.Heuristic.{h2o_decisions}
use multie_layer_kache.Policies.Hybrid.{Scorer, verdict}

-- `extract_batch` and `predict`; `none` is an exception.
pub record Model (W : Type 0) : Type 0 where
  pub predict : List (BlockState W) → SystemMetrics W → Option (List W)

-- `_fallback` is an `H2OPolicy`.
pub record LearnedPolicy (W : Type 0) : Type 0 where
  pub base : BasePolicy W
  pub fallback : BasePolicy W
  pub model : Option (Model W)

abbrev pub is_some : {A : Type 0} → Option A → Bool
is_some none = false
is_some (some x) = true

module _ {W : Type 0} where
  unfoldable pub is_ready : LearnedPolicy W → Bool
  is_ready p = is_some p.model

module _ {W : Type 0} ⦃d : Double W⦄ where
  -- `raw.min()` and `raw.max()` of a list with a first value
  abbrev pub min_from : W → List W → W
  min_from m [] = m
  min_from m (x ∷ xs) = min_from (fmin m x) xs

  abbrev pub max_from : W → List W → W
  max_from m [] = m
  max_from m (x ∷ xs) = max_from (fmax m x) xs

  -- the scores after an exception
  unfoldable pub attention_scores : List (BlockState W) → List W
  attention_scores blocks =
      let max_attn = max_attention blocks in
      map
        (λ b.
          if d.lt nought max_attn
          then d.div (BlockState.avg_attention_score b) max_attn
          else d.lit 5 1)
        blocks

  -- numpy raises on the minimum of nothing
  unfoldable pub normalised : List W → List (BlockState W) → List W
  unfolding attention_scores
  normalised [] blocks = attention_scores blocks
  normalised (x ∷ xs) blocks =
      let lo = min_from x xs in
      let hi = max_from x xs in
      if d.lt lo hi
      then map (λ y. d.div (d.sub y lo) (d.sub hi lo)) (x ∷ xs)
      else map (λ b. d.lit 5 1) blocks

  unfoldable pub predicted : Option (List W) → List (BlockState W) → List W
  unfolding normalised attention_scores
  predicted none blocks = attention_scores blocks
  predicted (some raw) blocks = normalised raw blocks

  unfoldable pub score_blocks : Model W → List (BlockState W) → SystemMetrics W → List W
  unfolding predicted
  score_blocks model blocks m = predicted (model.predict blocks m) blocks

  -- `_score_to_decision`
  unfoldable pub score_to_decision : PolicyConfig W → ℕ → W → PolicyDecision W
  score_to_decision c i score =
      if d.le c.quantization_min_importance score
      then verdict i keep_gpu score "high_importance"
      else if d.le c.offload_threshold_score score && c.quantization_enabled
      then verdict i quantize score "medium_importance_quantize"
      else if d.le (d.mul c.offload_threshold_score (d.lit 5 1)) score && c.offload_enabled
      then verdict i offload_cpu score "low_medium_offload"
      else verdict i evict score "low_importance_evict"

  abbrev pub learned_verdict : PolicyConfig W → List ℕ → BlockState W × W → PolicyDecision W
  learned_verdict c sinks e =
      let i = BlockState.block_id e.0 in
      if member i sinks then verdict i keep_gpu one "sink" else score_to_decision c i e.1

  unfoldable pub learned_decisions :
      PolicyConfig W → Model W → W → SystemMetrics W → List (BlockState W) → List (PolicyDecision W)
  unfolding keep_all score_blocks sink_ids score_to_decision zip
  learned_decisions c model pressure m blocks =
      if d.lt pressure c.memory_pressure_low
      then keep_all blocks
      else map (learned_verdict c (sink_ids c blocks)) (zip blocks (score_blocks model blocks m))

  -- without a model the fallback decides, and keeps the statistics
  unfoldable pub decide_with :
      Option (Model W)
      → LearnedPolicy W
      → Readings W
      → List (BlockState W)
      → SystemMetrics W
      → List (PolicyDecision W) × LearnedPolicy W
  unfolding finish pressure_of h2o_decisions learned_decisions
  decide_with none p r blocks m =
      let pressure = pressure_of m in
      let (out, fallback) =
        finish "h2o" r pressure p.fallback (h2o_decisions p.fallback.config pressure blocks) in
      (out, record p { fallback = fallback })
  decide_with (some model) p r blocks m =
      let pressure = pressure_of m in
      let (out, base) =
        finish "learned" r pressure p.base
          (learned_decisions p.base.config model pressure m blocks) in
      (out, record p { base = base })

  unfoldable pub decide :
      LearnedPolicy W
      → Readings W
      → List (BlockState W)
      → SystemMetrics W
      → List (PolicyDecision W) × LearnedPolicy W
  unfolding decide_with
  decide p r blocks m = decide_with p.model p r blocks m

  -- the learned policy as the hybrid one calls it
  abbrev pub scores_of : Option (Model W) → List (BlockState W) → SystemMetrics W → Option (List W)
  scores_of none blocks m = some (attention_scores blocks)
  scores_of (some model) blocks m = some (score_blocks model blocks m)

  unfoldable pub scorer_of : LearnedPolicy W → Scorer W
  unfolding is_ready score_blocks attention_scores
  scorer_of p = record { is_ready = is_ready p; score_blocks = scores_of p.model }
