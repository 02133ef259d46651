-- ===== src/Policies/Base.antt =====
-- src/cache_policies/base.py: the configuration, decisions and statistics of a policy, and the
-- helpers of `BasePolicy`.
pub mod Stats
pub mod Answers
use multie_layer_kache.Prelude.{
  ℕ, ◌+◌, String, Bool, true, false, Option, none, some, List, [], ◌∷◌, map, ◌==◌, string_key,
  if◌then◌else◌, or_default, length,
}
use multie_layer_kache.Prelude.Dict
use multie_layer_kache.Prelude.Dict.{Dict}
use multie_layer_kache.Prelude.Floats.{Double, nought, one}
use multie_layer_kache.Telemetry.Schema.{BlockState, BlockDecision, keep_gpu, decision_value}

pub record PolicyConfig (W : Type 0) : Type 0 where
  pub name : String
  pub memory_pressure_low : W
  pub memory_pressure_high : W
  pub scheduling_interval_ms : W
  pub sliding_window_blocks : ℕ
  pub heavy_hitter_fraction : W
  pub sink_token_blocks : ℕ
  pub recency_weight : W
  pub attention_weight : W
  pub reuse_weight : W
  pub model_path : Option String
  pub feature_set : String
  pub decision_threshold : W
  pub fallback_policy : String
  pub quantization_enabled : Bool
  pub quantization_dtype : String
  pub quantization_min_importance : W
  pub offload_enabled : Bool
  pub offload_target : String
  pub offload_max_fraction : W
  pub offload_threshold_score : W

-- The nested dictionary that `from_dict` reads: a key that is missing is `none`.
pub record HeuristicSection (W : Type 0) : Type 0 where
  pub sliding_window_blocks : Option ℕ
  pub heavy_hitter_fraction : Option W
  pub sink_token_blocks : Option ℕ
  pub recency_weight : Option W
  pub attention_weight : Option W
  pub reuse_weight : Option W

pub record LearnedSection (W : Type 0) : Type 0 where
  pub model_path : Option String
  pub feature_set : Option String
  pub decision_threshold : Option W
  pub fallback_policy : Option String

pub record QuantizationSection (W : Type 0) : Type 0 where
  pub enabled : Option Bool
  pub dtype : Option String
  pub min_importance_score : Option W

pub record OffloadSection (W : Type 0) : Type 0 where
  pub enabled : Option Bool
  pub target : Option String
  pub max_offload_fraction : Option W
  pub offload_threshold_score : Option W

pub record ConfigDict (W : Type 0) : Type 0 where
  pub name : Option String
  pub memory_pressure_low : Option W
  pub memory_pressure_high : Option W
  pub scheduling_interval_ms : Option W
  pub heuristic : Option (HeuristicSection W)
  pub learned : Option (LearnedSection W)
  pub quantization : Option (QuantizationSection W)
  pub offload : Option (OffloadSection W)

abbrev no_heuristic : {W : Type 0} → HeuristicSection W
no_heuristic = record {
  sliding_window_blocks = none;
  heavy_hitter_fraction = none;
  sink_token_blocks = none;
  recency_weight = none;
  attention_weight = none;
  reuse_weight = none;
}

abbrev no_learned : {W : Type 0} → LearnedSection W
no_learned = record {
  model_path = none;
  feature_set = none;
  decision_threshold = none;
  fallback_policy = none;
}

abbrev no_quantization : {W : Type 0} → QuantizationSection W
no_quantization = record { enabled = none; dtype = none; min_importance_score = none }

abbrev no_offload : {W : Type 0} → OffloadSection W
no_offload = record {
  enabled = none;
  target = none;
  max_offload_fraction = none;
  offload_threshold_score = none;
}

-- `metadata` is left out: no policy writes it.
pub record PolicyDecision (W : Type 0) : Type 0 where
  pub block_id : ℕ
  pub decision : BlockDecision
  pub score : W
  pub reason : String

pub record PolicyStats (W : Type 0) : Type 0 where
  pub timestamp : W
  pub policy_name : String
  pub num_blocks_evaluated : ℕ
  pub decisions : Dict String ℕ
  pub gpu_mem_pressure : W
  pub evaluation_latency_ms : W

-- The fields of a `BasePolicy` object.
pub record BasePolicy (W : Type 0) : Type 0 where
  pub config : PolicyConfig W
  pub eval_count : ℕ
  pub last_stats : Option (PolicyStats W)

-- The `system_metrics` dictionary: the keys that the policies read.
pub record SystemMetrics (W : Type 0) : Type 0 where
  pub gpu_mem_used_mb : Option W
  pub gpu_mem_free_mb : Option W
  pub global_step : Option ℕ
  pub attn_max : Option W
  pub workload_type : Option String

-- What one call of `decide` reads from the clocks: `perf_counter()` before and after, and `time()`.
pub record Readings (W : Type 0) : Type 0 where
  pub started : W
  pub finished : W
  pub now : W

module _ {W : Type 0} ⦃d : Double W⦄ where
  unfoldable pub from_dict : ConfigDict W → PolicyConfig W
  from_dict c =
      let heuristic = or_default c.heuristic no_heuristic in
      let learned = or_default c.learned no_learned in
      let quant = or_default c.quantization no_quantization in
      let offload = or_default c.offload no_offload in
      record {
        name = or_default c.name "hybrid";
        memory_pressure_low = or_default c.memory_pressure_low (d.lit 65 2);
        memory_pressure_high = or_default c.memory_pressure_high (d.lit 85 2);
        scheduling_interval_ms = or_default c.scheduling_interval_ms (d.lit 50 0);
        sliding_window_blocks = or_default heuristic.sliding_window_blocks 512;
        heavy_hitter_fraction = or_default heuristic.heavy_hitter_fraction (d.lit 20 2);
        sink_token_blocks = or_default heuristic.sink_token_blocks 4;
        recency_weight = or_default heuristic.recency_weight (d.lit 40 2);
        attention_weight = or_default heuristic.attention_weight (d.lit 40 2);
        reuse_weight = or_default heuristic.reuse_weight (d.lit 20 2);
        model_path = learned.model_path;
        feature_set = or_default learned.feature_set "full";
        decision_threshold = or_default learned.decision_threshold (d.lit 50 2);
        fallback_policy = or_default learned.fallback_policy "h2o";
        quantization_enabled = or_default quant.enabled true;
        quantization_dtype = or_default quant.dtype "int8";
        quantization_min_importance = or_default quant.min_importance_score (d.lit 30 2);
        offload_enabled = or_default offload.enabled true;
        offload_target = or_default offload.target "cpu";
        offload_max_fraction = or_default offload.max_offload_fraction (d.lit 40 2);
        offload_threshold_score = or_default offload.offload_threshold_score (d.lit 15 2);
      }

  unfoldable pub compute_memory_pressure : W → W → W
  compute_memory_pressure used free =
      let total = d.add used free in if d.lt nought total then d.div used total else nought

  -- the lines with which each `decide` begins
  unfoldable pub pressure_of : SystemMetrics W → W
  unfolding compute_memory_pressure
  pressure_of m =
      compute_memory_pressure (or_default m.gpu_mem_used_mb nought)
        (or_default m.gpu_mem_free_mb one)

  -- `counts[v] = counts.get(v, 0) + 1` over the decisions
  unfoldable pub count_decisions : List (PolicyDecision W) → Dict String ℕ → Dict String ℕ
  unfolding Dict.get Dict.put decision_value
  count_decisions [] counts = counts
  count_decisions (x ∷ xs) counts =
      let v = decision_value x.decision in
      count_decisions xs (Dict.put v (or_default (Dict.get v counts) 0 + 1) counts)

  unfoldable pub make_stats :
      String → List (PolicyDecision W) → W → W → W → BasePolicy W → BasePolicy W
  unfolding count_decisions
  make_stats name decisions pressure latency_ms now p = record p {
    last_stats = some (record {
      timestamp = now;
      policy_name = name;
      num_blocks_evaluated = length decisions;
      decisions = count_decisions decisions [];
      gpu_mem_pressure = pressure;
      evaluation_latency_ms = latency_ms;
    });
    eval_count = p.eval_count + 1;
  }

  -- the lines with which each `decide` ends
  unfoldable pub finish :
      String
      → Readings W
      → W
      → BasePolicy W
      → List (PolicyDecision W)
      → List (PolicyDecision W) × BasePolicy W
  unfolding make_stats
  finish name r pressure p decisions = (
    decisions,
    make_stats name decisions pressure (d.mul (d.sub r.finished r.started) (d.of_int 1000)) r.now p,
  )

  unfoldable pub keep_all : List (BlockState W) → List (PolicyDecision W)
  keep_all blocks =
      map
        (λ b. record {
          block_id = BlockState.block_id b;
          decision = keep_gpu;
          score = one;
          reason = "low_pressure";
        })
        blocks
