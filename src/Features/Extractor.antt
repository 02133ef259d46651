-- ===== src/Features/Extractor.antt =====
-- src/feature_engineering/extractor.py: `FeatureExtractor`. The functions of numpy and `math`, and the
-- rounding to `float32`, are a parameter. The statistics of the batch are those that
-- `compute_batch_stats` makes. Python raises where a divisor is zero; that is not modelled.
pub mod Window
use multie_layer_kache.Prelude.{
  ℕ, zero, suc, ◌+◌, ◌-◌, max, String, Bool, true, false, ◌&&◌, Option, none, some, List, [], ◌∷◌,
  map, if◌then◌else◌, ltb, leb, length, or_default,
}
use multie_layer_kache.Prelude.Sort.{sorted}
use multie_layer_kache.Prelude.Floats.{Double, nought, one, fmin, fmax}
use multie_layer_kache.Telemetry.Schema.{
  BlockState, BlockTier, gpu_fp16, gpu_quantized, cpu_offloaded, evicted, WorkloadType, unknown,
  single_doc_qa, multi_doc_qa, summarization, dialogue, code, structured_data, workload_value,
  workload_of_value,
}

-- `np.searchsorted`, `math.log1p` of a count, `sum` and `max` of an array, and `float32`
pub record Maths (W : Type 0) : Type 0 where
  pub searchsorted : List W → W → ℕ
  pub log1p : ℕ → W
  pub sum : List W → W
  pub amax : List W → W
  pub single : W → W

pub record FeatureExtractor (W : Type 0) : Type 0 where
  pub num_layers : ℕ
  pub num_head_groups : ℕ
  pub max_context_length : ℕ
  pub sink_token_blocks : ℕ
  pub heavy_hitter_fraction : W
  pub recent_window_blocks : ℕ

pub record BatchStats (W : Type 0) : Type 0 where
  pub max_age : ℕ
  pub max_step : ℕ
  pub max_attention : W
  pub total_blocks : ℕ
  pub attn_sorted : List W
  pub total_attention : W
  pub max_block_id : ℕ

-- The keys of `system_metrics` that are read; a missing key is `none`.
pub record RequestMetrics : Type 0 where
  pub queue_depth : Option ℕ
  pub context_length : Option ℕ
  pub output_length : Option ℕ
  pub workload_type : Option String

abbrev pub feature_names : List String
feature_names =
    "block_age_normalized" ∷ "recency_score" ∷ "access_frequency" ∷ "avg_attention_score"
    ∷ "max_attention_score" ∷ "attention_rank_normalized" ∷ "sink_token_flag" ∷ "prefix_reuse_flag"
    ∷ "layer_depth_normalized" ∷ "head_group_normalized" ∷ "gpu_mem_pressure"
    ∷ "queue_depth_normalized" ∷ "context_length_normalized" ∷ "output_length_normalized"
    ∷ "workload_type_encoded" ∷ "is_heavy_hitter" ∷ "is_recent_window" ∷ "access_frequency_log"
    ∷ "cumulative_attention_mass_rank" ∷ "tier_encoded" ∷ "inter_access_interval_normalized" ∷ []

abbrev workload_code : WorkloadType → ℕ
workload_code unknown = 0
workload_code single_doc_qa = 1
workload_code multi_doc_qa = 2
workload_code summarization = 3
workload_code dialogue = 4
workload_code code = 5
workload_code structured_data = 6

abbrev code_or_zero : Option WorkloadType → ℕ
code_or_zero none = 0
code_or_zero (some w) = workload_code w

-- `_WORKLOAD_ENCODING.get(value, 0.0)`
unfoldable pub workload_encoding : String → ℕ
unfolding workload_of_value
workload_encoding value = code_or_zero (workload_of_value value)

abbrev pub tier_encoding : BlockTier → ℕ
tier_encoding gpu_fp16 = 0
tier_encoding gpu_quantized = 1
tier_encoding cpu_offloaded = 2
tier_encoding evicted = 3

-- the largest of some numbers, and of a first one
abbrev pub max_of : ℕ → List ℕ → ℕ
max_of m [] = m
max_of m (n ∷ ns) = max_of (max m n) ns

-- `block_id >= max_block_id - recent_window_blocks`, where `max_block_id` is what `extract` computes, 1 at
-- least
abbrev pub is_recent : ℕ → ℕ → ℕ → Bool
is_recent window max_block_id block_id = leb max_block_id (block_id + window)

module _ {W : Type 0} ⦃d : Double W⦄ where
  -- the `n`-th value from the end, for a list that has as many
  abbrev from_end : List W → ℕ → W
  from_end l n = or_nought (nth l (length l - n))
    where
      nth : List W → ℕ → Option W
      nth [] i = none
      nth (x ∷ xs) zero = some x
      nth (x ∷ xs) (suc i) = nth xs i

      or_nought : Option W → W
      or_nought o = or_default o nought

  abbrev pub flag : Bool → W
  flag b = if b then one else nought

  -- `n / m` of whole numbers
  abbrev pub ratio : ℕ → ℕ → W
  ratio n m = d.div (d.of_int n) (d.of_int m)

  abbrev is_filled : List W → Bool
  is_filled [] = false
  is_filled (x ∷ xs) = true

  unfoldable pub compute_batch_stats : Maths W → List (BlockState W) → BatchStats W
  compute_batch_stats np [] = record {
    max_age = 1;
    max_step = 1;
    max_attention = one;
    total_blocks = 0;
    attn_sorted = [];
    total_attention = one;
    max_block_id = 0;
  }
  compute_batch_stats np (b ∷ blocks) =
      let attn_vals = map (λ (x : BlockState W). np.single x.avg_attention_score) (b ∷ blocks) in
      let total = np.sum attn_vals in
      record {
        max_age = max_of b.block_age_steps (map (λ (x : BlockState W). x.block_age_steps) blocks);
        max_step =
            max_of b.last_access_step (map (λ (x : BlockState W). x.last_access_step) blocks);
        max_attention = np.amax attn_vals;
        total_blocks = length (b ∷ blocks);
        attn_sorted = sorted (λ x y. d.le x y) attn_vals;
        total_attention = if d.le total nought && d.le nought total then one else total;
        max_block_id = max_of b.block_id (map (λ (x : BlockState W). x.block_id) blocks);
      }

  unfoldable pub extract :
      Maths W → FeatureExtractor W → BlockState W → RequestMetrics → BatchStats W → List W
  unfolding workload_encoding workload_value
  extract np c b m stats =
      let max_age = max stats.max_age 1 in
      let max_step = max stats.max_step 1 in
      let total_blocks = max stats.total_blocks 1 in
      let attn_sorted = stats.attn_sorted in
      let n_hh = max 1 (d.trunc (d.mul (d.of_int total_blocks) c.heavy_hitter_fraction)) in
      let max_block_id = max stats.max_block_id 1 in
      let rank = np.searchsorted attn_sorted b.avg_attention_score in
      let gpu_total = d.add b.gpu_mem_used_mb b.gpu_mem_free_mb in
      let value = or_default m.workload_type (workload_value unknown) in
      let enough = is_filled attn_sorted && leb n_hh (length attn_sorted) in
      map np.single (
        ratio b.block_age_steps max_age
        ∷ d.div one (d.sub (d.add one (d.of_int max_step)) (d.of_int b.last_access_step))
        ∷ ratio b.access_count (max max_step 1)
        ∷ b.avg_attention_score
        ∷ b.max_attention_score
        ∷ (if is_filled attn_sorted then ratio rank (length attn_sorted) else d.lit 5 1)
        ∷ flag (ltb b.block_id c.sink_token_blocks)
        ∷ flag b.prefix_reuse_flag
        ∷ ratio b.layer_id (max (c.num_layers - 1) 1)
        ∷ ratio b.head_group (max (c.num_head_groups - 1) 1)
        ∷ (if d.lt nought gpu_total then d.div b.gpu_mem_used_mb gpu_total else nought)
        ∷ fmin one (d.div (d.of_int (or_default m.queue_depth 0)) (d.of_int 64))
        ∷ fmin one (ratio (or_default m.context_length 0) c.max_context_length)
        ∷ fmin one (ratio (or_default m.output_length 0) c.max_context_length)
        ∷ d.div (d.of_int (workload_encoding value)) (d.of_int 6)
        ∷ (if enough then flag (d.le (from_end attn_sorted n_hh) b.avg_attention_score) else nought)
        ∷ flag (is_recent c.recent_window_blocks max_block_id b.block_id)
        ∷ d.div (np.log1p b.access_count) (np.log1p max_step)
        ∷ d.div b.avg_attention_score stats.total_attention
        ∷ d.div (d.of_int (tier_encoding b.current_tier)) (d.of_int 3)
        ∷ d.div (d.sub (d.of_int max_step) (d.of_int b.last_access_step)) (d.of_int max_step)
        ∷ [])

  unfoldable pub extract_batch :
      Maths W
      → FeatureExtractor W
      → List (BlockState W)
      → RequestMetrics
      → BatchStats W
      → List (List W)
  unfolding extract
  extract_batch np c blocks m stats = map (λ b. extract np c b m stats) blocks
