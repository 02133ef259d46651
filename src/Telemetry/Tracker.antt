-- ===== src/Telemetry/Tracker.antt =====
-- src/telemetry/block_tracker.py: `BlockTracker`. Every public method holds the tracker's one lock
-- from its first read to its last write, so a method is one function from state to state, and
-- concurrent callers are sequences of calls (`Call`, `run`).
pub mod Entries
pub mod Calls
pub mod View
pub mod Valid
pub mod Memory
pub mod Candidates
use multie_layer_kache.Prelude.{
  ℕ, ◌+◌, ◌*◌, ◌^◌, String, Bool, true, false, ◌&&◌, ◌||◌, not, Option, none, some, List, [], ◌∷◌,
  map, ◌==◌, if◌then◌else◌, nat_key, string_key, ltb, leb, length, take, filter_by,
}
use multie_layer_kache.Prelude.Dict
use multie_layer_kache.Prelude.Dict.{Dict}
use multie_layer_kache.Prelude.Sort.{sorted}
use multie_layer_kache.Prelude.Floats.{Double, nought, one, fmax}
use multie_layer_kache.Telemetry.Schema.{
  BlockState, BlockTier, gpu_fp16, gpu_quantized, cpu_offloaded, evicted, tier_value, tier_eq,
}

-- What the code takes from numpy: `np.mean` and `np.max` of the finite entries.
pub record Numpy (W : Type 0) : Type 0 where
  pub mean : List W → W
  pub amax : List W → W

pub record Tracker (W : Type 0) : Type 0 where
  pub num_layers : ℕ
  pub num_heads : ℕ
  pub block_size : ℕ
  pub head_dim : ℕ
  pub blocks : Dict ℕ (BlockState W)
  pub block_bytes_fp16 : ℕ
  pub block_bytes_int8 : ℕ

pub record MemoryStats (W : Type 0) : Type 0 where
  pub total_blocks : ℕ
  pub blocks_per_tier : Dict String ℕ
  pub estimated_gpu_mb : W
  pub estimated_cpu_mb : W
  pub block_size : ℕ
  pub num_layers : ℕ
  pub num_heads : ℕ

abbrev bytes_per_element_fp16 : ℕ
bytes_per_element_fp16 = 2

abbrev bytes_per_element_int8 : ℕ
bytes_per_element_int8 = 1

-- An array entry that is not finite is `none`.
abbrev pub finite_entries {ℓ} : {W : Type ℓ} → List (Option W) → List W
finite_entries [] = []
finite_entries (none ∷ xs) = finite_entries xs
finite_entries (some x ∷ xs) = x ∷ finite_entries xs

abbrev pub zero_counts : Dict String ℕ
zero_counts = ("gpu_fp16", 0) ∷ ("gpu_quantized", 0) ∷ ("cpu_offloaded", 0) ∷ ("evicted", 0) ∷ []

abbrev pub counted : String → Dict String ℕ → ℕ
counted k counts = elim (Dict.get k counts) [ none ↦ 0 | some n ↦ n ]

module _ {W : Type 0} where
  unfoldable pub init : ℕ → ℕ → ℕ → ℕ → Tracker W
  init num_layers num_heads block_size head_dim = record {
    num_layers = num_layers;
    num_heads = num_heads;
    block_size = block_size;
    head_dim = head_dim;
    blocks = [];
    block_bytes_fp16 = 2 * num_heads * block_size * head_dim * bytes_per_element_fp16;
    block_bytes_int8 = 2 * num_heads * block_size * head_dim * bytes_per_element_int8;
  }

  -- the `with self._lock` body of a method that changes one block in place, if it is there
  unfoldable pub update_block : ℕ → (BlockState W → BlockState W) → Tracker W → Tracker W
  unfolding Dict.modify
  update_block block_id f t = record t { blocks = Dict.modify block_id f t.blocks }

  unfoldable pub evict_block : Tracker W → ℕ → Tracker W × Option (BlockState W)
  unfolding Dict.get Dict.remove
  evict_block t block_id = elim (Dict.get block_id t.blocks) [
    | none ↦ (t, none)
    | some state ↦ (
      record t { blocks = Dict.remove block_id t.blocks },
      some (record state { current_tier = evicted }),
    )
  ]

  unfoldable pub mark_accessed : Tracker W → ℕ → ℕ → Tracker W
  unfolding update_block
  mark_accessed t block_id step =
      update_block block_id
        (λ state. record state {
          access_count = state.access_count + 1;
          last_access_step = step;
          block_age_steps = step;
        })
        t

  unfoldable pub update_tier : Tracker W → ℕ → BlockTier → Tracker W
  unfolding update_block
  update_tier t block_id tier =
      update_block block_id (λ state. record state { current_tier = tier }) t

  unfoldable pub update_memory_snapshot : Tracker W → ℕ → W → W → Tracker W
  unfolding update_block
  update_memory_snapshot t block_id used free =
      update_block block_id
        (λ state. record state { gpu_mem_used_mb = used; gpu_mem_free_mb = free }) t

  unfoldable pub set_importance_score : Tracker W → ℕ → W → Tracker W
  unfolding update_block
  set_importance_score t block_id score =
      update_block block_id (λ state. record state { importance_score = score }) t

  unfoldable pub mark_prefix_reuse : Tracker W → ℕ → Bool → Tracker W
  unfolding update_block
  mark_prefix_reuse t block_id reused =
      update_block block_id (λ state. record state { prefix_reuse_flag = reused }) t

  unfoldable pub get_block : Tracker W → ℕ → Option (BlockState W)
  unfolding Dict.get
  get_block t block_id = Dict.get block_id t.blocks

  unfoldable pub get_all_blocks : Tracker W → List (BlockState W)
  get_all_blocks t = Dict.values t.blocks

  unfoldable pub get_blocks_by_tier : Tracker W → BlockTier → List (BlockState W)
  get_blocks_by_tier t tier = filter_by (λ b. tier_eq b.current_tier tier) (Dict.values t.blocks)

  unfoldable pub size : Tracker W → ℕ
  size t = length t.blocks

  -- the ids that `release_request_blocks` collects, and the loop that pops them
  unfoldable pub stale_ids : String → Dict ℕ (BlockState W) → List ℕ
  stale_ids request_id blocks =
      map (λ e. e.0) (filter_by (λ e. BlockState.request_id e.1 == request_id) blocks)

  unfoldable pub pop_all : List ℕ → Dict ℕ (BlockState W) → Dict ℕ (BlockState W)
  unfolding Dict.remove
  pop_all [] blocks = blocks
  pop_all (bid ∷ ids) blocks = pop_all ids (Dict.remove bid blocks)

  unfoldable pub release_request_blocks : Tracker W → String → Tracker W × ℕ
  unfolding stale_ids pop_all
  release_request_blocks t request_id =
      let stale = stale_ids request_id t.blocks in
      (record t { blocks = pop_all stale t.blocks }, length stale)

  abbrev aged : ℕ → ℕ × BlockState W → ℕ × BlockState W
  aged step e = (e.0, record (e.1) { block_age_steps = step })

  unfoldable pub increment_age : Tracker W → ℕ → Tracker W
  increment_age t step = record t { blocks = map (aged step) t.blocks }

  -- `tier_counts[b.current_tier.value] += 1` over the blocks, from a zero for each tier
  unfoldable pub count_tiers : List (BlockState W) → Dict String ℕ → Dict String ℕ
  unfolding Dict.modify tier_value
  count_tiers [] counts = counts
  count_tiers (b ∷ bs) counts =
      count_tiers bs (Dict.modify (tier_value b.current_tier) (λ n. n + 1) counts)

module _ {W : Type 0} ⦃d : Double W⦄ where
  abbrev pub fresh_block : ℕ → ℕ → ℕ → String → BlockState W
  fresh_block block_id layer_id head_group request_id = record {
    block_id = block_id;
    layer_id = layer_id;
    head_group = head_group;
    request_id = request_id;
    block_age_steps = 0;
    last_access_step = 0;
    access_count = 0;
    avg_attention_score = nought;
    max_attention_score = nought;
    prefix_reuse_flag = false;
    current_tier = gpu_fp16;
    gpu_mem_used_mb = nought;
    gpu_mem_free_mb = nought;
    importance_score = nought;
  }

  unfoldable pub register_block : Tracker W → ℕ → ℕ → ℕ → String → Tracker W × BlockState W
  unfolding Dict.put
  register_block t block_id layer_id head_group request_id =
      let state = fresh_block block_id layer_id head_group request_id in
      (record t { blocks = Dict.put block_id state t.blocks }, state)

  -- the running average moves a tenth of the way to the mean of the pass; a block that was never
  -- accessed takes the values of the pass
  unfoldable pub attended : W → W → BlockState W → BlockState W
  attended batch_mean batch_max state =
      if state.access_count == 0
      then record state { avg_attention_score = batch_mean; max_attention_score = batch_max }
      else record state {
        avg_attention_score =
            d.add (d.mul (d.lit 1 1) batch_mean)
              (d.mul (d.sub one (d.lit 1 1)) state.avg_attention_score);
        max_attention_score = fmax state.max_attention_score batch_max;
      }

  -- the method after the filter: an empty array is ignored
  unfoldable pub attend_finite : Numpy W → Tracker W → ℕ → List W → Tracker W
  unfolding attended update_block
  attend_finite np t block_id [] = t
  attend_finite np t block_id (x ∷ xs) =
      update_block block_id (attended (np.mean (x ∷ xs)) (np.amax (x ∷ xs))) t

  unfoldable pub update_attention : Numpy W → Tracker W → ℕ → List (Option W) → Tracker W
  unfolding attend_finite
  update_attention np t block_id scores = attend_finite np t block_id (finite_entries scores)

  unfoldable pub get_memory_stats : Tracker W → MemoryStats W
  unfolding count_tiers Dict.get
  get_memory_stats t =
      let blocks = Dict.values t.blocks in
      let tier_counts = count_tiers blocks zero_counts in
      let fp16_blocks = counted (tier_value gpu_fp16) tier_counts in
      let quant_blocks = counted (tier_value gpu_quantized) tier_counts in
      let cpu_blocks = counted (tier_value cpu_offloaded) tier_counts in
      let gpu_bytes = fp16_blocks * t.block_bytes_fp16 + quant_blocks * t.block_bytes_int8 in
      let cpu_bytes = cpu_blocks * t.block_bytes_fp16 in
      record {
        total_blocks = length blocks;
        blocks_per_tier = tier_counts;
        estimated_gpu_mb = d.div (d.of_int gpu_bytes) (d.of_int (1024 ^ 2));
        estimated_cpu_mb = d.div (d.of_int cpu_bytes) (d.of_int (1024 ^ 2));
        block_size = t.block_size;
        num_layers = t.num_layers;
        num_heads = t.num_heads;
      }

  abbrev pub on_gpu : BlockState W → Bool
  on_gpu b = tier_eq b.current_tier gpu_fp16 || tier_eq b.current_tier gpu_quantized

  -- the order of the sort key for a strategy; `none` is the `ValueError`
  unfoldable pub strategy_order : String → Option (BlockState W → BlockState W → Bool)
  strategy_order strategy =
      if strategy == "lru"
      then some (λ x y. leb x.last_access_step y.last_access_step)
      else if strategy == "low_attention"
      then some (λ x y. d.le x.avg_attention_score y.avg_attention_score)
      else if strategy == "age"
      then some (λ x y. leb y.block_age_steps x.block_age_steps)
      else if strategy == "importance"
      then some (λ x y. d.le x.importance_score y.importance_score)
      else none

  unfoldable pub get_candidate_blocks : Tracker W → ℕ → String → Option (List (BlockState W))
  unfolding strategy_order sorted take
  get_candidate_blocks t n strategy = elim (strategy_order strategy) [
    | none ↦ none
    | some before ↦ some (take n (sorted before (filter_by on_gpu (Dict.values t.blocks))))
  ]
