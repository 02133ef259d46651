-- ===== src/Policies/Heuristic.antt =====
-- src/cache_policies/heuristic.py: the six rule-based policies. Each `…_decisions` is the body of
-- the `decide` of one class between the pressure and the statistics, which `Policies/Dispatch.antt`
-- puts round it.
pub mod Contract
pub mod FullCache
pub mod Window
pub mod HeavyHitter
pub mod Ablations
pub mod Offload
use multie_layer_kache.Prelude.{
  ℕ, ◌+◌, Bool, ◌&&◌, ◌||◌, not, List, [], ◌∷◌, map, if◌then◌else◌, ltb, length, nat_key,
}
use multie_layer_kache.Prelude.Members.{member}
use multie_layer_kache.Prelude.Sort.{sorted}
use multie_layer_kache.Prelude.Floats.{Double, nought, one}
use multie_layer_kache.Telemetry.Schema.{
  BlockState, keep_gpu, quantize, offload_cpu, evict, gpu_quantized, tier_eq,
}
use multie_layer_kache.Policies.Base.{PolicyConfig, PolicyDecision, keep_all}
use multie_layer_kache.Policies.Ids.{
  by_last_access, by_attention_falling, first_ids, sink_ids, window_ids, at_least_one,
  max_attention, relative_attention,
}

module _ {W : Type 0} ⦃d : Double W⦄ where
  -- FullCachePolicy
  abbrev pub lru_verdict : List ℕ → BlockState W → PolicyDecision W
  lru_verdict evict_set b =
      let out = member b.block_id evict_set in
      record {
        block_id = b.block_id;
        decision = if out then evict else keep_gpu;
        score = if out then nought else one;
        reason = if out then "lru_evict" else "keep";
      }

  abbrev pub lru_quota : List (BlockState W) → ℕ
  lru_quota blocks = at_least_one (length blocks) (d.lit 10 2)

  unfoldable pub full_cache_decisions :
      PolicyConfig W → W → List (BlockState W) → List (PolicyDecision W)
  unfolding keep_all first_ids
  full_cache_decisions c pressure blocks =
      if d.lt pressure c.memory_pressure_high
      then keep_all blocks
      else map (lru_verdict (first_ids by_last_access (lru_quota blocks) blocks)) blocks

  -- SlidingWindowPolicy
  abbrev pub window_verdict : List ℕ → BlockState W → PolicyDecision W
  window_verdict keep_ids b =
      if member b.block_id keep_ids
      then record {
        block_id = b.block_id;
        decision = keep_gpu;
        score = one;
        reason = "sink_or_window";
      }
      else record {
        block_id = b.block_id;
        decision = evict;
        score = nought;
        reason = "outside_window";
      }

  unfoldable pub sliding_window_decisions :
      PolicyConfig W → W → List (BlockState W) → List (PolicyDecision W)
  unfolding keep_all window_ids
  sliding_window_decisions c pressure blocks =
      if d.lt pressure c.memory_pressure_low
      then keep_all blocks
      else map (window_verdict (window_ids c blocks)) blocks

  -- H2OPolicy
  unfoldable pub heavy_ids : PolicyConfig W → List (BlockState W) → List ℕ
  unfolding first_ids
  heavy_ids c blocks =
      first_ids by_attention_falling (at_least_one (length blocks) c.heavy_hitter_fraction) blocks

  abbrev pub h2o_verdict : List ℕ → List ℕ → BlockState W → PolicyDecision W
  h2o_verdict sinks heavy b =
      if member b.block_id sinks || member b.block_id heavy
      then record {
        block_id = b.block_id;
        decision = keep_gpu;
        score = b.avg_attention_score;
        reason = if member b.block_id heavy then "heavy_hitter" else "sink";
      }
      else record {
        block_id = b.block_id;
        decision = evict;
        score = b.avg_attention_score;
        reason = "low_attention";
      }

  unfoldable pub h2o_decisions : PolicyConfig W → W → List (BlockState W) → List (PolicyDecision W)
  unfolding keep_all sink_ids heavy_ids
  h2o_decisions c pressure blocks =
      if d.lt pressure c.memory_pressure_low
      then keep_all blocks
      else map (h2o_verdict (sink_ids c blocks) (heavy_ids c blocks)) blocks

  -- PrefixCachingPolicy: the threshold is 0.20 under high pressure and 0.10 under medium pressure
  abbrev pub prefix_verdict : PolicyConfig W → W → W → BlockState W → PolicyDecision W
  prefix_verdict c pressure max_attn b =
      if b.prefix_reuse_flag
      then record {
        block_id = b.block_id;
        decision = keep_gpu;
        score = one;
        reason = "prefix_reuse";
      }
      else (let score = relative_attention max_attn b in
          let threshold = if d.le c.memory_pressure_high pressure then d.lit 20 2 else d.lit 10 2 in
          let low = d.lt score threshold in
          record {
            block_id = b.block_id;
            decision = if low then evict else keep_gpu;
            score = score;
            reason = if low then "low_score" else "keep";
          })

  unfoldable pub prefix_caching_decisions :
      PolicyConfig W → W → List (BlockState W) → List (PolicyDecision W)
  unfolding keep_all
  prefix_caching_decisions c pressure blocks =
      if d.lt pressure c.memory_pressure_low
      then keep_all blocks
      else map (prefix_verdict c pressure (max_attention blocks)) blocks

  -- QuantizeOnlyPolicy
  abbrev pub quantize_verdict : PolicyConfig W → List ℕ → W → BlockState W → PolicyDecision W
  quantize_verdict c sinks max_attn b =
      if member b.block_id sinks || tier_eq b.current_tier gpu_quantized
      then record {
        block_id = b.block_id;
        decision = keep_gpu;
        score = one;
        reason = "sink_or_already_quantized";
      }
      else (let norm_attn = relative_attention max_attn b in
          let low = d.lt norm_attn c.quantization_min_importance in
          record {
            block_id = b.block_id;
            decision = if low then quantize else keep_gpu;
            score = norm_attn;
            reason = if low then "low_attention_quantize" else "high_attention_keep";
          })

  unfoldable pub quantize_only_decisions :
      PolicyConfig W → W → List (BlockState W) → List (PolicyDecision W)
  unfolding keep_all sink_ids
  quantize_only_decisions c pressure blocks =
      if not c.quantization_enabled || d.lt pressure c.memory_pressure_low
      then keep_all blocks
      else map (quantize_verdict c (sink_ids c blocks) (max_attention blocks)) blocks

  -- OffloadOnlyPolicy: `scored`, ascending by score
  abbrev pub by_score : BlockState W × W → BlockState W × W → Bool
  by_score x y = d.le x.1 y.1

  unfoldable pub scored_blocks : List (BlockState W) → List (BlockState W × W)
  unfolding sorted
  scored_blocks blocks =
      sorted by_score (map (λ b. (b, relative_attention (max_attention blocks) b)) blocks)

  abbrev pub may_offload : PolicyConfig W → List ℕ → BlockState W × W → Bool
  may_offload c sinks e =
      not (member (BlockState.block_id e.0) sinks) && d.le e.1 c.offload_threshold_score

  -- the loop that fills `offload_set`, with `offload_count` as its last argument
  unfoldable pub pick_offload : PolicyConfig W → List ℕ → ℕ → List (BlockState W × W) → ℕ → List ℕ
  pick_offload c sinks max_offload [] count = []
  pick_offload c sinks max_offload (e ∷ rest) count =
      let chosen = may_offload c sinks e && ltb count max_offload in
      let next = pick_offload c sinks max_offload rest (if chosen then count + 1 else count) in
      if chosen then BlockState.block_id e.0 ∷ next else next

  abbrev pub offload_quota : PolicyConfig W → List (BlockState W) → ℕ
  offload_quota c blocks = d.trunc (d.mul (d.of_int (length blocks)) c.offload_max_fraction)

  unfoldable pub offload_ids : PolicyConfig W → List (BlockState W) → List ℕ
  unfolding sink_ids scored_blocks pick_offload
  offload_ids c blocks =
      pick_offload c (sink_ids c blocks) (offload_quota c blocks) (scored_blocks blocks) 0

  abbrev pub offload_verdict : List ℕ → BlockState W × W → PolicyDecision W
  offload_verdict offload_set e =
      let out = member (BlockState.block_id e.0) offload_set in
      record {
        block_id = BlockState.block_id e.0;
        decision = if out then offload_cpu else keep_gpu;
        score = e.1;
        reason = if out then "low_score_offload" else "keep";
      }

  unfoldable pub offload_only_decisions :
      PolicyConfig W → W → List (BlockState W) → List (PolicyDecision W)
  unfolding keep_all offload_ids
  offload_only_decisions c pressure blocks =
      if not c.offload_enabled || d.lt pressure c.memory_pressure_low
      then keep_all blocks
      else map (offload_verdict (offload_ids c blocks)) (scored_blocks blocks)
