-- ===== src/Policies/Hybrid.antt =====
-- src/cache_policies/hybrid.py: `HybridAdaptivePolicy`. The attached learned policy is used through
-- two methods, `is_ready` and `score_blocks`, which are the interface `Scorer`.
pub mod Contract
pub mod Tiers
pub mod Pressure
use multie_layer_kache.Prelude.{
  ℕ, zero, suc, ◌-◌, String, Bool, true, false, ◌&&◌, ◌||◌, Option, none, some, List, [], ◌∷◌, ◌++◌,
  map, if◌then◌else◌, or_default, leb, ltb, length, take, last_n, zip, nat_key, max,
}
use multie_layer_kache.Prelude.Members.{member}
use multie_layer_kache.Prelude.Sort.{sorted}
use multie_layer_kache.Prelude.Floats.{Double, nought, one, fmax, fmin}
use multie_layer_kache.Telemetry.Schema.{
  BlockState, BlockDecision, keep_gpu, quantize, offload_cpu, evict, WorkloadType, single_doc_qa,
  multi_doc_qa, summarization, dialogue, code, structured_data, unknown, workload_value,
  workload_of_value,
}
use multie_layer_kache.Policies.Base.{PolicyConfig, PolicyDecision, SystemMetrics, keep_all}
use multie_layer_kache.Policies.Ids.{sink_ids, at_least_one}

-- The learned policy as its caller sees it; `none` is an exception.
pub record Scorer (W : Type 0) : Type 0 where
  pub is_ready : Bool
  pub score_blocks : List (BlockState W) → SystemMetrics W → Option (List W)

-- The weights of recency, attention and reuse.
pub record Weights (W : Type 0) : Type 0 where
  pub recency : W
  pub attention : W
  pub reuse : W

module _ {W : Type 0} ⦃d : Double W⦄ where
  unfoldable pub workload_deltas : WorkloadType → Weights W
  workload_deltas single_doc_qa = record {
    recency = d.lit 0 2;
    attention = d.lit 10 2;
    reuse = d.lit 0 2;
  }
  workload_deltas multi_doc_qa = record {
    recency = d.lit 0 2;
    attention = d.lit 10 2;
    reuse = d.lit 5 2;
  }
  workload_deltas summarization = record {
    recency = d.lit 10 2;
    attention = d.lit 0 2;
    reuse = d.lit 0 2;
  }
  workload_deltas dialogue = record {
    recency = d.lit 5 2;
    attention = d.lit 0 2;
    reuse = d.lit 5 2;
  }
  workload_deltas code = record {
    recency = d.neg (d.lit 5 2);
    attention = d.lit 5 2;
    reuse = d.lit 15 2;
  }
  workload_deltas structured_data = record {
    recency = d.lit 0 2;
    attention = d.lit 5 2;
    reuse = d.lit 5 2;
  }
  workload_deltas unknown = record { recency = d.lit 0 2; attention = d.lit 0 2; reuse = d.lit 0 2 }

  -- a value that names no workload counts as unknown
  unfoldable pub workload_of : SystemMetrics W → WorkloadType
  unfolding workload_of_value workload_value
  workload_of m =
      or_default (workload_of_value (or_default m.workload_type (workload_value unknown))) unknown

  unfoldable pub adapted_weights : PolicyConfig W → WorkloadType → Weights W
  unfolding workload_deltas
  adapted_weights c w =
      let delta = workload_deltas w in
      let w_rec = fmax nought (d.add c.recency_weight delta.recency) in
      let w_att = fmax nought (d.add c.attention_weight delta.attention) in
      let w_reu = fmax nought (d.add c.reuse_weight delta.reuse) in
      let total_w = d.add (d.add w_rec w_att) w_reu in
      if d.lt nought total_w
      then record {
        recency = d.div w_rec total_w;
        attention = d.div w_att total_w;
        reuse = d.div w_reu total_w;
      }
      else record { recency = w_rec; attention = w_att; reuse = w_reu }

  -- the difference of two integers, which may be negative, as a float
  abbrev int_difference : ℕ → ℕ → W
  int_difference a b = if leb b a then d.of_int (a - b) else d.neg (d.of_int (b - a))

  unfoldable pub recency_of : SystemMetrics W → BlockState W → W
  recency_of m b =
      let max_step = or_default m.global_step (max b.last_access_step 1) in
      fmax nought
        (d.sub one (d.div (int_difference max_step b.last_access_step) (d.of_int (max max_step 1))))

  unfoldable pub attention_of : SystemMetrics W → BlockState W → W
  attention_of m b =
      let attn_max = or_default m.attn_max (fmax b.max_attention_score (d.lit 1 9)) in
      fmin one (if d.lt nought attn_max then d.div b.avg_attention_score attn_max else nought)

  unfoldable pub score_block : PolicyConfig W → SystemMetrics W → BlockState W → W
  unfolding workload_of adapted_weights recency_of attention_of
  score_block c m b =
      let w = adapted_weights c (workload_of m) in
      let reuse = if b.prefix_reuse_flag then one else nought in
      d.add (d.add (d.mul w.recency (recency_of m b)) (d.mul w.attention (attention_of m b)))
        (d.mul w.reuse reuse)

  abbrev heuristic_scores : PolicyConfig W → SystemMetrics W → List (BlockState W) → List W
  heuristic_scores c m blocks = map (score_block c m) blocks

  -- a learned policy that is ready and does not raise replaces the heuristic
  unfoldable pub score_all :
      PolicyConfig W → Option (Scorer W) → SystemMetrics W → List (BlockState W) → List W
  unfolding score_block
  score_all c none m blocks = heuristic_scores c m blocks
  score_all c (some learned) m blocks =
      if learned.is_ready
      then or_default (learned.score_blocks blocks m) (heuristic_scores c m blocks)
      else heuristic_scores c m blocks

  abbrev pub verdict : ℕ → BlockDecision → W → String → PolicyDecision W
  verdict i decision score reason = record {
    block_id = i;
    decision = decision;
    score = score;
    reason = reason;
  }

  -- a block that is no sink, at medium pressure
  unfoldable pub medium_action : PolicyConfig W → W → BlockDecision × String
  medium_action c score =
      if d.le c.quantization_min_importance score
      then (keep_gpu, "high_score")
      else if d.le c.offload_threshold_score score && c.quantization_enabled
      then (quantize, "medium_score_quantize")
      else if d.le (d.mul c.offload_threshold_score (d.lit 5 1)) score && c.offload_enabled
      then (offload_cpu, "low_medium_offload")
      else (evict, "very_low_evict")

  unfoldable pub medium_verdict : PolicyConfig W → List ℕ → BlockState W × W → PolicyDecision W
  unfolding medium_action
  medium_verdict c sinks e =
      let i = BlockState.block_id e.0 in
      if member i sinks
      then verdict i keep_gpu one "sink"
      else verdict i (medium_action c e.1).0 e.1 (medium_action c e.1).1

  unfoldable pub medium_pressure :
      PolicyConfig W
      → Option (Scorer W)
      → SystemMetrics W
      → List (BlockState W)
      → List (PolicyDecision W)
  unfolding score_all sink_ids medium_verdict zip
  medium_pressure c learned m blocks =
      map (medium_verdict c (sink_ids c blocks)) (zip blocks (score_all c learned m blocks))

  abbrev pub by_score_falling : BlockState W × W → BlockState W × W → Bool
  by_score_falling x y = d.le y.1 x.1

  -- the ids of the `heavy_hitter_fraction` of the blocks with the largest scores
  unfoldable pub hitter_ids : PolicyConfig W → List (BlockState W) → List W → List ℕ
  unfolding sorted take zip
  hitter_ids c blocks scores =
      map (λ e. BlockState.block_id e.0)
        (take (at_least_one (length blocks) c.heavy_hitter_fraction)
          (sorted by_score_falling (zip blocks scores)))

  -- a block that is no sink and no heavy hitter, at high pressure
  unfoldable pub high_action : PolicyConfig W → W → BlockDecision × String
  high_action c score =
      if d.le c.quantization_min_importance score && c.quantization_enabled
      then (quantize, "medium_high_quantize")
      else if d.le c.offload_threshold_score score && c.offload_enabled
      then (offload_cpu, "medium_offload")
      else (evict, "aggressive_evict")

  unfoldable pub high_verdict :
      PolicyConfig W → List ℕ → List ℕ → BlockState W × W → PolicyDecision W
  unfolding high_action
  high_verdict c sinks hitters e =
      let i = BlockState.block_id e.0 in
      if member i sinks || member i hitters
      then verdict i keep_gpu e.1 "hh_or_sink"
      else verdict i (high_action c e.1).0 e.1 (high_action c e.1).1

  unfoldable pub high_pressure :
      PolicyConfig W
      → Option (Scorer W)
      → SystemMetrics W
      → List (BlockState W)
      → List (PolicyDecision W)
  unfolding score_all sink_ids hitter_ids high_verdict zip
  high_pressure c learned m blocks =
      let scores = score_all c learned m blocks in
      map (high_verdict c (sink_ids c blocks) (hitter_ids c blocks scores)) (zip blocks scores)

  unfoldable pub hybrid_decisions :
      PolicyConfig W
      → Option (Scorer W)
      → W
      → SystemMetrics W
      → List (BlockState W)
      → List (PolicyDecision W)
  unfolding keep_all medium_pressure high_pressure
  hybrid_decisions c learned pressure m blocks =
      if d.lt pressure c.memory_pressure_low
      then keep_all blocks
      else if d.lt pressure c.memory_pressure_high
      then medium_pressure c learned m blocks
      else high_pressure c learned m blocks

module _ {W : Type 0} where
  -- the ring of the last 1000 pressures
  unfoldable pub note_pressure : W → List W → List W
  unfolding last_n
  note_pressure pressure history =
      let longer = history ++ pressure ∷ [] in
      if ltb 1000 (length longer) then last_n 1000 longer else longer
