-- ===== src/Policies/Ids.antt =====
-- What the policies of src/cache_policies share in choosing blocks: sets of block ids taken from the
-- front of a sorted list, quotas, and attention relative to the largest. A set of ids is a list with
-- a Boolean membership test. (The helpers of heuristic.py, and the expressions that recur in it and
-- in hybrid.py.)
pub mod Ranking
pub mod Bounds
pub mod Positions
use multie_layer_kache.Prelude.{
  ℕ, zero, suc, ◌-◌, Bool, List, ◌++◌, map, if◌then◌else◌, leb, length, take, drop, max,
}
use multie_layer_kache.Prelude.Sort.{sorted}
use multie_layer_kache.Prelude.Floats.{Double, nought, one, fmax, fmin, max_default}
use multie_layer_kache.Telemetry.Schema.{BlockState}
use multie_layer_kache.Policies.Base.{PolicyConfig}

module _ {W : Type 0} where
  abbrev pub ids : List (BlockState W) → List ℕ
  ids bs = map (λ b. BlockState.block_id b) bs

  -- the sort keys, as orders
  abbrev pub by_id : BlockState W → BlockState W → Bool
  by_id x y = leb x.block_id y.block_id

  abbrev pub by_last_access : BlockState W → BlockState W → Bool
  by_last_access x y = leb x.last_access_step y.last_access_step

  -- `{b.block_id for b in sorted(blocks, key=…)[:n]}`
  unfoldable pub first_ids : (BlockState W → BlockState W → Bool) → ℕ → List (BlockState W) → List ℕ
  unfolding sorted take
  first_ids before n blocks = ids (take n (sorted before blocks))

  -- the ids of the first `sink_token_blocks` blocks by position
  unfoldable pub sink_ids : PolicyConfig W → List (BlockState W) → List ℕ
  unfolding first_ids
  sink_ids c blocks = first_ids by_id c.sink_token_blocks blocks

  -- the ids that the sliding window keeps: the sinks and the last `window` positions
  unfoldable pub window_ids : PolicyConfig W → List (BlockState W) → List ℕ
  unfolding sorted take drop
  window_ids c blocks =
      let sorted_by_id = sorted by_id blocks in
      ids (take c.sink_token_blocks sorted_by_id)
      ++ ids (drop (length sorted_by_id - c.sliding_window_blocks) sorted_by_id)

module _ {W : Type 0} ⦃d : Double W⦄ where
  -- `_norm`, and `_recency_score`, which no policy calls
  unfoldable pub norm : W → W → W → W
  norm val lo hi =
      if d.le hi lo then nought else fmax nought (fmin one (d.div (d.sub val lo) (d.sub hi lo)))

  unfoldable pub recency_score : BlockState W → ℕ → W
  unfolding norm
  recency_score block zero = one
  recency_score block (suc n) =
      d.sub one (norm (d.of_int block.last_access_step) (d.of_int 0) (d.of_int (suc n)))

  -- `sorted(blocks, key=avg_attention_score, reverse=True)`
  abbrev pub by_attention_falling : BlockState W → BlockState W → Bool
  by_attention_falling x y = d.le y.avg_attention_score x.avg_attention_score

  -- `max(1, int(n * fraction))`
  abbrev pub at_least_one : ℕ → W → ℕ
  at_least_one n fraction = max 1 (d.trunc (d.mul (d.of_int n) fraction))

  abbrev pub max_attention : List (BlockState W) → W
  max_attention blocks = max_default one (map (λ b. BlockState.avg_attention_score b) blocks)

  -- `b.avg_attention_score / max_attn if max_attn > 0 else 0.0`
  abbrev pub relative_attention : W → BlockState W → W
  relative_attention max_attn b =
      if d.lt nought max_attn then d.div b.avg_attention_score max_attn else nought
