-- ===== src/Policies/Heuristic/HeavyHitter.antt =====
-- `H2OPolicy` keeps the sinks and the blocks with the largest attention.
use multie_layer_kache.Prelude.{
  ℕ, ◌≤◌, ◌<◌, ◌≡◌, ◌∙◌, sym, ap, ◌⊎◌, inl, inr, true, false, not, ◌||◌, some, List, arith, nat_key,
  if◌then◌else◌, ltb, length, count_by, count_by-cong, Bool-cases,
}
use multie_layer_kache.Prelude.Floats.{Double, IsOrdered, descending-IsOrder}
use multie_layer_kache.Prelude.Members.{In, Distinct, member}
use multie_layer_kache.Telemetry.Schema.{BlockState, keep_gpu, evict}
use multie_layer_kache.Policies.Base.{PolicyConfig}
use multie_layer_kache.Policies.Base.Answers.{decision_for, decision_for-map}
use multie_layer_kache.Policies.Ids.{ids, sink_ids, at_least_one, by_attention_falling}
use multie_layer_kache.Policies.Ids.Bounds.{first_ids-In, first_ids-out}
use multie_layer_kache.Policies.Ids.Positions.{position, member-sink_ids}
use multie_layer_kache.Policies.Heuristic.{h2o_decisions, h2o_verdict, heavy_ids}

module _ {W : Type 0} ⦃d : Double W⦄ (c : PolicyConfig W) where
  -- `max(1, int(len(blocks) * heavy_hitter_fraction))`
  abbrev pub heavy_quota : List (BlockState W) → ℕ
  heavy_quota blocks = at_least_one (length blocks) c.heavy_hitter_fraction

  -- the blocks with strictly more attention than one, and those with at least as much
  abbrev pub above : BlockState W → List (BlockState W) → ℕ
  above b blocks =
      count_by (λ x. d.lt b.avg_attention_score (BlockState.avg_attention_score x)) blocks

  abbrev pub not_below : BlockState W → List (BlockState W) → ℕ
  not_below b blocks =
      count_by (λ x. d.le b.avg_attention_score (BlockState.avg_attention_score x)) blocks

  h2o_verdict-decision :
      (sinks heavy : List ℕ) (b : BlockState W)
      → (h2o_verdict sinks heavy b).decision
        ≡ (if member b.block_id sinks || member b.block_id heavy then keep_gpu else evict)
  h2o_verdict-decision sinks heavy b = ground arith

  module _ (o : IsOrdered d) (pressure : W) (blocks : List (BlockState W)) (b : BlockState W)
      (tight : d.lt pressure c.memory_pressure_low ≡ false) (dist : Distinct (ids blocks))
      (m : In b blocks) where
    decision_tight :
        decision_for b.block_id (h2o_decisions c pressure blocks)
        ≡ some (
            if member b.block_id (sink_ids c blocks) || member b.block_id (heavy_ids c blocks)
            then keep_gpu
            else evict)
    unfolding h2o_decisions
    decision_tight = rw tight (
        decision_for-map (λ (x : BlockState W). x.block_id)
          (h2o_verdict (sink_ids c blocks) (heavy_ids c blocks)) blocks b (λ x. ground arith) dist m
        ∙ ap some (h2o_verdict-decision (sink_ids c blocks) (heavy_ids c blocks) b))

    heavy : member b.block_id (heavy_ids c blocks) ≡ true → above b blocks < heavy_quota blocks
    unfolding heavy_ids
    heavy h = omega (
      arith,
      first_ids-In (descending-IsOrder o (λ (x : BlockState W). x.avg_attention_score))
          (heavy_quota blocks) blocks b dist m h,
      count_by-cong (λ (x : BlockState W). not (by_attention_falling b x))
          (λ (x : BlockState W). d.lt b.avg_attention_score x.avg_attention_score) blocks
          (λ x. sym (o.lt-not-le b.avg_attention_score x.avg_attention_score)),
    )

    light : member b.block_id (heavy_ids c blocks) ≡ false → heavy_quota blocks ≤ not_below b blocks
    unfolding heavy_ids
    light h =
        first_ids-out (descending-IsOrder o (λ (x : BlockState W). x.avg_attention_score))
          (heavy_quota blocks) blocks b m h

    -- At or above the low threshold, for blocks with distinct ids: a block is kept only if it is one
    -- of the first `sink_token_blocks` positions or fewer blocks than the quota have strictly more
    -- attention, and evicted only if it is no such position and at least as many blocks as the quota
    -- have no less attention.
    pub h2o_lem :
        let answer = decision_for b.block_id (h2o_decisions c pressure blocks) in
        let sink = ltb (position b blocks) c.sink_token_blocks in
        ((answer ≡ some keep_gpu) × ((sink ≡ true) ⊎ (above b blocks < heavy_quota blocks)))
        ⊎ ((answer ≡ some evict) × (sink ≡ false) × (heavy_quota blocks ≤ not_below b blocks))
    h2o_lem =
        let at = member-sink_ids c blocks b dist m in
        elim (Bool-cases (member b.block_id (sink_ids c blocks))) [
          | inl s ↦ inl (decision_tight ∙ rw s, inl (sym at ∙ s))
          | inr s ↦ elim (Bool-cases (member b.block_id (heavy_ids c blocks))) [
            | inl h ↦ inl (decision_tight ∙ rw (s, h), inr (heavy h))
            | inr h ↦ inr (decision_tight ∙ rw (s, h), (sym at ∙ s), light h)
          ]
        ]
