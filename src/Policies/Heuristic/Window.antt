-- ===== src/Policies/Heuristic/Window.antt =====
-- `SlidingWindowPolicy` keeps the sinks and the window, by position in the context.
use multie_layer_kache.Prelude.{
  ℕ, ◌+◌, ◌≡◌, ◌∙◌, ap, false, ◌||◌, some, List, arith, nat_key, if◌then◌else◌, ltb, leb, length,
}
use multie_layer_kache.Prelude.Floats.{Double}
use multie_layer_kache.Prelude.Members.{In, Distinct, member}
use multie_layer_kache.Telemetry.Schema.{BlockState, keep_gpu, evict}
use multie_layer_kache.Policies.Base.{PolicyConfig}
use multie_layer_kache.Policies.Base.Answers.{decision_for, decision_for-map}
use multie_layer_kache.Policies.Ids.{ids, window_ids}
use multie_layer_kache.Policies.Ids.Positions.{position, member-window_ids}
use multie_layer_kache.Policies.Heuristic.{sliding_window_decisions, window_verdict}

module _ {W : Type 0} ⦃d : Double W⦄ where
  window_verdict-block_id :
      (keep : List ℕ) (b : BlockState W) → (window_verdict keep b).block_id ≡ b.block_id
  window_verdict-block_id keep b = ground arith

  window_verdict-decision :
      (keep : List ℕ) (b : BlockState W)
      → (window_verdict keep b).decision ≡ (if member b.block_id keep then keep_gpu else evict)
  window_verdict-decision keep b = ground arith

  -- At or above the low threshold, for blocks with distinct ids: a block is kept if its position in
  -- the context is below the number of sinks or among the last `sliding_window_blocks` positions, and
  -- evicted otherwise.
  pub sliding_window_lem :
      (c : PolicyConfig W) (pressure : W) (blocks : List (BlockState W)) (b : BlockState W)
      → d.lt pressure c.memory_pressure_low ≡ false
      → Distinct (ids blocks)
      → In b blocks
      → decision_for b.block_id (sliding_window_decisions c pressure blocks)
        ≡ some (
            if ltb (position b blocks) c.sink_token_blocks
              || leb (length blocks) (position b blocks + c.sliding_window_blocks)
            then keep_gpu
            else evict)
  unfolding sliding_window_decisions
  sliding_window_lem c pressure blocks b tight dist m =
      let keep = window_ids c blocks in
      rw tight (
        decision_for-map (λ (x : BlockState W). x.block_id) (window_verdict keep) blocks b
          (window_verdict-block_id keep) dist m
        ∙ ap some (
            window_verdict-decision keep b
            ∙ ap (λ k. if k then keep_gpu else evict) (member-window_ids c blocks b dist m)))
