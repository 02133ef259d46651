-- ===== src/Telemetry/Tracker/Calls.antt =====
-- The calls of `BlockTracker`'s methods that change its state, and runs of them.
use multie_layer_kache.Prelude.{ℕ, String, Bool, Option, List, [], ◌∷◌}
use multie_layer_kache.Prelude.Floats.{Double}
use multie_layer_kache.Telemetry.Schema.{BlockTier}
use multie_layer_kache.Telemetry.Tracker.{
  Numpy, Tracker, register_block, evict_block, update_attention, mark_accessed, update_tier,
  update_memory_snapshot, set_importance_score, mark_prefix_reuse, release_request_blocks,
  increment_age,
}

pub data Call (W : Type 0) : Type 0 where
  register : ℕ → ℕ → ℕ → String → Call W
  evict : ℕ → Call W
  attend : ℕ → List (Option W) → Call W
  access : ℕ → ℕ → Call W
  move : ℕ → BlockTier → Call W
  snapshot : ℕ → W → W → Call W
  score : ℕ → W → Call W
  reuse : ℕ → Bool → Call W
  release : String → Call W
  grow : ℕ → Call W

module _ {W : Type 0} ⦃d : Double W⦄ (np : Numpy W) where
  unfoldable pub step : Tracker W → Call W → Tracker W
  step t (register block_id layer_id head_group request_id) =
      (register_block t block_id layer_id head_group request_id).0
  step t (evict block_id) = (evict_block t block_id).0
  step t (attend block_id scores) = update_attention np t block_id scores
  step t (access block_id s) = mark_accessed t block_id s
  step t (move block_id tier) = update_tier t block_id tier
  step t (snapshot block_id used free) = update_memory_snapshot t block_id used free
  step t (score block_id x) = set_importance_score t block_id x
  step t (reuse block_id reused) = mark_prefix_reuse t block_id reused
  step t (release request_id) = (release_request_blocks t request_id).0
  step t (grow s) = increment_age t s

  unfoldable pub run : Tracker W → List (Call W) → Tracker W
  run t [] = t
  run t (c ∷ calls) = run (step t c) calls
