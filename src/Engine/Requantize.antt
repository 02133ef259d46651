-- ===== src/Engine/Requantize.antt =====
-- What a cycle of the quantise-only policy does to a block that is quantised already.
use mathlib.Core.Option
use multie_layer_kache.Prelude.{
  ℕ, ◌≡◌, ◌∙◌, refl, sym, ap, subst, true, not, ◌||◌, Option, none, some, List, [], ◌∷◌, arith,
  nat_key, ◌==◌, inl, inr, Bool-cases, either_branch,
}
use multie_layer_kache.Prelude.Dict.{get-some-In}
use multie_layer_kache.Prelude.Floats.{Double}
use multie_layer_kache.Prelude.Members.{In, Distinct, In-map, All-In}
use multie_layer_kache.Telemetry.Schema.{
  BlockState, BlockDecision, BlockTier, keep_gpu, quantize, offload_cpu, evict, gpu_fp16,
  gpu_quantized, tier_eq,
}
use multie_layer_kache.Telemetry.Tracker.{Tracker, get_block, get_all_blocks}
use multie_layer_kache.Telemetry.Tracker.Valid.{IsValid, HasOwnKey}
use multie_layer_kache.Telemetry.Collector.{Storage}
use multie_layer_kache.Policies.Base.{PolicyConfig, PolicyDecision, Readings, keep_all, pressure_of}
use multie_layer_kache.Policies.Base.Answers.{decision_for, decision_for-map}
use multie_layer_kache.Policies.Ids.{ids, sink_ids, max_attention}
use multie_layer_kache.Policies.Heuristic.{quantize_only_decisions, quantize_verdict}
use multie_layer_kache.Policies.Dispatch.{PolicyClass, quantize_only, decide, decisions_of}
use multie_layer_kache.Policies.Dispatch.Contract.{HasAlignedScores}
use multie_layer_kache.Engine.{World, cycle_metrics, decision_to_tier, run_policy_cycle}
use multie_layer_kache.Engine.Apply.{outcome, outcome_for}
use multie_layer_kache.Engine.Cycle.{cycle_decisions, run_policy_cycle_lem, get_all_blocks-Distinct}

-- the tier in which a decision leaves a tracked block
abbrev tier_after : BlockDecision → Option BlockTier
tier_after evict = none
tier_after keep_gpu = some gpu_fp16
tier_after quantize = some (decision_to_tier quantize)
tier_after offload_cpu = some (decision_to_tier offload_cpu)

module _ {W : Type 0} where
  abbrev pub tier_of : BlockState W → BlockTier
  tier_of b = b.current_tier

  outcome-tier :
      (s : W) (k : BlockDecision) (b : BlockState W)
      → Option.map tier_of (outcome s k (some b)) ≡ tier_after k
  unfolding decision_to_tier
  outcome-tier s evict b = refl
  outcome-tier s keep_gpu b = refl
  outcome-tier s quantize b = refl
  outcome-tier s offload_cpu b = refl

  outcome_for-tier :
      (j : ℕ) (xs : List (PolicyDecision W)) (b : BlockState W) (k : BlockDecision)
      → decision_for j xs ≡ some k
      → Option.map tier_of (outcome_for j xs (some b)) ≡ tier_after k
  outcome_for-tier j [] b k h = absurd (ground arith)
  outcome_for-tier j (x ∷ xs) b k h = elim (Bool-cases (x.block_id == j)) [
    | inl p ↦
        let same : x.decision ≡ k = ground (arith, (rw p at h)) in
        rw p (outcome-tier x.score x.decision b ∙ ap tier_after same)
    | inr p ↦ rw p (outcome_for-tier j xs b k (rw p at h))
  ]

module _ {W : Type 0} ⦃d : Double W⦄ where
  verdict_kept :
      (c : PolicyConfig W) (sinks : List ℕ) (max_attn : W) (b : BlockState W)
      → b.current_tier ≡ gpu_quantized
      → (quantize_verdict c sinks max_attn b).decision ≡ keep_gpu
  verdict_kept c sinks max_attn b q =
      let quantized : tier_eq b.current_tier gpu_quantized ≡ true =
        ap (λ k. tier_eq k gpu_quantized) q in
      ground arith

  keeps_quantized :
      (c : PolicyConfig W) (pressure : W) (blocks : List (BlockState W)) (b : BlockState W)
      → Distinct (ids blocks)
      → In b blocks
      → b.current_tier ≡ gpu_quantized
      → decision_for b.block_id (quantize_only_decisions c pressure blocks) ≡ some keep_gpu
  unfolding quantize_only_decisions keep_all
  keeps_quantized c pressure blocks b dist m q =
      let Keeps : List (PolicyDecision W) → Type 0 =
        λ out. decision_for b.block_id out ≡ some keep_gpu in
      either_branch Keeps (not c.quantization_enabled || d.lt pressure c.memory_pressure_low) _ _
        (decision_for-map (λ (x : BlockState W). x.block_id) _ blocks b (λ x. refl) dist m)
        (decision_for-map (λ (x : BlockState W). x.block_id)
            (quantize_verdict c (sink_ids c blocks) (max_attention blocks)) blocks b
            (λ x. ground arith) dist m
          ∙ ap some (verdict_kept c (sink_ids c blocks) (max_attention blocks) b q))

module _ {W S : Type 0} ⦃d : Double W⦄ (r : Readings W) where
  decisions_quantize_only :
      (w : World W S) (b : BlockState W)
      → w.engine.policy.class ≡ quantize_only
      → IsValid w.tracker
      → In b (get_all_blocks w.tracker)
      → b.current_tier ≡ gpu_quantized
      → decision_for b.block_id (cycle_decisions r w) ≡ some keep_gpu
  unfolding decide decisions_of
  decisions_quantize_only w b e v m q =
      let c = w.engine.policy.base.config in
      let blocks = get_all_blocks w.tracker in
      let metrics = cycle_metrics w.tracker in
      let Kept : PolicyClass W → Type 0 = λ k.
        decision_for b.block_id (decisions_of k c (pressure_of metrics) metrics blocks)
        ≡ some keep_gpu in
      subst Kept (sym e)
        (keeps_quantized c (pressure_of metrics) blocks b (get_all_blocks-Distinct w.tracker v) m q)

-- A block that is tracked stands among the blocks, under its own id.
tracked_In :
    {W : Type 0} (t : Tracker W) (b : BlockState W) (j : ℕ)
    → IsValid t
    → get_block t j ≡ some b
    → In b (get_all_blocks t) × (b.block_id ≡ j)
unfolding get_block get_all_blocks
tracked_In t b j v found =
    let m = get-some-In j b t.blocks found in
    (
      In-map (λ (e : ℕ × BlockState _). e.1) (j, b) t.blocks m,
      All-In HasOwnKey t.blocks (j, b) v.own_keys m,
    )

module _ {W S : Type 0} ⦃d : Double W⦄ (st : Storage W S) (r : Readings W) (now : ℕ → W) where
  -- A tracked block that is quantised is back at full precision after a cycle of the quantise-only
  -- policy, whatever the memory pressure is.
  pub quantize_only_restores :
      (w : World W S) (b : BlockState W) (j : ℕ)
      → w.engine.policy.class ≡ quantize_only
      → IsValid w.tracker
      → get_block w.tracker j ≡ some b
      → b.current_tier ≡ gpu_quantized
      → Option.map tier_of (get_block (run_policy_cycle st r now w).0.tracker j) ≡ some gpu_fp16
  quantize_only_restores w b j e v found q =
      let (m, own) = tracked_In w.tracker b j v found in
      let decision =
        subst (λ i. decision_for i (cycle_decisions r w) ≡ some keep_gpu) own
          (decisions_quantize_only r w b e v m q) in
      ap (Option.map tier_of) (
        run_policy_cycle_lem st r now w j (subst HasAlignedScores (sym e) tt) v
        ∙ ap (outcome_for j (cycle_decisions r w)) found)
      ∙ outcome_for-tier j (cycle_decisions r w) b keep_gpu decision
