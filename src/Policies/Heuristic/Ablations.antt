-- ===== src/Policies/Heuristic/Ablations.antt =====
-- What the ablation policies promise: prefix reuse is never evicted and more pressure keeps no more;
-- the quantise-only and offload-only policies evict nothing.
use multie_layer_kache.Prelude.{
  ℕ, ◌≡◌, refl, ◌⊎◌, inl, inr, Bool, true, false, ◌||◌, some, some, List, arith, nat_key,
  if◌then◌else◌, All, All-map, All-if, Bool-cases,
}
use multie_layer_kache.Prelude.Floats.{Double, IsOrdered, le_of_lt_le}
use multie_layer_kache.Prelude.Members.{In, Distinct, member}
use multie_layer_kache.Telemetry.Schema.{
  BlockState, BlockDecision, keep_gpu, quantize, offload_cpu, tier_eq, gpu_quantized,
}
use multie_layer_kache.Policies.Base.{PolicyConfig, PolicyDecision, keep_all}
use multie_layer_kache.Policies.Base.Answers.{decision_for, decision_for-map}
use multie_layer_kache.Policies.Ids.{ids, sink_ids, max_attention, relative_attention}
use multie_layer_kache.Policies.Heuristic.{
  prefix_caching_decisions, prefix_verdict, quantize_only_decisions, quantize_verdict,
  offload_only_decisions, offload_ids, scored_blocks,
}

if-IsKeepOr :
    (b : Bool) (k : BlockDecision) → let r = if b then k else keep_gpu in (r ≡ keep_gpu) ⊎ (r ≡ k)
if-IsKeepOr true k = inr refl
if-IsKeepOr false k = inl refl

module _ {W : Type 0} ⦃d : Double W⦄ where
  abbrev pub IsKeepOr : BlockDecision → PolicyDecision W → Type 0
  IsKeepOr k x = (x.decision ≡ keep_gpu) ⊎ (x.decision ≡ k)

  keep_all-IsKeepOr :
      (k : BlockDecision) (blocks : List (BlockState W)) → All (IsKeepOr k) (keep_all blocks)
  unfolding keep_all
  keep_all-IsKeepOr k blocks = All-map (IsKeepOr k) _ (λ b. inl refl) blocks

  IsKeepOr-if :
      (b : Bool) (k : BlockDecision) (x y : PolicyDecision W)
      → IsKeepOr k x
      → IsKeepOr k y
      → IsKeepOr k (if b then x else y)
  IsKeepOr-if true k x y h i = h
  IsKeepOr-if false k x y h i = i

  module _ (c : PolicyConfig W) (pressure : W) (blocks : List (BlockState W)) where
    quantize_verdict-IsKeepOr :
        (sinks : List ℕ) (max_attn : W) (b : BlockState W)
        → IsKeepOr quantize (quantize_verdict c sinks max_attn b)
    quantize_verdict-IsKeepOr sinks max_attn b =
        IsKeepOr-if (member b.block_id sinks || tier_eq b.current_tier gpu_quantized) quantize _ _
          (inl refl) (if-IsKeepOr _ quantize)

    -- The quantise-only policy decides KEEP_GPU or QUANTIZE for every block, and the offload-only
    -- policy KEEP_GPU or OFFLOAD_CPU: neither ever evicts.
    pub ablations_never_evict :
        All (IsKeepOr quantize) (quantize_only_decisions c pressure blocks)
        × All (IsKeepOr offload_cpu) (offload_only_decisions c pressure blocks)
    unfolding quantize_only_decisions offload_only_decisions
    ablations_never_evict = (
      All-if (IsKeepOr quantize) _ _ _ (keep_all-IsKeepOr quantize blocks) (
          All-map (IsKeepOr quantize) _
            (quantize_verdict-IsKeepOr (sink_ids c blocks) (max_attention blocks)) blocks),
      All-if (IsKeepOr offload_cpu) _ _ _ (keep_all-IsKeepOr offload_cpu blocks) (
          All-map (IsKeepOr offload_cpu) _
            (λ e. if-IsKeepOr (member (BlockState.block_id e.0) (offload_ids c blocks)) offload_cpu)
            (scored_blocks blocks)),
    )

  prefix_decision :
      (c : PolicyConfig W) (pressure : W) (blocks : List (BlockState W)) (b : BlockState W)
      → Distinct (ids blocks)
      → In b blocks
      → decision_for b.block_id (prefix_caching_decisions c pressure blocks)
        ≡ some (
            if d.lt pressure c.memory_pressure_low
            then keep_gpu
            else (prefix_verdict c pressure (max_attention blocks) b).decision)
  unfolding prefix_caching_decisions keep_all
  prefix_decision c pressure blocks b dist m =
      elim (Bool-cases (d.lt pressure c.memory_pressure_low)) [
        | inl low ↦
            rw low
              (decision_for-map (λ (x : BlockState W). x.block_id) _ blocks b (λ x. refl) dist m)
        | inr tight ↦ rw tight (
            decision_for-map (λ (x : BlockState W). x.block_id)
              (prefix_verdict c pressure (max_attention blocks)) blocks b (λ x. ground arith) dist
              m)
      ]

  -- For blocks with distinct ids, the prefix-caching policy keeps every block whose prefix was reused,
  -- and a block that it keeps under some pressure it keeps under every lower pressure.
  pub prefix_caching_lem :
      (o : IsOrdered d) (c : PolicyConfig W) (p q : W) (blocks : List (BlockState W))
      (b : BlockState W)
      → d.le (d.lit 10 2) (d.lit 20 2) ≡ true
      → d.le p q ≡ true
      → Distinct (ids blocks)
      → In b blocks
      → (b.prefix_reuse_flag ≡ true)
        ⊎ (decision_for b.block_id (prefix_caching_decisions c q blocks) ≡ some keep_gpu)
      → decision_for b.block_id (prefix_caching_decisions c p blocks) ≡ some keep_gpu
  prefix_caching_lem o c p q blocks b lits pq dist m h =
      let s = relative_attention (max_attention blocks) b in
      ground (
        arith,
        prefix_decision c p blocks b dist m,
        prefix_decision c q blocks b dist m,
        le_of_lt_le o s (d.lit 10 2) (d.lit 20 2),
        o.lt-not-le p c.memory_pressure_low,
        o.lt-not-le q c.memory_pressure_low,
        o.le_trans c.memory_pressure_low p q,
        o.le_trans c.memory_pressure_high p q,
      )
