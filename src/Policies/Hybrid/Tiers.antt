-- ===== src/Policies/Hybrid/Tiers.antt =====
-- How the hybrid policy maps a score to a tier: monotone in the score, no more generous at high
-- pressure than at medium pressure, and only to tiers that are enabled.
use multie_layer_kache.Prelude.{
  ℕ, ◌≤◌, ◌≡◌, refl, true, false, ◌&&◌, not, Option, List, arith, All, All-map, All-if,
}
use multie_layer_kache.Prelude.Floats.{Double, IsOrdered}
use multie_layer_kache.Telemetry.Schema.{
  BlockState, BlockDecision, keep_gpu, quantize, offload_cpu, evict, decision_eq,
}
use multie_layer_kache.Policies.Base.{PolicyConfig, PolicyDecision, SystemMetrics, keep_all}
use multie_layer_kache.Policies.Hybrid.{
  Scorer, medium_action, high_action, medium_verdict, high_verdict, medium_pressure, high_pressure,
  hybrid_decisions,
}

-- the tiers from the slowest to the fastest
abbrev pub tier_rank : BlockDecision → ℕ
tier_rank evict = 0
tier_rank offload_cpu = 1
tier_rank quantize = 2
tier_rank keep_gpu = 3

module _ {W : Type 0} ⦃d : Double W⦄ (o : IsOrdered d) (c : PolicyConfig W) where
  -- Of two scores the higher gets no lower a tier, at medium and at high pressure.
  pub actions_monotone :
      (s t : W)
      → d.le s t ≡ true
      → (tier_rank (medium_action c s).0 ≤ tier_rank (medium_action c t).0)
        × (tier_rank (high_action c s).0 ≤ tier_rank (high_action c t).0)
  unfolding medium_action high_action
  actions_monotone s t h = (
    ground (
      arith,
      o.le_trans c.quantization_min_importance s t,
      o.le_trans c.offload_threshold_score s t,
      o.le_trans (d.mul c.offload_threshold_score (d.lit 5 1)) s t,
    ),
    ground (
      arith,
      o.le_trans c.quantization_min_importance s t,
      o.le_trans c.offload_threshold_score s t,
    ),
  )

  -- If half the offload threshold is no more than the threshold, a score gets at high pressure no
  -- higher a tier than at medium pressure.
  pub high-le-medium :
      (s : W)
      → d.le (d.mul c.offload_threshold_score (d.lit 5 1)) c.offload_threshold_score ≡ true
      → tier_rank (high_action c s).0 ≤ tier_rank (medium_action c s).0
  unfolding medium_action high_action
  high-le-medium s half =
      ground (
        arith,
        o.le_trans (d.mul c.offload_threshold_score (d.lit 5 1)) c.offload_threshold_score s,
      )

module _ {W : Type 0} ⦃d : Double W⦄ (c : PolicyConfig W) where
  -- a decision for an action that the configuration leaves on
  abbrev pub IsEnabled : PolicyDecision W → Type 0
  IsEnabled x =
      ((decision_eq x.decision quantize && not c.quantization_enabled) ≡ false)
      × ((decision_eq x.decision offload_cpu && not c.offload_enabled) ≡ false)

  medium_verdict-IsEnabled :
      (sinks : List ℕ) (e : BlockState W × W) → IsEnabled (medium_verdict c sinks e)
  unfolding medium_verdict
  medium_verdict-IsEnabled sinks e = ground arith

  high_verdict-IsEnabled :
      (sinks hitters : List ℕ) (e : BlockState W × W) → IsEnabled (high_verdict c sinks hitters e)
  unfolding high_verdict
  high_verdict-IsEnabled sinks hitters e = ground arith

  keep_all-IsEnabled : (blocks : List (BlockState W)) → All IsEnabled (keep_all blocks)
  unfolding keep_all
  keep_all-IsEnabled blocks = All-map IsEnabled _ (λ b. (refl, refl)) blocks

  -- At every pressure, with any learned policy, the hybrid policy quantises no block while
  -- quantisation is off, and offloads none while offloading is off.
  pub hybrid-IsEnabled :
      (learned : Option (Scorer W)) (pressure : W) (m : SystemMetrics W)
      (blocks : List (BlockState W))
      → All IsEnabled (hybrid_decisions c learned pressure m blocks)
  unfolding hybrid_decisions medium_pressure high_pressure
  hybrid-IsEnabled learned pressure m blocks =
      All-if IsEnabled (d.lt pressure c.memory_pressure_low) _ _ (keep_all-IsEnabled blocks) (
        All-if IsEnabled (d.lt pressure c.memory_pressure_high) _ _
          (All-map IsEnabled _ (medium_verdict-IsEnabled _) _)
          (All-map IsEnabled _ (high_verdict-IsEnabled _ _) _))
