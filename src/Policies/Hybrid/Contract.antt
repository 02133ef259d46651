-- ===== src/Policies/Hybrid/Contract.antt =====
-- The contract of `decide` for the hybrid policy, from the contract of its learned policy.
use multie_layer_kache.Prelude.{
  ◌≡◌, ◌∙◌, Option, none, some, List, arith, length, length-map, zip, map-zip_left, inl, inr,
  Option-cases, Bool-cases,
}
use multie_layer_kache.Prelude.Floats.{Double}
use multie_layer_kache.Telemetry.Schema.{BlockState}
use multie_layer_kache.Policies.Base.{PolicyConfig, SystemMetrics}
use multie_layer_kache.Policies.Ids.{ids}
use multie_layer_kache.Policies.Heuristic.Contract.{
  decided, scored_id, map-map_of, if-in_order, keep_all-in_order,
}
use multie_layer_kache.Policies.Hybrid.{
  Scorer, score_all, medium_pressure, high_pressure, hybrid_decisions,
}

-- What the controller relies on: a scorer returns one score for each block.
pub record IsAligned {W : Type 0} (s : Scorer W) : Type 0 where
  pub one_each :
      (blocks : List (BlockState W)) (m : SystemMetrics W) (scores : List W)
      → s.score_blocks blocks m ≡ some scores
      → length scores ≡ length blocks

abbrev pub AreAligned : {W : Type 0} → Option (Scorer W) → Type 0
AreAligned none = Unit
AreAligned (some s) = IsAligned s

module _ {W : Type 0} ⦃d : Double W⦄ (c : PolicyConfig W) (m : SystemMetrics W) where
  pub length-score_all :
      (learned : Option (Scorer W)) (blocks : List (BlockState W))
      → AreAligned learned
      → length (score_all c learned m blocks) ≡ length blocks
  unfolding score_all
  length-score_all none blocks h = length-map _ blocks
  length-score_all (some s) blocks h = elim (Bool-cases s.is_ready) [
    | inr off ↦ rw off (length-map _ blocks)
    | inl on ↦ elim (Option-cases (s.score_blocks blocks m)) [
      | inl raised ↦ rw (on, raised) (length-map _ blocks)
      | inr (xs, scored) ↦ rw (on, scored) (h.one_each blocks m xs scored)
    ]
  ]

  module _ (learned : Option (Scorer W)) (pressure : W) (blocks : List (BlockState W)) where
    medium_pressure-in_order :
        AreAligned learned → decided (medium_pressure c learned m blocks) ≡ ids blocks
    unfolding medium_pressure
    medium_pressure-in_order h =
        map-map_of _ _ scored_id (λ e. ground arith) (zip blocks (score_all c learned m blocks))
        ∙ map-zip_left (λ (b : BlockState W). b.block_id) blocks (score_all c learned m blocks)
            (length-score_all learned blocks h)

    high_pressure-in_order :
        AreAligned learned → decided (high_pressure c learned m blocks) ≡ ids blocks
    unfolding high_pressure
    high_pressure-in_order h =
        map-map_of _ _ scored_id (λ e. ground arith) (zip blocks (score_all c learned m blocks))
        ∙ map-zip_left (λ (b : BlockState W). b.block_id) blocks (score_all c learned m blocks)
            (length-score_all learned blocks h)

    pub hybrid-in_order :
        AreAligned learned → decided (hybrid_decisions c learned pressure m blocks) ≡ ids blocks
    unfolding hybrid_decisions
    hybrid-in_order h =
        if-in_order _ (d.lt pressure c.memory_pressure_low) _ _ (keep_all-in_order blocks) (
          if-in_order _ (d.lt pressure c.memory_pressure_high) _ _ (medium_pressure-in_order h)
            (high_pressure-in_order h))
