-- ===== src/Policies/Dispatch.antt =====
-- src/cache_policies: the rule-based classes and the hybrid one, as one type; `LearnedPolicy` stands
-- in Policies/Learned. `decide` computes the pressure, runs the body of the class, and records the
-- statistics, as the `decide` of each class does.
pub mod Contract
pub mod Report
use multie_layer_kache.Prelude.{
  ℕ, String, Bool, true, false, Option, none, some, List, [], ◌∷◌, if◌then◌else◌,
}
use multie_layer_kache.Prelude.Floats.{Double}
use multie_layer_kache.Telemetry.Schema.{BlockState}
use multie_layer_kache.Policies.Base.{
  BasePolicy, PolicyConfig, PolicyDecision, SystemMetrics, Readings, pressure_of, finish,
}
use multie_layer_kache.Policies.Heuristic.{
  full_cache_decisions, sliding_window_decisions, h2o_decisions, prefix_caching_decisions,
  quantize_only_decisions, offload_only_decisions,
}
use multie_layer_kache.Policies.Hybrid.{Scorer, hybrid_decisions, note_pressure}

-- `hybrid` carries its learned policy and its pressure history.
pub data PolicyClass (W : Type 0) : Type 0 where
  full_cache sliding_window h2o prefix_caching quantize_only offload_only : PolicyClass W
  hybrid : Option (Scorer W) → List W → PolicyClass W

pub record Policy (W : Type 0) : Type 0 where
  pub class : PolicyClass W
  pub base : BasePolicy W

module _ {W : Type 0} where
  unfoldable pub get_name : PolicyClass W → String
  get_name full_cache = "full_cache"
  get_name sliding_window = "sliding_window"
  get_name h2o = "h2o"
  get_name prefix_caching = "prefix_caching"
  get_name quantize_only = "quantize_only"
  get_name offload_only = "offload_only"
  get_name (hybrid _ _) = "hybrid"

module _ {W : Type 0} ⦃d : Double W⦄ where
  unfoldable pub decisions_of :
      PolicyClass W
      → PolicyConfig W
      → W
      → SystemMetrics W
      → List (BlockState W)
      → List (PolicyDecision W)
  decisions_of full_cache c pressure m blocks = full_cache_decisions c pressure blocks
  decisions_of sliding_window c pressure m blocks = sliding_window_decisions c pressure blocks
  decisions_of h2o c pressure m blocks = h2o_decisions c pressure blocks
  decisions_of prefix_caching c pressure m blocks = prefix_caching_decisions c pressure blocks
  decisions_of quantize_only c pressure m blocks = quantize_only_decisions c pressure blocks
  decisions_of offload_only c pressure m blocks = offload_only_decisions c pressure blocks
  decisions_of (hybrid learned _) c pressure m blocks = hybrid_decisions c learned pressure m blocks

  abbrev noted : W → PolicyClass W → PolicyClass W
  noted pressure (hybrid learned history) = hybrid learned (note_pressure pressure history)
  noted pressure full_cache = full_cache
  noted pressure sliding_window = sliding_window
  noted pressure h2o = h2o
  noted pressure prefix_caching = prefix_caching
  noted pressure quantize_only = quantize_only
  noted pressure offload_only = offload_only

  unfoldable pub decide :
      Policy W
      → Readings W
      → List (BlockState W)
      → SystemMetrics W
      → List (PolicyDecision W) × Policy W
  unfolding get_name decisions_of pressure_of finish
  decide p r blocks m =
      let pressure = pressure_of m in
      let decisions = decisions_of p.class p.base.config pressure m blocks in
      let (out, base) = finish (get_name p.class) r pressure p.base decisions in
      (out, record { class = noted pressure p.class; base = base })
