-- ===== src/Tests/Policies.antt =====
-- The theorems on the policies at three blocks.
use mathlib.Core.List.{Perm}
use multie_layer_kache.Prelude.{
  ◌+◌, ◌≤◌, ◌<◌, ◌≡◌, refl, ◌⊎◌, inl, inr, true, false, some, [], map, arith, ltb, leb, nat_key,
  count_by, length, length-map, All, ◌||◌, if◌then◌else◌,
}
use multie_layer_kache.Prelude.Fixed.{Fixed, pos, fixed_double, Fixed-IsOrdered}
use multie_layer_kache.Prelude.Members.{In, Distinct}
use multie_layer_kache.Telemetry.Schema.{BlockState, keep_gpu, evict, decision_eq}
use multie_layer_kache.Policies.Base.{PolicyDecision}
use multie_layer_kache.Policies.Base.Answers.{decision_for}
use multie_layer_kache.Policies.Ids.{ids, at_least_one}
use multie_layer_kache.Policies.Ids.Positions.{position}
use multie_layer_kache.Policies.Heuristic.{
  full_cache_decisions, sliding_window_decisions, h2o_decisions, offload_only_decisions, lru_quota,
}
use multie_layer_kache.Policies.Heuristic.Contract.{decided}
use multie_layer_kache.Policies.Heuristic.FullCache.{full_cache_lru}
use multie_layer_kache.Policies.Heuristic.Window.{sliding_window_lem}
use multie_layer_kache.Policies.Heuristic.HeavyHitter.{h2o_lem, heavy_quota, above, not_below}
use multie_layer_kache.Policies.Heuristic.Offload.{offload_only-IsEligible, IsEligible}
use multie_layer_kache.Policies.Hybrid.{hybrid_decisions, high_pressure}
use multie_layer_kache.Policies.Hybrid.Contract.{IsAligned}
use multie_layer_kache.Policies.Hybrid.Tiers.{hybrid-IsEnabled, IsEnabled}
use multie_layer_kache.Policies.Hybrid.Pressure.{hybrid_keeps_sinks, high_pressure_bound}
use multie_layer_kache.Policies.Learned
use multie_layer_kache.Policies.Learned.{Model, LearnedPolicy, scorer_of}
use multie_layer_kache.Policies.Learned.Contract.{
  IsPredictor, learned-in_order, scorer_of-IsAligned,
}
use multie_layer_kache.Policies.Dispatch.{Policy, hybrid, offload_only, decide}
use multie_layer_kache.Policies.Dispatch.Contract.{decide-perm}
use multie_layer_kache.Tests.{
  blocks, first_block, second_block, config, base_policy, readings, tight, no_metrics, scorer,
}

pub blocks-Distinct : Distinct (ids blocks)
blocks-Distinct = ((λ m. ground arith), ((λ m. ground arith), ((λ m. elim m [ ]), tt)))

second-In : In second_block blocks
second-In = inr (inl refl)

scorer-IsAligned : IsAligned scorer
scorer-IsAligned = record {
  one_each = λ bs m scores h. ground (arith, length-map (λ (b : BlockState Fixed). pos 500) bs);
}

full_cache_lru_example :
    let answer = decision_for 2 (full_cache_decisions config tight blocks) in
    let older = count_by (λ x. ltb (BlockState.last_access_step x) 3) blocks in
    let no_newer = count_by (λ x. leb (BlockState.last_access_step x) 3) blocks in
    ((answer ≡ some evict) × (older < lru_quota blocks))
    ⊎ ((answer ≡ some keep_gpu) × (lru_quota blocks ≤ no_newer))
unfolding config
full_cache_lru_example =
    full_cache_lru config tight blocks blocks-Distinct refl second_block second-In

sliding_window_lem_example :
    decision_for 2 (sliding_window_decisions config tight blocks)
    ≡ some (
        if ltb (position second_block blocks) 1 || leb 3 (position second_block blocks + 1)
        then keep_gpu
        else evict)
unfolding config
sliding_window_lem_example =
    sliding_window_lem config tight blocks second_block refl blocks-Distinct second-In

h2o_lem_example :
    let answer = decision_for 2 (h2o_decisions config tight blocks) in
    let sink = ltb (position second_block blocks) config.sink_token_blocks in
    ((answer ≡ some keep_gpu)
      × ((sink ≡ true) ⊎ (above config second_block blocks < heavy_quota config blocks)))
    ⊎ ((answer ≡ some evict)
        × (sink ≡ false)
        × (heavy_quota config blocks ≤ not_below config second_block blocks))
unfolding config
h2o_lem_example =
    h2o_lem config Fixed-IsOrdered tight blocks second_block refl blocks-Distinct second-In

offload_only-IsEligible_example :
    All
      (IsEligible config tight blocks blocks-Distinct)
      (offload_only_decisions config tight blocks)
offload_only-IsEligible_example = offload_only-IsEligible config tight blocks blocks-Distinct

hybrid-IsEnabled_example :
    All (IsEnabled config) (hybrid_decisions config (some scorer) tight no_metrics blocks)
hybrid-IsEnabled_example = hybrid-IsEnabled config (some scorer) tight no_metrics blocks

hybrid_keeps_sinks_example :
    decision_for 1 (hybrid_decisions config (some scorer) tight no_metrics blocks) ≡ some keep_gpu
unfolding config
hybrid_keeps_sinks_example =
    hybrid_keeps_sinks config (some scorer) tight no_metrics blocks scorer-IsAligned blocks-Distinct
      first_block (inl refl) (ground arith)

high_pressure_bound_example :
    count_by
      (λ x. decision_eq (PolicyDecision.decision x) keep_gpu)
      (high_pressure config (some scorer) no_metrics blocks)
    ≤ config.sink_token_blocks + at_least_one (length blocks) config.heavy_hitter_fraction
high_pressure_bound_example =
    high_pressure_bound config (some scorer) tight no_metrics blocks scorer-IsAligned
      blocks-Distinct

abbrev hybrid_policy : Policy Fixed
hybrid_policy = record { class = hybrid (some scorer) []; base = base_policy }

abbrev offload_policy : Policy Fixed
offload_policy = record { class = offload_only; base = base_policy }

decide-perm_example :
    Perm (decided (decide offload_policy readings blocks no_metrics).0) (ids blocks)
decide-perm_example = decide-perm offload_policy readings blocks no_metrics tt

-- a model that predicts the average attention
abbrev model : Model Fixed
model = record { predict = λ bs m. some (map (λ b. BlockState.avg_attention_score b) bs) }

model-IsPredictor : IsPredictor model
model-IsPredictor = record {
  one_each =
      λ bs m raw h. ground (arith, length-map (λ (b : BlockState Fixed). b.avg_attention_score) bs);
}

abbrev learned_policy : LearnedPolicy Fixed
learned_policy = record { base = base_policy; fallback = base_policy; model = some model }

learned-in_order_example :
    decided (Learned.decide learned_policy readings blocks no_metrics).0 ≡ ids blocks
learned-in_order_example =
    learned-in_order learned_policy readings blocks no_metrics model-IsPredictor

scorer_of-IsAligned_example : IsAligned (scorer_of learned_policy)
scorer_of-IsAligned_example = scorer_of-IsAligned learned_policy model-IsPredictor
