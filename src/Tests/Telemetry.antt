-- ===== src/Tests/Telemetry.antt =====
-- The theorems on the tracker and the collector at three blocks.
use multie_layer_kache.Prelude.{
  ℕ, ◌+◌, ◌*◌, ◌^◌, ◌≡◌, refl, Bool, none, some, List, [], ◌∷◌, leb, nat_key, string_key, length,
}
use multie_layer_kache.Prelude.Fixed.{Fixed, pos, fixed_double}
use multie_layer_kache.Telemetry.Schema.{
  BlockState, BlockTier, gpu_fp16, gpu_quantized, cpu_offloaded, evicted, tier_value,
}
use multie_layer_kache.Telemetry.Tracker.{get_blocks_by_tier, size, get_memory_stats, counted}
use multie_layer_kache.Telemetry.Tracker.Calls.{Call, run, register, evict, attend, access, release}
use multie_layer_kache.Telemetry.Tracker.View.{view, run_spec, run-view}
use multie_layer_kache.Telemetry.Tracker.Valid.{IsValid, run-IsValid}
use multie_layer_kache.Telemetry.Tracker.Memory.{get_memory_stats_lem}
use multie_layer_kache.Tests.{tracker, numpy}
use multie_layer_kache.Tests.Policies.{blocks-Distinct}

pub tracker-IsValid : IsValid tracker
tracker-IsValid = record { distinct = blocks-Distinct; own_keys = (refl, (refl, (refl, tt))) }

abbrev calls : List (Call Fixed)
calls =
    register 4 1 0 "s"
    ∷ attend 4 (some (pos 200) ∷ none ∷ [])
    ∷ access 4 7
    ∷ evict 2
    ∷ release "r"
    ∷ []

run-IsValid_example : IsValid (run numpy tracker calls)
run-IsValid_example = run-IsValid numpy tracker calls tracker-IsValid

run-view_example : view (run numpy tracker calls) ≡ run_spec numpy (view tracker) calls
run-view_example = run-view numpy tracker calls tracker-IsValid

get_memory_stats_lem_example :
    let m = get_memory_stats tracker in
    let n : BlockTier → ℕ = λ tier. length (get_blocks_by_tier tracker tier) in
    ((tier : BlockTier) → counted (tier_value tier) m.blocks_per_tier ≡ n tier)
    × (m.total_blocks ≡ size tracker)
    × (n gpu_fp16 + n gpu_quantized + n cpu_offloaded + n evicted ≡ size tracker)
    × (m.estimated_gpu_mb
        ≡ fixed_double.div
            (fixed_double.of_int
              (n gpu_fp16 * tracker.block_bytes_fp16 + n gpu_quantized * tracker.block_bytes_int8))
            (fixed_double.of_int (1024 ^ 2)))
    × (m.estimated_cpu_mb
        ≡ fixed_double.div
            (fixed_double.of_int (n cpu_offloaded * tracker.block_bytes_fp16))
            (fixed_double.of_int (1024 ^ 2)))
get_memory_stats_lem_example = get_memory_stats_lem tracker

abbrev by_age : BlockState Fixed → BlockState Fixed → Bool
by_age x y = leb y.block_age_steps x.block_age_steps
