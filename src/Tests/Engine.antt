-- ===== src/Tests/Engine.antt =====
-- The theorems on the engine at three blocks.
use mathlib.Core.Option
use multie_layer_kache.Prelude.{
  ℕ, ◌*◌, ◌≡◌, refl, true, false, not, ◌&&◌, some, List, [], ◌∷◌, arith, nat_key, if◌then◌else◌,
}
use multie_layer_kache.Prelude.Floats.{nought, one}
use multie_layer_kache.Prelude.Fixed.{Fixed, pos, fixed_double, Fixed-IsOrdered, Fixed-IsExact}
use multie_layer_kache.Prelude.Members.{Distinct}
use multie_layer_kache.Telemetry.Schema.{TelemetryRecord, gpu_fp16, evict, offload_cpu}
use multie_layer_kache.Telemetry.Tracker.{get_block, get_memory_stats}
use multie_layer_kache.Policies.Base.{PolicyDecision, pressure_of}
use multie_layer_kache.Policies.Heuristic.Contract.{decided}
use multie_layer_kache.Policies.Dispatch.{quantize_only}
use multie_layer_kache.Engine.{World, cycle_metrics, run_policy_cycle}
use multie_layer_kache.Engine.Apply.{outcome_for}
use multie_layer_kache.Engine.Cycle.{
  IsConsistent, cycle_decisions, run_policy_cycle-IsConsistent, run_policy_cycle_lem,
}
use multie_layer_kache.Engine.Pressure.{cycle_pressure_lem}
use multie_layer_kache.Engine.Requantize.{quantize_only_restores, tier_of}
use multie_layer_kache.Tests.{tracker, second_block, base_policy, readings, list_storage, collector}
use multie_layer_kache.Tests.Telemetry.{tracker-IsValid}

abbrev decisions : List (PolicyDecision Fixed)
decisions =
    record { block_id = 3; decision = evict; score = pos 10; reason = "low" }
    ∷ record { block_id = 1; decision = offload_cpu; score = pos 200; reason = "mid" }
    ∷ []

decisions-Distinct : Distinct (decided decisions)
decisions-Distinct = ((λ m. ground arith), ((λ m. elim m [ ]), tt))

abbrev world : World Fixed (List (TelemetryRecord Fixed))
world = record {
  engine = record {
    policy = record { class = quantize_only; base = base_policy };
    interval_ms = pos 50_000;
    stats_buffer_size = 5;
    history = [];
    running = true;
    cycle_count = 0;
  };
  tracker = tracker;
  collector = some collector;
}

abbrev clock : ℕ → Fixed
clock i = pos (1000 * i)

world-IsConsistent : IsConsistent world
world-IsConsistent = record { tracker = tracker-IsValid; history = ground arith }

run_policy_cycle-IsConsistent_example :
    IsConsistent (run_policy_cycle list_storage readings clock world).0
run_policy_cycle-IsConsistent_example =
    run_policy_cycle-IsConsistent list_storage readings clock world world-IsConsistent

run_policy_cycle_lem_example :
    get_block (run_policy_cycle list_storage readings clock world).0.tracker 2
    ≡ outcome_for 2 (cycle_decisions readings world) (get_block tracker 2)
run_policy_cycle_lem_example =
    run_policy_cycle_lem list_storage readings clock world 2 tt tracker-IsValid

cycle_pressure_lem_example :
    (pressure_of (cycle_metrics tracker) ≡ (
      if fixed_double.lt nought (get_memory_stats tracker).estimated_gpu_mb then one else nought))
    × ((not (fixed_double.lt (pressure_of (cycle_metrics tracker)) (pos 650))
          && fixed_double.lt (pressure_of (cycle_metrics tracker)) (pos 850))
        ≡ false)
cycle_pressure_lem_example =
    cycle_pressure_lem Fixed-IsExact tracker Fixed-IsOrdered (pos 650) (pos 850) refl refl

quantize_only_restores_example :
    Option.map tier_of (get_block (run_policy_cycle list_storage readings clock world).0.tracker 2)
    ≡ some gpu_fp16
unfolding get_block
quantize_only_restores_example =
    quantize_only_restores list_storage readings clock world second_block 2 refl tracker-IsValid
      refl refl
