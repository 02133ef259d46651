-- ===== src/Engine.antt =====
-- src/cache_policies/policy_engine.py: `PolicyEngine`, one cycle at a time. The engine shares the
-- tracker and the telemetry collector with the server; a cycle never waits, so it is one function
-- from state to state. The asyncio task itself is not modelled.
pub mod Apply
pub mod Cycle
pub mod Pressure
pub mod Requantize
use multie_layer_kache.Prelude.{
  ℕ, ◌+◌, ◌-◌, String, Bool, true, false, Option, none, some, List, [], ◌∷◌, ◌++◌, map,
  if◌then◌else◌, ltb, length, max, last_n, drop,
}
use multie_layer_kache.Prelude.Floats.{Double, nought, one, fmax, max_default}
use multie_layer_kache.Telemetry.Schema.{
  BlockState, BlockDecision, BlockTier, keep_gpu, quantize, offload_cpu, evict, gpu_fp16,
  gpu_quantized, cpu_offloaded, evicted,
}
use multie_layer_kache.Telemetry.Tracker.{
  Tracker, evict_block, update_tier, set_importance_score, get_all_blocks, get_block,
  get_memory_stats, size,
}
use multie_layer_kache.Telemetry.Collector.{Storage, Collector, record_block_event, no_context}
use multie_layer_kache.Policies.Base.{PolicyDecision, PolicyStats, SystemMetrics, Readings}
use multie_layer_kache.Policies.Dispatch.{Policy, decide, get_name}

unfoldable pub decision_to_tier : BlockDecision → BlockTier
decision_to_tier keep_gpu = gpu_fp16
decision_to_tier quantize = gpu_quantized
decision_to_tier offload_cpu = cpu_offloaded
decision_to_tier evict = evicted

pub record Engine (W : Type 0) : Type 0 where
  pub policy : Policy W
  pub interval_ms : W
  pub stats_buffer_size : ℕ
  pub history : List (PolicyStats W)
  pub running : Bool
  pub cycle_count : ℕ

-- the dictionary of `get_current_stats`
pub record CurrentStats (W : Type 0) : Type 0 where
  pub policy_name : String
  pub cycle_count : ℕ
  pub running : Bool
  pub interval_ms : W
  pub last_stats : Option (PolicyStats W)

-- `deque(maxlen=n).append`
unfoldable pub append_bounded : {A : Type 0} → ℕ → List A → A → List A
unfolding drop
append_bounded n xs x = let longer = xs ++ x ∷ [] in drop (length longer - n) longer

abbrev pub append_some : {A : Type 0} → ℕ → List A → Option A → List A
append_some n xs none = xs
append_some n xs (some x) = append_bounded n xs x

abbrev pub last_of : {A : Type 0} → List A → Option A
last_of [] = none
last_of (x ∷ []) = some x
last_of (x ∷ y ∷ xs) = last_of (y ∷ xs)

module _ {W : Type 0} where
  unfoldable pub init : Policy W → W → ℕ → Engine W
  init policy interval_ms stats_buffer_size = record {
    policy = policy;
    interval_ms = interval_ms;
    stats_buffer_size = stats_buffer_size;
    history = [];
    running = false;
    cycle_count = 0;
  }

  -- `start` and `stop`, without the asyncio task
  unfoldable pub start : Engine W → Engine W
  start e = if e.running then e else record e { running = true }

  unfoldable pub stop : Engine W → Engine W
  stop e = record e { running = false }

  unfoldable pub override_policy : Policy W → Engine W → Engine W
  override_policy new_policy e = record e { policy = new_policy }

  -- `history[-n:]`: all of it for 0
  unfoldable pub get_decision_history : Engine W → ℕ → List (PolicyStats W)
  unfolding last_n
  get_decision_history e n = last_n n e.history

  unfoldable pub get_current_stats : Engine W → CurrentStats W
  unfolding get_name
  get_current_stats e = record {
    policy_name = get_name e.policy.class;
    cycle_count = e.cycle_count;
    running = e.running;
    interval_ms = e.interval_ms;
    last_stats = last_of e.history;
  }

  -- the body of the loop: every decision has a tier, so its `continue` is never taken
  unfoldable pub apply_decision : Tracker W → ℕ → W → BlockDecision → Tracker W
  unfolding decision_to_tier evict_block update_tier set_importance_score
  apply_decision t block_id score evict = (evict_block t block_id).0
  apply_decision t block_id score keep_gpu =
      set_importance_score (update_tier t block_id (decision_to_tier keep_gpu)) block_id score
  apply_decision t block_id score quantize =
      set_importance_score (update_tier t block_id (decision_to_tier quantize)) block_id score
  apply_decision t block_id score offload_cpu =
      set_importance_score (update_tier t block_id (decision_to_tier offload_cpu)) block_id score

  unfoldable pub apply_decisions : Tracker W → List (PolicyDecision W) → Tracker W
  unfolding apply_decision
  apply_decisions t [] = t
  apply_decisions t (x ∷ xs) = apply_decisions (apply_decision t x.block_id x.score x.decision) xs

  unfoldable pub max_step : List (BlockState W) → ℕ
  max_step [] = 0
  max_step (b ∷ bs) = max (BlockState.last_access_step b) (max_step bs)

module _ {W S : Type 0} ⦃d : Double W⦄ where
  -- the telemetry of a cycle: the decisions whose block is still tracked; `now` has the reading of
  -- the clock at the event of each block
  unfoldable pub record_decisions :
      Storage W S → (ℕ → W) → Tracker W → Collector W S → List (PolicyDecision W) → Collector W S
  unfolding get_block record_block_event
  record_decisions st now t c [] = c
  record_decisions st now t c (x ∷ xs) =
      record_decisions st now t
        (elim (get_block t x.block_id) [
          | none ↦ c
          | some block ↦ record_block_event st (now x.block_id) c block x.decision no_context
        ])
        xs

  -- `if self.telemetry_collector:`
  abbrev pub record_cycle :
      Storage W S
      → (ℕ → W)
      → Tracker W
      → Option (Collector W S)
      → List (PolicyDecision W)
      → Option (Collector W S)
  record_cycle st now t none xs = none
  record_cycle st now t (some c) xs = some (record_decisions st now t c xs)

module _ {W : Type 0} ⦃d : Double W⦄ where
  -- `max(0.0, len(blocks) * 0.0)` is the placeholder of the source for the free memory
  unfoldable pub cycle_metrics : Tracker W → SystemMetrics W
  unfolding get_memory_stats get_all_blocks size max_step
  cycle_metrics t = record {
    gpu_mem_used_mb = some (get_memory_stats t).estimated_gpu_mb;
    gpu_mem_free_mb = some (fmax nought (d.mul (d.of_int (size t)) nought));
    global_step = some (max_step (get_all_blocks t));
    attn_max =
        some (max_default one (map (λ b. BlockState.max_attention_score b) (get_all_blocks t)));
    workload_type = none;
  }

-- What a cycle reads and writes.
pub record World (W S : Type 0) : Type 0 where
  pub engine : Engine W
  pub tracker : Tracker W
  pub collector : Option (Collector W S)

module _ {W S : Type 0} ⦃d : Double W⦄ where
  -- the cycle behind its first test
  unfoldable pub evaluate :
      Storage W S → Readings W → (ℕ → W) → World W S → World W S × Option (PolicyStats W)
  unfolding cycle_metrics decide apply_decisions record_decisions append_bounded get_all_blocks
  evaluate st r now w =
      let (decisions, policy) =
        decide w.engine.policy r (get_all_blocks w.tracker) (cycle_metrics w.tracker) in
      let tracker = apply_decisions w.tracker decisions in
      let collector = record_cycle st now tracker w.collector decisions in
      let stats = policy.base.last_stats in
      (
        record {
          engine = record (w.engine) {
            policy = policy;
            history = append_some w.engine.stats_buffer_size w.engine.history stats;
            cycle_count = w.engine.cycle_count + 1;
          };
          tracker = tracker;
          collector = collector;
        },
        stats,
      )

  -- `if not blocks: return None`
  unfoldable pub cycle_over :
      Storage W S
      → Readings W
      → (ℕ → W)
      → World W S
      → List (BlockState W)
      → World W S × Option (PolicyStats W)
  unfolding evaluate
  cycle_over st r now w [] = (w, none)
  cycle_over st r now w (b ∷ bs) = evaluate st r now w

  unfoldable pub run_policy_cycle :
      Storage W S → Readings W → (ℕ → W) → World W S → World W S × Option (PolicyStats W)
  unfolding cycle_over get_all_blocks
  run_policy_cycle st r now w = cycle_over st r now w (get_all_blocks w.tracker)
