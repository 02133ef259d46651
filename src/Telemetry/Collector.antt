-- ===== src/Telemetry/Collector.antt =====
-- src/telemetry/collector.py: `TelemetryCollector`. Each method holds the lock while it touches the
-- buffer, and the flush thread only calls `_flush_locked` under it, so concurrent use is a sequence
-- of calls. The storage is used through `write_batch` alone, the interface `Storage`.
pub mod Conservation
pub mod Statistics
use multie_layer_kache.Prelude.{
  ℕ, ◌+◌, String, Bool, true, false, Option, none, some, List, [], ◌∷◌, ◌++◌, if◌then◌else◌, leb,
  length, last_n, string_key, or_default,
}
use multie_layer_kache.Prelude.Dict
use multie_layer_kache.Prelude.Dict.{Dict}
use multie_layer_kache.Prelude.Floats.{Double, nought, one}
use multie_layer_kache.Telemetry.Schema.{
  BlockState, BlockDecision, WorkloadType, unknown, TelemetryRecord, RequestMetrics, EventArgs,
  from_block_state,
}

-- How a write ends: it returns, or it raises; in both cases with the state that it leaves.
pub data WriteEnd (S : Type 0) : Type 0 where
  wrote : S → WriteEnd S
  write_failed : S → WriteEnd S

-- `write_batch` with its `self`
pub record Storage (W S : Type 0) : Type 0 where
  pub write_batch : List (TelemetryRecord W) → S → WriteEnd S

pub record Collector (W S : Type 0) : Type 0 where
  pub enabled : Bool
  pub model_name : String
  pub max_buffer_size : ℕ
  pub buffer : List (TelemetryRecord W)
  pub storage : S
  pub request_cache : Dict String (RequestMetrics W)
  pub total_records : ℕ
  pub total_flushes : ℕ

-- The arguments of `record_block_event` behind the block and the decision.
pub record EventContext (W : Type 0) : Type 0 where
  pub request_metrics : Option (RequestMetrics W)
  pub workload_type : WorkloadType
  pub prompt_tokens : ℕ
  pub generated_tokens : ℕ
  pub context_length : ℕ
  pub queue_depth : ℕ
  pub cpu_mem_used_mb : W

module _ {W S : Type 0} where
  -- `config.get("enabled", True)`, `int(config.get("max_buffer_size", 10_000))`
  unfoldable pub init : Option Bool → Option ℕ → String → S → Collector W S
  init enabled max_buffer_size model_name storage = record {
    enabled = or_default enabled true;
    model_name = model_name;
    max_buffer_size = or_default max_buffer_size 10_000;
    buffer = [];
    storage = storage;
    request_cache = [];
    total_records = 0;
    total_flushes = 0;
  }

  -- the batch leaves the buffer, and comes back if the write raises
  abbrev pub written : Collector W S → WriteEnd S → Collector W S
  written c (write_failed storage) = record c { storage = storage }
  written c (wrote storage) = record c {
    buffer = [];
    storage = storage;
    total_flushes = c.total_flushes + 1;
  }

  unfoldable pub flush_batch :
      Storage W S → List (TelemetryRecord W) → Collector W S → Collector W S
  flush_batch st [] c = c
  flush_batch st (r ∷ rs) c = written c (st.write_batch (r ∷ rs) c.storage)

  unfoldable pub flush_locked : Storage W S → Collector W S → Collector W S
  unfolding flush_batch
  flush_locked st c = flush_batch st c.buffer c

  -- the locked part of `record_block_event`
  unfoldable pub buffer_record : Storage W S → Collector W S → TelemetryRecord W → Collector W S
  unfolding flush_locked
  buffer_record st c r =
      let c' = record c { buffer = c.buffer ++ r ∷ []; total_records = c.total_records + 1 } in
      if leb c'.max_buffer_size (length c'.buffer) then flush_locked st c' else c'

  unfoldable pub record_request_completion : Collector W S → RequestMetrics W → Collector W S
  unfolding Dict.put
  record_request_completion c m =
      if c.enabled
      then record c { request_cache = Dict.put (RequestMetrics.request_id m) m c.request_cache }
      else c

  unfoldable pub get_request_metrics : Collector W S → String → Option (RequestMetrics W)
  unfolding Dict.get
  get_request_metrics c request_id = Dict.get request_id c.request_cache

  unfoldable pub get_recent_records : Collector W S → ℕ → List (TelemetryRecord W)
  unfolding last_n
  get_recent_records c n = last_n n c.buffer

module _ {W : Type 0} ⦃d : Double W⦄ where
  abbrev pub metric : (RequestMetrics W → W) → Option (RequestMetrics W) → W
  metric f none = nought
  metric f (some m) = f m

  -- `rm.task_score if (rm and rm.task_score is not None) else -1.0`
  abbrev pub score_of : Option (RequestMetrics W) → W
  score_of none = d.neg one
  score_of (some m) = or_default (RequestMetrics.task_score m) (d.neg one)

  -- the defaults of `record_block_event`
  abbrev pub no_context : EventContext W
  no_context = record {
    request_metrics = none;
    workload_type = unknown;
    prompt_tokens = 0;
    generated_tokens = 0;
    context_length = 0;
    queue_depth = 0;
    cpu_mem_used_mb = nought;
  }

module _ {W S : Type 0} ⦃d : Double W⦄ where
  -- `now` is the reading of `time.time()`
  unfoldable pub record_block_event :
      Storage W S
      → W
      → Collector W S
      → BlockState W
      → BlockDecision
      → EventContext W
      → Collector W S
  unfolding from_block_state buffer_record
  record_block_event st now c block decision x =
      if c.enabled
      then buffer_record st c (
          from_block_state now block decision (record {
            model_name = c.model_name;
            workload_type = x.workload_type;
            prompt_tokens = x.prompt_tokens;
            generated_tokens = x.generated_tokens;
            context_length = x.context_length;
            queue_depth = x.queue_depth;
            cpu_mem_used_mb = x.cpu_mem_used_mb;
            latency_ms = metric (λ m. RequestMetrics.latency_ms m) x.request_metrics;
            ttft_ms = metric (λ m. RequestMetrics.ttft_ms m) x.request_metrics;
            tpot_ms = metric (λ m. RequestMetrics.tpot_ms m) x.request_metrics;
            task_score = score_of x.request_metrics;
            timestamp = none;
          }))
      else c
