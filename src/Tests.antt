-- ===== src/Tests.antt =====
-- The data on which the tests run the definitions: floats are thousandths, and numpy's mean and
-- maximum are written out for them.
mod Telemetry
mod Files
mod Policies
mod Engine
mod Serving
mod Evaluation
mod Service
mod Features
mod Load
use multie_layer_kache.Prelude.{
  ℕ, String, Bool, true, false, Option, none, some, List, [], ◌∷◌, ◌++◌, map, length,
}
use multie_layer_kache.Prelude.Floats.{Double, nought, one, max_default}
use multie_layer_kache.Prelude.Fixed.{Fixed, pos, negsuc, fixed_double}
use multie_layer_kache.Telemetry.Schema.{
  BlockState, BlockTier, TelemetryRecord, gpu_fp16, gpu_quantized, cpu_offloaded,
}
use multie_layer_kache.Telemetry.Tracker.{Numpy, Tracker}
use multie_layer_kache.Telemetry.Collector.{wrote, Storage, Collector}
use multie_layer_kache.Policies.Hybrid.{Scorer}
use multie_layer_kache.Policies.Base.{
  PolicyConfig, ConfigDict, from_dict, BasePolicy, Readings, SystemMetrics,
}

abbrev sum : List Fixed → Fixed
sum [] = pos 0
sum (x ∷ xs) = fixed_double.add x (sum xs)

abbrev pub numpy : Numpy Fixed
numpy = record {
  mean = λ l. fixed_double.div (sum l) (fixed_double.of_int (length l));
  amax = λ l. max_default (pos 0) l;
}

-- a block of the request "r" with an id, a last step and an attention in thousandths
abbrev pub block_at : ℕ → ℕ → ℕ → BlockTier → BlockState Fixed
block_at i s a tier = record {
  block_id = i;
  layer_id = 0;
  head_group = 0;
  request_id = "r";
  block_age_steps = s;
  last_access_step = s;
  access_count = 1;
  avg_attention_score = pos a;
  max_attention_score = pos a;
  prefix_reuse_flag = false;
  current_tier = tier;
  gpu_mem_used_mb = pos 0;
  gpu_mem_free_mb = pos 0;
  importance_score = pos 0;
}

abbrev pub first_block : BlockState Fixed
first_block = block_at 1 5 900 gpu_fp16

abbrev pub second_block : BlockState Fixed
second_block = block_at 2 3 100 gpu_quantized

abbrev pub third_block : BlockState Fixed
third_block = block_at 3 9 500 gpu_fp16

abbrev pub blocks : List (BlockState Fixed)
blocks = first_block ∷ second_block ∷ third_block ∷ []

abbrev pub tracker : Tracker Fixed
tracker = record {
  num_layers = 2;
  num_heads = 4;
  block_size = 16;
  head_dim = 64;
  blocks = (1, first_block) ∷ (2, second_block) ∷ (3, third_block) ∷ [];
  block_bytes_fp16 = 16_384;
  block_bytes_int8 = 8_192;
}

abbrev empty_section : ConfigDict Fixed
empty_section = record {
  name = none;
  memory_pressure_low = none;
  memory_pressure_high = none;
  scheduling_interval_ms = none;
  heuristic = some (record {
    sliding_window_blocks = some 1;
    heavy_hitter_fraction = none;
    sink_token_blocks = some 1;
    recency_weight = none;
    attention_weight = none;
    reuse_weight = none;
  });
  learned = none;
  quantization = none;
  offload = none;
}

-- the defaults of the code, with one sink block and a window of one block
unfoldable pub config : PolicyConfig Fixed
unfolding from_dict
config = from_dict empty_section

abbrev pub base_policy : BasePolicy Fixed
base_policy = record { config = config; eval_count = 0; last_stats = none }

abbrev pub readings : Readings Fixed
readings = record { started = pos 1; finished = pos 2; now = pos 3 }

-- a pressure of 0.9
abbrev pub tight : Fixed
tight = pos 900

abbrev pub no_metrics : SystemMetrics Fixed
no_metrics = record {
  gpu_mem_used_mb = some (pos 900);
  gpu_mem_free_mb = some (pos 100);
  global_step = some 9;
  attn_max = some (pos 900);
  workload_type = none;
}

-- a learned policy that gives every block the score 0.5
abbrev pub scorer : Scorer Fixed
scorer = record { is_ready = true; score_blocks = λ bs m. some (map (λ b. pos 500) bs) }

-- a storage that keeps what is written
abbrev pub list_storage : Storage Fixed (List (TelemetryRecord Fixed))
list_storage = record { write_batch = λ batch stored. wrote (stored ++ batch) }

abbrev pub collector : Collector Fixed (List (TelemetryRecord Fixed))
collector = record {
  enabled = true;
  model_name = "m";
  max_buffer_size = 2;
  buffer = [];
  storage = [];
  request_cache = [];
  total_records = 0;
  total_flushes = 0;
}
