-- ===== src/Telemetry/Schema.antt =====
-- src/telemetry/schema.py: the enumerations, the state of a block, and the rows of telemetry.
use multie_layer_kache.Prelude.{
  ℕ, String, Bool, true, false, Option, none, some, ◌==◌, if◌then◌else◌, or_default, string_key,
}

-- The members of the `str` enumerations, their values, and the constructor from a value, which
-- raises `ValueError` (`none`) on any other text.
pub data WorkloadType : Type 0 where
  single_doc_qa multi_doc_qa summarization dialogue code structured_data unknown : WorkloadType

pub data BlockTier : Type 0 where
  gpu_fp16 gpu_quantized cpu_offloaded evicted : BlockTier

pub data BlockDecision : Type 0 where
  keep_gpu quantize offload_cpu evict : BlockDecision

unfoldable pub workload_value : WorkloadType → String
workload_value single_doc_qa = "single_doc_qa"
workload_value multi_doc_qa = "multi_doc_qa"
workload_value summarization = "summarization"
workload_value dialogue = "dialogue"
workload_value code = "code"
workload_value structured_data = "structured_data"
workload_value unknown = "unknown"

unfoldable pub workload_of_value : String → Option WorkloadType
workload_of_value s =
    if s == "single_doc_qa"
    then some single_doc_qa
    else if s == "multi_doc_qa"
    then some multi_doc_qa
    else if s == "summarization"
    then some summarization
    else if s == "dialogue"
    then some dialogue
    else if s == "code"
    then some code
    else if s == "structured_data"
    then some structured_data
    else if s == "unknown"
    then some unknown
    else none

unfoldable pub tier_value : BlockTier → String
tier_value gpu_fp16 = "gpu_fp16"
tier_value gpu_quantized = "gpu_quantized"
tier_value cpu_offloaded = "cpu_offloaded"
tier_value evicted = "evicted"

unfoldable pub decision_value : BlockDecision → String
decision_value keep_gpu = "keep_gpu"
decision_value quantize = "quantize"
decision_value offload_cpu = "offload_cpu"
decision_value evict = "evict"

-- Python's `==` between members.
abbrev pub tier_eq : BlockTier → BlockTier → Bool
tier_eq gpu_fp16 gpu_fp16 = true
tier_eq gpu_quantized gpu_quantized = true
tier_eq cpu_offloaded cpu_offloaded = true
tier_eq evicted evicted = true
tier_eq s t = false

abbrev pub decision_eq : BlockDecision → BlockDecision → Bool
decision_eq keep_gpu keep_gpu = true
decision_eq quantize quantize = true
decision_eq offload_cpu offload_cpu = true
decision_eq evict evict = true
decision_eq s t = false

-- Ids, layers, heads, steps and counts are never negative in the program's own use.
pub record BlockState (W : Type 0) : Type 0 where
  pub block_id : ℕ
  pub layer_id : ℕ
  pub head_group : ℕ
  pub request_id : String
  pub block_age_steps : ℕ
  pub last_access_step : ℕ
  pub access_count : ℕ
  pub avg_attention_score : W
  pub max_attention_score : W
  pub prefix_reuse_flag : Bool
  pub current_tier : BlockTier
  pub gpu_mem_used_mb : W
  pub gpu_mem_free_mb : W
  pub importance_score : W

pub record TelemetryRecord (W : Type 0) : Type 0 where
  pub request_id : String
  pub timestamp : W
  pub workload_type : String
  pub model_name : String
  pub prompt_tokens : ℕ
  pub generated_tokens : ℕ
  pub context_length : ℕ
  pub queue_depth : ℕ
  pub gpu_mem_used_mb : W
  pub gpu_mem_free_mb : W
  pub cpu_mem_used_mb : W
  pub block_id : ℕ
  pub layer_id : ℕ
  pub head_group : ℕ
  pub block_age_steps : ℕ
  pub last_access_step : ℕ
  pub access_count : ℕ
  pub avg_attention_score : W
  pub max_attention_score : W
  pub prefix_reuse_flag : Bool
  pub quantized_flag : Bool
  pub offloaded_flag : Bool
  pub evicted_flag : Bool
  pub decision_label : String
  pub latency_ms : W
  pub ttft_ms : W
  pub tpot_ms : W
  pub task_score : W

pub record RequestMetrics (W : Type 0) : Type 0 where
  pub request_id : String
  pub start_time : W
  pub end_time : W
  pub latency_ms : W
  pub ttft_ms : W
  pub tpot_ms : W
  pub prompt_tokens : ℕ
  pub generated_tokens : ℕ
  pub queue_wait_ms : W
  pub task_score : Option W

-- The keyword arguments of `from_block_state`.
pub record EventArgs (W : Type 0) : Type 0 where
  pub model_name : String
  pub workload_type : WorkloadType
  pub prompt_tokens : ℕ
  pub generated_tokens : ℕ
  pub context_length : ℕ
  pub queue_depth : ℕ
  pub cpu_mem_used_mb : W
  pub latency_ms : W
  pub ttft_ms : W
  pub tpot_ms : W
  pub task_score : W
  pub timestamp : Option W

module _ {W : Type 0} where
  abbrev pub quantized_flag : BlockState W → Bool
  quantized_flag b = tier_eq b.current_tier gpu_quantized

  abbrev pub offloaded_flag : BlockState W → Bool
  offloaded_flag b = tier_eq b.current_tier cpu_offloaded

  abbrev pub evicted_flag : BlockState W → Bool
  evicted_flag b = tier_eq b.current_tier evicted

  -- `now` is the reading of `time.time()`
  unfoldable pub from_block_state :
      W → BlockState W → BlockDecision → EventArgs W → TelemetryRecord W
  from_block_state now block decision args = record {
    request_id = block.request_id;
    timestamp = or_default args.timestamp now;
    workload_type = workload_value args.workload_type;
    model_name = args.model_name;
    prompt_tokens = args.prompt_tokens;
    generated_tokens = args.generated_tokens;
    context_length = args.context_length;
    queue_depth = args.queue_depth;
    gpu_mem_used_mb = block.gpu_mem_used_mb;
    gpu_mem_free_mb = block.gpu_mem_free_mb;
    cpu_mem_used_mb = args.cpu_mem_used_mb;
    block_id = block.block_id;
    layer_id = block.layer_id;
    head_group = block.head_group;
    block_age_steps = block.block_age_steps;
    last_access_step = block.last_access_step;
    access_count = block.access_count;
    avg_attention_score = block.avg_attention_score;
    max_attention_score = block.max_attention_score;
    prefix_reuse_flag = block.prefix_reuse_flag;
    quantized_flag = quantized_flag block;
    offloaded_flag = offloaded_flag block;
    evicted_flag = evicted_flag block;
    decision_label = decision_value decision;
    latency_ms = args.latency_ms;
    ttft_ms = args.ttft_ms;
    tpot_ms = args.tpot_ms;
    task_score = args.task_score;
  }
