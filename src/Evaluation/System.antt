-- ===== src/Evaluation/System.antt =====
-- src/evaluators/system_metrics.py: `SystemMetricsCollector`. The clock, numpy and the memory are
-- arguments; the thread that polls the hardware is left out.
use multie_layer_kache.Prelude.{ℕ, ◌+◌, List, [], ◌∷◌, if◌then◌else◌, count_by}
use multie_layer_kache.Prelude.Floats.{Double, nought}
use multie_layer_kache.Evaluation.Latency.{
  LatencyTracker, new_tracker, record_value, append_within, percentile, mean, count,
}

pub record SystemMetricsCollector (W : Type 0) : Type 0 where
  pub latency : LatencyTracker W
  pub ttft : LatencyTracker W
  pub tpot : LatencyTracker W
  pub token_timestamps : List (W × ℕ)
  pub request_timestamps : List W

-- the dictionary of `get_summary`; `round` stands at each field
pub record Summary (W : Type 0) : Type 0 where
  pub rps : W
  pub throughput_tps : W
  pub p50_latency_ms : W
  pub p95_latency_ms : W
  pub p99_latency_ms : W
  pub avg_ttft_ms : W
  pub avg_tpot_ms : W
  pub total_requests : ℕ
  pub gpu_mem_used_mb : W
  pub gpu_mem_free_mb : W

-- `np.percentile`, `np.mean` and `round` to a number of digits
pub record Statistics (W : Type 0) : Type 0 where
  pub percentile_of : ℕ → List W → W
  pub mean_of : List W → W
  pub round_to : ℕ → W → W

module _ {W : Type 0} where
  unfoldable pub new_collector : SystemMetricsCollector W
  new_collector = record {
    latency = new_tracker 10_000;
    ttft = new_tracker 10_000;
    tpot = new_tracker 10_000;
    token_timestamps = [];
    request_timestamps = [];
  }

  unfoldable pub record_request :
      W → SystemMetricsCollector W → W → W → W → ℕ → SystemMetricsCollector W
  unfolding record_value append_within
  record_request now c latency_ms ttft_ms tpot_ms tokens_generated = record {
    latency = record_value c.latency latency_ms;
    ttft = record_value c.ttft ttft_ms;
    tpot = record_value c.tpot tpot_ms;
    token_timestamps = append_within 10_000 c.token_timestamps (now, tokens_generated);
    request_timestamps = append_within 10_000 c.request_timestamps now;
  }

module _ {W : Type 0} ⦃d : Double W⦄ where
  -- `sum(toks for ts, toks in l if ts >= cutoff)`
  unfoldable pub recent_tokens : W → List (W × ℕ) → ℕ
  recent_tokens cutoff [] = 0
  recent_tokens cutoff ((ts, toks) ∷ l) =
      (if d.le cutoff ts then toks else 0) + recent_tokens cutoff l

  -- `used` and `free` are what `_gpu_memory_mb` returns
  unfoldable pub get_summary : Statistics W → W → W × W → SystemMetricsCollector W → W → Summary W
  unfolding recent_tokens percentile mean count
  get_summary np now (used, free) c window_s =
      let cutoff = d.sub now window_s in
      let recent_reqs = count_by (λ t. d.le cutoff t) c.request_timestamps in
      let per_second =
        λ (n : ℕ). if d.lt nought window_s then d.div (d.of_int n) window_s else nought in
      record {
        rps = np.round_to 2 (per_second recent_reqs);
        throughput_tps = np.round_to 2 (per_second (recent_tokens cutoff c.token_timestamps));
        p50_latency_ms = np.round_to 2 (percentile (np.percentile_of 50) c.latency);
        p95_latency_ms = np.round_to 2 (percentile (np.percentile_of 95) c.latency);
        p99_latency_ms = np.round_to 2 (percentile (np.percentile_of 99) c.latency);
        avg_ttft_ms = np.round_to 2 (mean np.mean_of c.ttft);
        avg_tpot_ms = np.round_to 2 (mean np.mean_of c.tpot);
        total_requests = count c.latency;
        gpu_mem_used_mb = np.round_to 1 used;
        gpu_mem_free_mb = np.round_to 1 free;
      }
