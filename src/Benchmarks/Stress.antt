-- ===== src/Benchmarks/Stress.antt =====
-- src/benchmarks/stress_tests.py: the bookkeeping of a stress test and its prompts. The calls to the
-- server are httpx's and their answers an argument: a latency, or an exception.
pub mod Accounts
pub mod Prompt
use Prim.Native.String.{◌++◌ as append}
use multie_layer_kache.Prelude.{
  ℕ, zero, suc, ◌+◌, String, Bool, Option, none, some, List, [], ◌∷◌, ◌++◌, map, if◌then◌else◌, ltb,
  leb, length, or_default, string_key,
}
use multie_layer_kache.Prelude.Dict
use multie_layer_kache.Prelude.Dict.{Dict}
use multie_layer_kache.Prelude.Counts.{sum_of}
use multie_layer_kache.Prelude.Floats.{Double, nought}
use multie_layer_kache.Serving.Generation.Stream.{char_length}

-- The fields that the tests set.
pub record StressTestResult (W : Type 0) : Type 0 where
  pub test_name : String
  pub policy_name : String
  pub duration_s : W
  pub total_requests : ℕ
  pub successful_requests : ℕ
  pub failed_requests : ℕ
  pub throughput_rps : W
  pub latencies_ms : List W
  pub p50_ms : W
  pub p95_ms : W
  pub p99_ms : W
  pub peak_gpu_mem_mb : W
  pub blocks_evicted : ℕ
  pub blocks_quantized : ℕ
  pub blocks_offloaded : ℕ
  pub error_rate : W

-- one of the results of `asyncio.gather(…, return_exceptions=True)`
pub data Response (W : Type 0) : Type 0 where
  latency : W → Response W
  exception : String → Response W

-- what a session of `run_long_chat_session` ends with
pub data Session (W : Type 0) : Type 0 where
  turns : List W → Session W
  raised_session : String → Session W

-- the body of `/v1/cache/status`, where it answers with status 200
pub record CacheStatus (W : Type 0) : Type 0 where
  pub blocks_per_tier : Dict String ℕ
  pub gpu_mem_used_mb : Option W

module _ {W : Type 0} ⦃d : Double W⦄ where
  unfoldable pub new_result : String → String → StressTestResult W
  new_result test_name policy_name = record {
    test_name = test_name;
    policy_name = policy_name;
    duration_s = nought;
    total_requests = 0;
    successful_requests = 0;
    failed_requests = 0;
    throughput_rps = nought;
    latencies_ms = [];
    p50_ms = nought;
    p95_ms = nought;
    p99_ms = nought;
    peak_gpu_mem_mb = nought;
    blocks_evicted = 0;
    blocks_quantized = 0;
    blocks_offloaded = 0;
    error_rate = nought;
  }

  -- the loop over the responses
  unfoldable pub tally : StressTestResult W → List (Response W) → StressTestResult W
  tally result [] = result
  tally result (exception e ∷ responses) =
      tally (record result { failed_requests = result.failed_requests + 1 }) responses
  tally result (latency ms ∷ responses) =
      tally
        (record result {
          successful_requests = result.successful_requests + 1;
          latencies_ms = result.latencies_ms ++ ms ∷ [];
        })
        responses

  -- the loop of `run_long_chat_session` over the sessions, each with the latencies of its turns
  unfoldable pub tally_sessions : ℕ → StressTestResult W → List (Session W) → StressTestResult W
  tally_sessions num_turns result [] = result
  tally_sessions num_turns result (raised_session e ∷ sessions) =
      tally_sessions num_turns
        (record result {
          failed_requests = result.failed_requests + 1;
          total_requests = result.total_requests + num_turns;
        })
        sessions
  tally_sessions num_turns result (turns lats ∷ sessions) =
      tally_sessions num_turns
        (record result {
          latencies_ms = result.latencies_ms ++ lats;
          successful_requests = result.successful_requests + length lats;
          total_requests = result.total_requests + num_turns;
        })
        sessions

  abbrev with_percentiles : (ℕ → List W → W) → List W → StressTestResult W → StressTestResult W
  with_percentiles percentile [] result = result
  with_percentiles percentile (ms ∷ rest) result = record result {
    p50_ms = percentile 50 (ms ∷ rest);
    p95_ms = percentile 95 (ms ∷ rest);
    p99_ms = percentile 99 (ms ∷ rest);
  }

  -- `percentile` is numpy's, `round_to` is `round` to a number of digits
  unfoldable pub finalise : (ℕ → List W → W) → (ℕ → W → W) → StressTestResult W → StressTestResult W
  finalise percentile round_to result =
      let timed = with_percentiles percentile result.latencies_ms result in
      let rated =
        if ltb 0 timed.total_requests
        then record timed {
          error_rate =
              round_to 4 (d.div (d.of_int timed.failed_requests) (d.of_int timed.total_requests));
        }
        else timed in
      if d.lt nought rated.duration_s
      then record rated {
        throughput_rps = round_to 2 (d.div (d.of_int rated.successful_requests) rated.duration_s);
      }
      else rated

  -- `none` is a call that raises or answers with another status
  unfoldable pub annotate : Option (CacheStatus W) → StressTestResult W → StressTestResult W
  unfolding Dict.get
  annotate none result = result
  annotate (some status) result = record result {
    blocks_evicted = or_default (Dict.get "evicted" status.blocks_per_tier) 0;
    blocks_quantized = or_default (Dict.get "gpu_quantized" status.blocks_per_tier) 0;
    blocks_offloaded = or_default (Dict.get "cpu_offloaded" status.blocks_per_tier) 0;
    peak_gpu_mem_mb = or_default status.gpu_mem_used_mb nought;
  }

  -- the end of a test, from the responses on
  unfoldable pub conclude :
      (ℕ → List W → W)
      → (ℕ → W → W)
      → StressTestResult W
      → W
      → List (Response W)
      → Option (CacheStatus W)
      → StressTestResult W
  unfolding tally finalise annotate
  conclude percentile round_to result duration responses status =
      let counted =
        tally (record result { duration_s = duration; total_requests = length responses })
          responses in
      annotate status (finalise percentile round_to counted)

-- `sum(len(w) + 1 for w in result)`
abbrev pub spaced_length : List String → ℕ
spaced_length words = sum_of (map (λ w. char_length w + 1) words)

-- the loop of `_random_prompt`; `choice i` is the word that the generator gives at turn `i`, and `fuel` bounds
-- the turns
unfoldable pub choose_words : ℕ → ℕ → (ℕ → String) → ℕ → List String → List String
unfolding char_length
choose_words zero target choice turn words = words
choose_words (suc fuel) target choice turn words =
    let next = choose_words fuel target choice (suc turn) (words ++ choice turn ∷ []) in
    if ltb (spaced_length words) target then next else words

-- `" ".join(words)`
unfoldable pub join_words : List String → String
join_words [] = ""
join_words (w ∷ []) = w
join_words (w ∷ v ∷ words) = append w (append " " (join_words (v ∷ words)))

unfoldable pub random_prompt : (ℕ → String) → ℕ → String
unfolding choose_words join_words
random_prompt choice target = join_words (choose_words target target choice 0 [])
