-- ===== src/Lib.antt =====
-- Models of MultiLayer-Kache, a controller that places the blocks of an LLM's KV cache on the GPU
-- (full precision or quantised), on the CPU, or nowhere, and the theorems on them.
--
-- The program. A `BlockTracker` (src/telemetry/block_tracker.py) holds the state of every block. The
-- `PolicyEngine` (src/cache_policies/policy_engine.py) runs one cycle after another: it takes the
-- blocks and a memory pressure from the tracker, asks the active policy for one decision for each
-- block, applies the decisions to the tracker, and reports them to the `TelemetryCollector`
-- (src/telemetry/collector.py), which buffers records and flushes them to a `TelemetryStorage`
-- (src/telemetry/storage.py). The policies are those of src/cache_policies/heuristic.py and
-- src/cache_policies/hybrid.py over the helpers of src/cache_policies/base.py. The server
-- (src/serving) registers, attends and releases blocks through the methods of the tracker, and keeps
-- its requests in a `RequestHandler` (src/serving/request_handler.py); its endpoints
-- (src/serving/api_server.py) pass each request to an `InstrumentedVLLMEngine`
-- (src/serving/vllm_engine.py). Answers and policies are judged by src/evaluators.
--
-- The files.
--   Prelude: lists, Python's `dict` and stable `sorted`, membership, and Python's `float`.
--   Telemetry/Schema: the enumerations and records of src/telemetry/schema.py.
--   Telemetry/Tracker: `BlockTracker`, a function for each method. Its children have the sequences
--     of calls (Calls), the invariant (Valid), the map from ids to states that a caller sees (View),
--     the statistics (Memory) and the candidates for a move (Candidates).
--   Telemetry/Collector, Telemetry/Storage: `TelemetryCollector` and `TelemetryStorage`; the
--     collector uses the interface `Storage`, which Telemetry/Storage fills (Appending);
--     Telemetry/Storage/Reading is `read_all` and `read_recent`.
--   Policies/Base: `PolicyConfig`, `PolicyDecision`, `PolicyStats` and `BasePolicy`.
--   Policies/Ids: the selections of block ids that the policies share.
--   Policies/Heuristic, Policies/Hybrid: a function for the body of each `decide`.
--   Policies/Dispatch: `decide` as the engine calls it, for these classes, and (Report)
--     `get_policy_report` of the hybrid one.
--   Policies/Learned: `LearnedPolicy` (src/cache_policies/learned.py), which the hybrid policy calls.
--   Engine: `PolicyEngine`; `run_policy_cycle` is `_run_policy_cycle`.
--   Serving/Router, Serving/Requests: `WorkloadRouter` and `RequestHandler` of
--     src/serving/request_handler.py.
--   Serving/Outputs, Serving/Memory, Serving/Generation: `InstrumentedVLLMEngine`; a coroutine is split
--     where it waits.
--   Serving/Api: the endpoints over the engine and the registry, as steps between which those of other
--     requests may come (Completion), with what `lifespan` sets up (Lifespan, Ready) and
--     the batch (Batch).
--   Evaluation/Lcs, Evaluation/Distance: the tables of `_lcs_length` and `_levenshtein` of
--     src/evaluators/quality_metrics.py, with what they compute; Evaluation/Counter, Evaluation/Quality:
--     its metrics and `evaluate`.
--   Evaluation/Pareto, Evaluation/Report: the frontier and the report of `ParetoAnalyzer`
--     (src/evaluators/pareto.py).
--   Evaluation/Latency, Evaluation/System: the trackers of src/evaluators/system_metrics.py.
--   Features/Extractor, Features/Importance, Features/Workload: the three files of
--     src/feature_engineering, a module for each.
--   Training/Split: `split_train_val_test` of src/trainers/label_generator.py.
--   Benchmarks/Stress: the accounts and the prompts of src/benchmarks/stress_tests.py.
--   Tests: the theorems listed below at concrete data.
--
-- How the program is read. A method that holds a lock for all it does is a function from state to
-- state, and concurrent callers are sequences of calls. A dictionary is a list of entries in the
-- order of insertion; an exception is `none`, or a value with the state that it leaves. Times and the clock are arguments. Floats are a
-- parameter, the record `Double`, with `IsOrdered` for comparison without NaN, and `IsExact` and
-- `IsExactOnCounts` for the few roundings that a theorem needs; thousandths (Prelude/Fixed) are an
-- instance on which every definition runs. An array entry that is not finite is `none`. numpy,
-- pyarrow, the files, the learned model with its features, the outputs of vLLM, the methods of
-- strings, `sort_values` of pandas, and regular expressions are parameters. Only the loop of
-- `_random_prompt` needs fuel, the number of characters asked for, since each turn adds one at
-- least; every other loop is over a list.
--
-- Not modelled: the asyncio task and the flush and polling threads (each only repeats a step),
-- logging, the endpoints that only copy what another part reports, sampling parameters (passed on
-- to vLLM), labels and tables over pandas, tests of scipy, the training of the models, the other
-- benchmarks and plots, which are drivers around these parts or numeric code over libraries.
pub mod Prelude
pub mod Telemetry
pub mod Policies
pub mod Engine
pub mod Serving
pub mod Evaluation
mod Tests
pub mod Features
pub mod Training
pub mod Benchmarks
