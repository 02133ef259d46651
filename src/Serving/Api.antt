-- ===== src/Serving/Api.antt =====
-- src/serving/api_server.py: the endpoints over the engine and the registry of requests. `generate` waits
-- at the registry and at the engine, so it is three steps: `accept_request` up to the submission,
-- `begin_request` up to the stream of the engine, and `finish_request` from there; other calls may come
-- between them. FastAPI and Prometheus are not part of this repository: a response is a value, and of
-- the metrics, where `prometheus_client` is installed, the values are kept that the endpoints set. A
-- `Server` is what `lifespan` has set up, so `_get_engine` finds an engine, and one that is initialised. A
-- task may be cancelled where it waits for the engine; `except Exception` does not catch that.
pub mod Lifespan
pub mod Ready
pub mod Completion
pub mod Batch
use multie_layer_kache.Prelude.{
  ℕ, ◌+◌, ◌-◌, String, Bool, true, false, Option, none, some, List, [], ◌∷◌, string_key,
  if◌then◌else◌, or_default,
}
use multie_layer_kache.Prelude.Dict
use multie_layer_kache.Prelude.Dict.{Dict}
use multie_layer_kache.Prelude.Floats.{Double}
use multie_layer_kache.Serving.Router.{Text, TaskMetadata, non_empty}
use multie_layer_kache.Serving.Requests.{
  RequestHandler, submit, mark_started, mark_completed, get_queue_depth,
}
use multie_layer_kache.Serving.Outputs.{
  GenerationResult, RequestOutput, Outcome, returned, raised, cancelled, Interruption,
}
use multie_layer_kache.Serving.Generation.{ServingEngine, register, leave_generate}

-- The fields of a request that the endpoint reads.
pub record GenerateRequest : Type 0 where
  pub prompt : String
  pub workload_type : Option String
  pub request_id : Option String

pub record GenerateResponse (W : Type 0) : Type 0 where
  pub request_id : String
  pub text : String
  pub prompt_tokens : ℕ
  pub generated_tokens : ℕ
  pub ttft_ms : W
  pub tpot_ms : W
  pub latency_ms : W
  pub finish_reason : String

-- a response, an `HTTPException` with its status code and detail, or no answer but `CancelledError`
pub data Answer (W : Type 0) : Type 0 where
  answered : GenerateResponse W → Answer W
  http_error : ℕ → String → Answer W
  aborted : Answer W

-- The gauges of active requests and of the queue, and the counter of requests by workload type, for
-- each of its two statuses.
pub record Metrics : Type 0 where
  pub active_requests : ℕ
  pub queue_depth : ℕ
  pub successes : Dict String ℕ
  pub errors : Dict String ℕ

pub record Server (W P : Type 0) : Type 0 where
  pub engine : ServingEngine W P
  pub handler : RequestHandler W
  pub policy_engine : Option P
  pub metrics : Metrics

-- `labels(…).inc()`
unfoldable pub count_request : String → Dict String ℕ → Dict String ℕ
unfolding Dict.get Dict.put
count_request label counts = Dict.put label (or_default (Dict.get label counts) 0 + 1) counts

-- `req.workload_type or "unknown"`
abbrev pub workload_label : GenerateRequest → String
workload_label req = or_default (non_empty req.workload_type) "unknown"

abbrev metadata_for : Option String → Option TaskMetadata
metadata_for none = none
metadata_for (some w) = some (record { workload_type = some w; task = none })

-- `{"workload_type": req.workload_type} if req.workload_type else None`
abbrev pub metadata_of : GenerateRequest → Option TaskMetadata
metadata_of req = metadata_for (non_empty req.workload_type)

abbrev respond : {W : Type 0} → (W → W) → GenerationResult W → Answer W
respond round_2 r = answered (record {
  request_id = r.request_id;
  text = r.text;
  prompt_tokens = r.prompt_tokens;
  generated_tokens = r.generated_tokens;
  ttft_ms = round_2 r.ttft_ms;
  tpot_ms = round_2 r.tpot_ms;
  latency_ms = round_2 r.total_latency_ms;
  finish_reason = r.finish_reason;
})

module _ {W P : Type 0} ⦃d : Double W⦄ where
  -- `fresh` is the `uuid4` for a request without an id
  unfoldable pub accept_request :
      Text → Server W P → GenerateRequest → String → W → Server W P × String
  unfolding submit
  accept_request text s req fresh now =
      let answer = submit text fresh now s.handler req.prompt (metadata_of req) req.request_id in
      (record s { handler = answer.0 }, answer.1)

  -- the engine is initialised (Ready), so its `generate` comes to the registration
  unfoldable pub begin_request : Server W P → String → W → W → Server W P
  unfolding mark_started get_queue_depth register
  begin_request s rid now start =
      let handler' = mark_started now s.handler rid in
      record s {
        handler = handler';
        engine = (register s.engine (some rid) rid start).0;
        metrics = record s.metrics {
          active_requests = s.metrics.active_requests + 1;
          queue_depth = get_queue_depth handler';
        };
      }

  -- behind the `await` of the engine: the `try` with its `except`, then `finally`
  unfoldable pub close_request :
      (W → W) → Server W P → String → GenerateRequest → W → Outcome W → Server W P × Answer W
  unfolding mark_completed count_request
  close_request round_2 s rid req now (returned r) = (
    record s {
      handler = (mark_completed now s.handler rid none).0;
      metrics = record s.metrics {
        active_requests = s.metrics.active_requests - 1;
        successes = count_request (workload_label req) s.metrics.successes;
      };
    },
    respond round_2 r,
  )
  close_request round_2 s rid req now (raised message) = (
    record s {
      handler = (mark_completed now s.handler rid (some message)).0;
      metrics = record s.metrics {
        active_requests = s.metrics.active_requests - 1;
        errors = count_request (workload_label req) s.metrics.errors;
      };
    },
    http_error 500 message,
  )
  close_request round_2 s rid req now cancelled = (
    record s { metrics = record s.metrics { active_requests = s.metrics.active_requests - 1 } },
    aborted,
  )

-- What the engine meets after `begin_request`: when it began, the outputs of the stream, what ends it early, and the
-- readings of the clock up to the end.
pub record Service (W : Type 0) : Type 0 where
  pub start : W
  pub outputs : List (W × RequestOutput)
  pub error : Option Interruption
  pub now : W
  pub later : W
  pub closed_at : W

module _ {W P : Type 0} ⦃d : Double W⦄ (text : Text) (round_2 : W → W) (run : P → P) where
  unfoldable pub finish_request :
      Server W P → String → GenerateRequest → Service W → Server W P × Answer W
  unfolding leave_generate close_request
  finish_request s rid req v =
      let left =
        leave_generate run text s.engine rid req.prompt v.start v.outputs v.error v.now v.later in
      close_request round_2 (record s { engine = left.0 }) rid req v.closed_at left.1
