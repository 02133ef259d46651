-- ===== src/Serving/Generation.antt =====
-- src/serving/vllm_engine.py: `InstrumentedVLLMEngine`. A coroutine that waits is split where it
-- waits: `enter_generate` runs up to the first `await`, `leave_generate` from the end of vLLM's stream. The
-- stream is vLLM's and an argument: its outputs, each with the clock when it arrives, and what
-- ends it early, if anything. `P` is the state of the policy engine, and `run` one cycle of it.
pub mod Flight
pub mod Stream
use Prim.Native.String.{◌++◌ as append}
use multie_layer_kache.Prelude.{
  ℕ, String, Bool, true, false, not, ◌||◌, ◌&&◌, Option, none, some, List, [], ◌∷◌, ◌==◌,
  string_key, if◌then◌else◌, ltb, length, max, or_default,
}
use multie_layer_kache.Prelude.Dict
use multie_layer_kache.Prelude.Dict.{Dict}
use multie_layer_kache.Prelude.Floats.{Double, nought, one, fmax}
use multie_layer_kache.Serving.Router.{Text, non_empty}
use multie_layer_kache.Serving.Requests.{elapsed_ms}
use multie_layer_kache.Serving.Outputs.{
  GenerationResult, RequestOutput, Outcome, returned, raised, cancelled, Interruption, exception,
  cancellation, ended_by, Progress, no_progress, take_outputs, result_of,
}

pub record ServingEngine (W P : Type 0) : Type 0 where
  pub vllm_available : Bool
  pub engine_built : Bool
  pub initialized : Bool
  pub in_flight : Dict String W
  pub policy_engine : Option P
  pub policy_interval_ms : W
  pub last_policy_check : W

-- `request_id or str(uuid.uuid4())`
abbrev pub rid_of : Option String → String → String
rid_of request_id fresh = or_default (non_empty request_id) fresh

module _ {W P : Type 0} ⦃d : Double W⦄ where
  abbrev pub new_engine : Bool → Option P → W → ServingEngine W P
  new_engine vllm_available policy_engine interval = record {
    vllm_available = vllm_available;
    engine_built = false;
    initialized = false;
    in_flight = [];
    policy_engine = policy_engine;
    policy_interval_ms = interval;
    last_policy_check = nought;
  }

  -- what `initialize` assigns where it returns
  abbrev pub with_engine : ServingEngine W P → ServingEngine W P
  with_engine e =
      if e.vllm_available
      then record e { engine_built = true; initialized = true }
      else record e { initialized = true }

  -- `built` is whether vLLM's `from_engine_args` returns; `none` is its exception
  unfoldable pub initialize : Bool → ServingEngine W P → Option (ServingEngine W P)
  initialize built e = if e.vllm_available && not built then none else some (with_engine e)

  -- an exception of the cycle is caught, so `run` has no failure
  unfoldable pub trigger_policy_check : (P → P) → ServingEngine W P → ServingEngine W P
  trigger_policy_check run e = record e {
    policy_engine = elim e.policy_engine [ none ↦ none | some p ↦ some (run p) ];
  }

  -- `now` is `time.perf_counter() * 1000`
  unfoldable pub maybe_trigger_policy : (P → P) → W → ServingEngine W P → ServingEngine W P
  unfolding trigger_policy_check
  maybe_trigger_policy run now e =
      if d.le e.policy_interval_ms (d.sub now e.last_policy_check)
      then trigger_policy_check run (record e { last_policy_check = now })
      else e

  -- the registration in `_in_flight`
  unfoldable pub register :
      ServingEngine W P → Option String → String → W → ServingEngine W P × String
  unfolding Dict.put
  register e request_id fresh start =
      let rid = rid_of request_id fresh in
      (record e { in_flight = Dict.put rid start e.in_flight }, rid)

  abbrev pub registered :
      Option (ServingEngine W P) → Option String → String → W → Option (ServingEngine W P × String)
  registered none request_id fresh start = none
  registered (some e) request_id fresh start = some (register e request_id fresh start)

  -- up to the first `await` behind the registration; `none` is an exception of `initialize`
  unfoldable pub enter_generate :
      Bool → ServingEngine W P → Option String → String → W → Option (ServingEngine W P × String)
  unfolding initialize register
  enter_generate built e request_id fresh start =
      registered (if e.initialized then some e else initialize built e) request_id fresh start

  -- `not _VLLM_AVAILABLE or self._engine is None`
  abbrev pub is_mock : ServingEngine W P → Bool
  is_mock e = not e.vllm_available || not e.engine_built

  unfoldable pub mock_generate :
      Text → ServingEngine W P → String → String → W → W → ServingEngine W P × GenerationResult W
  unfolding Dict.remove
  mock_generate text e rid prompt start now =
      let total_ms = elapsed_ms now start in
      (
        record e { in_flight = Dict.remove rid e.in_flight },
        record {
          request_id = rid;
          text = append "[MOCK] Response to: " (text.prefix 80 prompt);
          prompt_tokens = text.word_count prompt;
          generated_tokens = 8;
          ttft_ms = d.mul total_ms (d.lit 2 1);
          tpot_ms = d.div (d.mul total_ms (d.lit 8 1)) (d.of_int 8);
          total_latency_ms = total_ms;
          finish_reason = "stop";
        },
      )

module _ {W P : Type 0} ⦃d : Double W⦄ (run : P → P) where
  -- behind the loop: what ends the stream early, or an error of `outputs[0]`, leaves `_in_flight` as it is
  unfoldable pub finish_generate :
      ServingEngine W P
      → String
      → W
      → W
      → W
      → Option Interruption
      → Option (Progress W)
      → ServingEngine W P × Outcome W
  unfolding result_of maybe_trigger_policy Dict.remove
  finish_generate e rid start now later error none = (e, raised "list index out of range")
  finish_generate e rid start now later (some error) (some progress) = (e, ended_by error)
  finish_generate e rid start now later none (some progress) =
      let popped = record e { in_flight = Dict.remove rid e.in_flight } in
      (maybe_trigger_policy run later popped, returned (result_of rid start now progress))

  abbrev pub as_outcome : ServingEngine W P × GenerationResult W → ServingEngine W P × Outcome W
  as_outcome (e, result) = (e, returned result)

  -- only the wait of `_mock_generate` can be ended early, by a cancellation
  abbrev pub mock_outcome :
      ServingEngine W P
      → Option Interruption
      → ServingEngine W P × GenerationResult W
      → ServingEngine W P × Outcome W
  mock_outcome e none answer = as_outcome answer
  mock_outcome e (some (exception message)) answer = as_outcome answer
  mock_outcome e (some cancellation) answer = (e, cancelled)

  -- from the stream to the end of `generate`; `now` and `later` are readings of the clock
  unfoldable pub leave_generate :
      Text
      → ServingEngine W P
      → String
      → String
      → W
      → List (W × RequestOutput)
      → Option Interruption
      → W
      → W
      → ServingEngine W P × Outcome W
  unfolding mock_generate take_outputs finish_generate
  leave_generate text e rid prompt start outputs error now later =
      if is_mock e
      then mock_outcome e error (mock_generate text e rid prompt start now)
      else finish_generate e rid start now later error (take_outputs start outputs no_progress)
