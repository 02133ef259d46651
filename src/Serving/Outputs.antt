-- ===== src/Serving/Outputs.antt =====
-- src/serving/vllm_engine.py: what `generate` makes of the outputs of vLLM's stream. vLLM is not part of
-- this repository; the outputs are an argument, each with the clock when it arrives.
use multie_layer_kache.Prelude.{
  ℕ, String, Bool, true, false, ◌&&◌, Option, none, some, List, [], ◌∷◌, if◌then◌else◌, ltb, length,
  max, or_default,
}
use multie_layer_kache.Prelude.Floats.{Double, nought, one, fmax}
use multie_layer_kache.Serving.Router.{non_empty}
use multie_layer_kache.Serving.Requests.{elapsed_ms}

pub record GenerationResult (W : Type 0) : Type 0 where
  pub request_id : String
  pub text : String
  pub prompt_tokens : ℕ
  pub generated_tokens : ℕ
  pub ttft_ms : W
  pub tpot_ms : W
  pub total_latency_ms : W
  pub finish_reason : String

-- The fields of vLLM's outputs that are read; an absent list is `none`.
pub record CompletionOutput : Type 0 where
  pub text : String
  pub finish_reason : Option String
  pub token_ids : Option (List ℕ)

pub record RequestOutput : Type 0 where
  pub outputs : List CompletionOutput
  pub finished : Bool
  pub prompt_token_ids : Option (List ℕ)

-- what ends a stream early: an `Exception` with its text, or `CancelledError`, which is none
pub data Interruption : Type 0 where
  exception : String → Interruption
  cancellation : Interruption

-- what the coroutine ends with
pub data Outcome (W : Type 0) : Type 0 where
  returned : GenerationResult W → Outcome W
  raised : String → Outcome W
  cancelled : Outcome W

abbrev pub ended_by : {W : Type 0} → Interruption → Outcome W
ended_by (exception message) = raised message
ended_by cancellation = cancelled

-- the local variables of the loop over the stream
pub record Progress (W : Type 0) : Type 0 where
  pub ttft_ms : W
  pub output_text : String
  pub finish_reason : String
  pub prompt_tokens : ℕ
  pub generated_tokens : ℕ

abbrev size_of : Option (List ℕ) → ℕ
size_of ids = length (or_default ids [])

abbrev is_listed : List CompletionOutput → Bool
is_listed [] = false
is_listed (best ∷ others) = true

module _ {W : Type 0} ⦃d : Double W⦄ where
  abbrev pub no_progress : Progress W
  no_progress = record {
    ttft_ms = d.neg one;
    output_text = "";
    finish_reason = "stop";
    prompt_tokens = 0;
    generated_tokens = 0;
  }

  -- `output.outputs[0]`, of which a finished output must have one
  abbrev pub take_best : RequestOutput → List CompletionOutput → Progress W → Option (Progress W)
  take_best out [] progress = none
  take_best out (best ∷ others) progress = some (record progress {
    output_text = best.text;
    finish_reason = or_default (non_empty best.finish_reason) "stop";
    prompt_tokens = size_of out.prompt_token_ids;
    generated_tokens = size_of best.token_ids;
  })

  -- the body of the loop for an output that arrives at `now`
  unfoldable pub take_output : W → W × RequestOutput → Progress W → Option (Progress W)
  take_output start (now, out) progress =
      let first = d.lt progress.ttft_ms nought && is_listed out.outputs in
      let timed = if first then record progress { ttft_ms = elapsed_ms now start } else progress in
      if out.finished then take_best out out.outputs timed else some timed

  unfoldable pub take_outputs : W → List (W × RequestOutput) → Progress W → Option (Progress W)
  unfolding take_output
  take_outputs start [] progress = some progress
  take_outputs start (o ∷ outputs) progress = elim (take_output start o progress) [
    | none ↦ none
    | some next ↦ take_outputs start outputs next
  ]

  unfoldable pub result_of : String → W → W → Progress W → GenerationResult W
  result_of rid start now progress =
      let total_ms = elapsed_ms now start in
      let generated = progress.generated_tokens in
      record {
        request_id = rid;
        text = progress.output_text;
        prompt_tokens = progress.prompt_tokens;
        generated_tokens = generated;
        ttft_ms = fmax progress.ttft_ms nought;
        tpot_ms =
            if ltb 0 generated
            then d.div (d.sub total_ms progress.ttft_ms) (d.of_int (max generated 1))
            else nought;
        total_latency_ms = total_ms;
        finish_reason = progress.finish_reason;
      }
