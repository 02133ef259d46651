-- ===== src/Features/Workload/Precedence.antt =====
-- Which of the sources of a class comes first.
use multie_layer_kache.Prelude.{String, Bool, ◌≡◌, ◌∙◌, ap, refl, Option, none, some, or_default}
use multie_layer_kache.Telemetry.Schema.{WorkloadType, workload_of_value}
use multie_layer_kache.Serving.Router.{Text}
use multie_layer_kache.Features.Workload.{
  PromptMetadata, explicit_value, by_patterns, predicted_type, resolve, classify_from_prompt,
}

module _ (text : Text) (exact : String → String → Bool) where
  -- A class that the metadata name is the answer, whatever a trained model says; without metadata the
  -- answer is the class that the model predicts, where it predicts one, and else that of the patterns.
  pub classify_from_prompt_lem :
      (model : Option (String → Option String)) (prompt : String) (m : PromptMetadata) (s : String)
      (w : WorkloadType)
      → explicit_value (some m) ≡ some s
      → workload_of_value s ≡ some w
      → (classify_from_prompt text exact model prompt (some m) ≡ w)
        × (classify_from_prompt text exact model prompt none
            ≡ or_default
                (predicted_type text exact model (text.prefix 2048 prompt))
                (by_patterns text exact (text.prefix 2048 prompt)))
  unfolding classify_from_prompt
  classify_from_prompt_lem model prompt m s w named valid =
      let excerpt = text.prefix 2048 prompt in
      let otherwise =
        or_default (predicted_type text exact model excerpt) (by_patterns text exact excerpt) in
      (ap (λ e. resolve e otherwise) named ∙ ap (λ o. or_default o otherwise) valid, refl)
