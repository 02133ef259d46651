-- ===== src/Features/Workload.antt =====
-- src/feature_engineering/workload_classifier.py: `WorkloadClassifier`. The trained model, which scikit-learn
-- makes, is a parameter, as are regular expressions; the patterns are the source's.
pub mod Precedence
use multie_layer_kache.Prelude.{
  ℕ, String, Bool, true, false, ◌&&◌, Option, none, some, if◌then◌else◌, ltb, or_default,
}
use multie_layer_kache.Telemetry.Schema.{
  WorkloadType, single_doc_qa, multi_doc_qa, summarization, dialogue, code, structured_data,
  unknown, workload_of_value,
}
use multie_layer_kache.Serving.Router.{Text, non_empty}

-- the keys of `task_metadata` that this classifier reads
pub record PromptMetadata : Type 0 where
  pub workload_type : Option String
  pub task_type : Option String

-- the keys of `metrics`; a missing key is `none`
pub record TokenMetrics : Type 0 where
  pub prompt_tokens : Option ℕ
  pub generated_tokens : Option ℕ
  pub prefix_reuse_flag : Option Bool

abbrev qa_pattern : String
qa_pattern =
    "\\b(answer|what is|who is|when did|where|how many|based on|according to|the question is|please answer)\\b"

abbrev multi_doc_pattern : String
multi_doc_pattern =
    "\\b(multiple (documents|sources|passages|texts)|compare|contrast|across documents|all (three|four|five) (documents|passages))\\b"

abbrev summary_pattern : String
summary_pattern =
    "\\b(summarize|summary|summarise|tldr|tl;dr|key points|brief overview|main ideas|condense|in a few sentences)\\b"

abbrev code_pattern : String
code_pattern =
    "(def |class |import |from \\w+ import |```(python|javascript|java|go|cpp|c\\+\\+|rust|ruby|ts)|function |public static|#include|package main|\\bpip\\b)"

abbrev dialogue_pattern : String
dialogue_pattern =
    "\\b(conversation|dialogue|chat history|user:|assistant:|human:|bot:|said|replied|asked)\\b"

abbrev structured_pattern : String
structured_pattern =
    "(\\|\\s*[-]+|\\bcount\\b|\\bclassif|\\bcategor|\\blist (all|the)|tabular|\\brank\\b|\\border\\b.*\\bby\\b)"

-- `task_metadata.get("workload_type") or task_metadata.get("task_type")`, if it is not empty
unfoldable pub explicit_value : Option PromptMetadata → Option String
explicit_value none = none
explicit_value (some m) = elim (non_empty m.workload_type) [
  | some s ↦ some s
  | none ↦ non_empty m.task_type
]

-- the member with an explicit value, and another class where there is none
abbrev pub resolve : Option String → WorkloadType → WorkloadType
resolve none otherwise = otherwise
resolve (some s) otherwise = or_default (workload_of_value s) otherwise

-- `text` searches without regard to case, and `exact` with it
module _ (text : Text) (exact : String → String → Bool) where
  unfoldable pub by_patterns : String → WorkloadType
  by_patterns excerpt =
      if exact code_pattern excerpt
      then code
      else if text.search multi_doc_pattern excerpt
      then multi_doc_qa
      else if text.search summary_pattern excerpt
      then summarization
      else if text.search dialogue_pattern excerpt
      then dialogue
      else if text.search structured_pattern excerpt
      then structured_data
      else if text.search qa_pattern excerpt
      then single_doc_qa
      else if ltb 150 (text.word_count excerpt)
      then single_doc_qa
      else unknown

  -- the label of the model, where there is a model, it does not raise and the label is a member
  unfoldable pub predicted_type : Option (String → Option String) → String → Option WorkloadType
  unfolding workload_of_value
  predicted_type none excerpt = none
  predicted_type (some predict) excerpt = elim (predict excerpt) [
    | none ↦ none
    | some label ↦ workload_of_value label
  ]

  unfoldable pub classify_from_prompt :
      Option (String → Option String) → String → Option PromptMetadata → WorkloadType
  unfolding explicit_value predicted_type by_patterns workload_of_value
  classify_from_prompt model prompt task_metadata =
      let excerpt = text.prefix 2048 prompt in
      let otherwise = or_default (predicted_type model excerpt) (by_patterns excerpt) in
      resolve (explicit_value task_metadata) otherwise

unfoldable pub classify_from_metrics : TokenMetrics → WorkloadType
classify_from_metrics m =
    let prompt_tokens = or_default m.prompt_tokens 0 in
    let gen_tokens = or_default m.generated_tokens 0 in
    if or_default m.prefix_reuse_flag false && ltb 4000 prompt_tokens
    then code
    else if ltb 500 gen_tokens && ltb 2000 prompt_tokens
    then summarization
    else if ltb 8000 prompt_tokens
    then multi_doc_qa
    else if ltb gen_tokens 50 && ltb 500 prompt_tokens
    then single_doc_qa
    else unknown
