-- ===== src/Serving/Router.antt =====
-- src/serving/request_handler.py: `WorkloadRouter.classify`. Regular expressions and the splitting into
-- words are the standard library's and a parameter; the patterns are the source's.
pub mod Explicit
use multie_layer_kache.Prelude.{
  ℕ, String, Bool, true, false, Option, none, some, ◌==◌, string_key, if◌then◌else◌, ltb,
}
use multie_layer_kache.Telemetry.Schema.{
  WorkloadType, single_doc_qa, multi_doc_qa, summarization, dialogue, code, structured_data,
  unknown, workload_of_value,
}

-- `re.compile(pattern, re.IGNORECASE).search(text)`, `text[:n]` and `len(text.split())`
pub record Text : Type 0 where
  pub search : String → String → Bool
  pub prefix : ℕ → String → String
  pub word_count : String → ℕ

-- The keys of `task_metadata` that are read; a missing key is `none`.
pub record TaskMetadata : Type 0 where
  pub workload_type : Option String
  pub task : Option String

abbrev qa_patterns : String
qa_patterns =
    "\\b(answer the question|what is|who is|when did|where is|how many|based on the (passage|document|context)|according to)\\b"

abbrev multi_doc_patterns : String
multi_doc_patterns =
    "\\b(multiple (documents|sources|passages)|across (documents|sources)|compare|contrast|both documents|all (three|four|five) documents)\\b"

abbrev summarization_patterns : String
summarization_patterns =
    "\\b(summarize|summary|tldr|brief overview|key points|main ideas|in a few sentences|condense)\\b"

abbrev code_patterns : String
code_patterns =
    "(def |class |import |from \\w+ import|```python|```javascript|function |public static|#include|package main)"

abbrev dialogue_patterns : String
dialogue_patterns =
    "\\b(conversation|dialogue|chat|discussion|said|replied|user:|assistant:|human:|bot:)\\b"

abbrev structured_patterns : String
structured_patterns =
    "(\\|\\s*[-]+|^\\s*\\d+[\\.\\)]\\s|\\bcount\\b|\\blist\\b|\\btable\\b|\\bclassif|\\bcategor)"

-- what is left of an absent or empty string after `or`
abbrev pub non_empty : Option String → Option String
non_empty none = none
non_empty (some s) = if s == "" then none else some s

-- `task_metadata.get("workload_type") or task_metadata.get("task")`, if it is not empty
unfoldable pub explicit_of : Option TaskMetadata → Option String
explicit_of none = none
explicit_of (some m) = elim (non_empty m.workload_type) [
  | some s ↦ some s
  | none ↦ non_empty m.task
]

module _ (text : Text) where
  unfoldable pub by_keywords : String → WorkloadType
  by_keywords excerpt =
      if text.search code_patterns excerpt
      then code
      else if text.search multi_doc_patterns excerpt
      then multi_doc_qa
      else if text.search summarization_patterns excerpt
      then summarization
      else if text.search dialogue_patterns excerpt
      then dialogue
      else if text.search structured_patterns excerpt
      then structured_data
      else if text.search qa_patterns excerpt
      then single_doc_qa
      else if ltb 200 (text.word_count excerpt)
      then single_doc_qa
      else unknown

  -- an explicit value that names no workload falls through to the keywords
  unfoldable pub classify : String → Option TaskMetadata → WorkloadType
  unfolding explicit_of by_keywords workload_of_value
  classify prompt task_metadata = elim (explicit_of task_metadata) [
    | none ↦ by_keywords (text.prefix 2048 prompt)
    | some s ↦ elim (workload_of_value s) [
      | none ↦ by_keywords (text.prefix 2048 prompt)
      | some w ↦ w
    ]
  ]
