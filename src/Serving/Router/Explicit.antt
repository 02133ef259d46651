-- ===== src/Serving/Router/Explicit.antt =====
-- A caller that knows its workload is believed.
use multie_layer_kache.Prelude.{String, ◌≡◌, refl, Option, none, some, string_key}
use multie_layer_kache.Telemetry.Schema.{
  WorkloadType, single_doc_qa, multi_doc_qa, summarization, dialogue, code, structured_data,
  unknown, workload_value, workload_of_value,
}
use multie_layer_kache.Serving.Router.{Text, explicit_of, by_keywords, classify}

module _ (text : Text) (prompt : String) where
  explicit_workload_type :
      (w : WorkloadType) (task : Option String)
      → classify text prompt
          (some (record { workload_type = some (workload_value w); task = task }))
        ≡ w
  unfolding classify explicit_of workload_of_value workload_value
  explicit_workload_type single_doc_qa task = refl
  explicit_workload_type multi_doc_qa task = refl
  explicit_workload_type summarization task = refl
  explicit_workload_type dialogue task = refl
  explicit_workload_type code task = refl
  explicit_workload_type structured_data task = refl
  explicit_workload_type unknown task = refl

  explicit_task :
      (w : WorkloadType)
      → classify text prompt
          (some (record { workload_type = none; task = some (workload_value w) }))
        ≡ w
  unfolding classify explicit_of workload_of_value workload_value
  explicit_task single_doc_qa = refl
  explicit_task multi_doc_qa = refl
  explicit_task summarization = refl
  explicit_task dialogue = refl
  explicit_task code = refl
  explicit_task structured_data = refl
  explicit_task unknown = refl

  -- Whatever the prompt and the regular expressions say, metadata with the value of a workload type
  -- under "workload_type", or under "task" where "workload_type" is missing, classifies the request as
  -- that type; without metadata the first 2048 characters of the prompt decide.
  pub classify_explicit :
      (w : WorkloadType) (task : Option String)
      → (classify text prompt
            (some (record { workload_type = some (workload_value w); task = task }))
          ≡ w)
        × (classify text prompt
              (some (record { workload_type = none; task = some (workload_value w) }))
            ≡ w)
        × (classify text prompt none ≡ by_keywords text (text.prefix 2048 prompt))
  unfolding classify explicit_of
  classify_explicit w task = (explicit_workload_type w task, explicit_task w, refl)
