-- ===== src/Serving/Requests.antt =====
-- src/serving/request_handler.py: `RequestHandler`. Each coroutine changes the registry in one block
-- under the lock, without waiting inside it, so a call is one function from state to state. The
-- semaphore is created and never acquired, so it is no part of the state.
pub mod Lists
pub mod Calls
pub mod Lifecycle
pub mod Counts
use multie_layer_kache.Prelude.{
  ℕ, ◌+◌, String, Bool, true, false, not, Option, none, some, List, [], ◌∷◌, ◌++◌, map, ◌==◌,
  string_key, if◌then◌else◌, ltb, length, last_n, count_by, or_default,
}
use multie_layer_kache.Prelude.Dict
use multie_layer_kache.Prelude.Dict.{Dict}
use multie_layer_kache.Prelude.Floats.{Double, nought}
use multie_layer_kache.Telemetry.Schema.{WorkloadType, workload_value}
use multie_layer_kache.Serving.Router.{Text, TaskMetadata, classify, non_empty}

pub data RequestStatus : Type 0 where
  queued in_progress completed failed cancelled : RequestStatus

unfoldable pub status_value : RequestStatus → String
status_value queued = "queued"
status_value in_progress = "in_progress"
status_value completed = "completed"
status_value failed = "failed"
status_value cancelled = "cancelled"

abbrev pub is_in_progress : RequestStatus → Bool
is_in_progress in_progress = true
is_in_progress queued = false
is_in_progress completed = false
is_in_progress failed = false
is_in_progress cancelled = false

pub record RequestRecord (W : Type 0) : Type 0 where
  pub request_id : String
  pub prompt : String
  pub workload_type : WorkloadType
  pub submitted_at : W
  pub started_at : Option W
  pub completed_at : Option W
  pub status : RequestStatus
  pub error : Option String

pub record RequestHandler (W : Type 0) : Type 0 where
  pub max_concurrent : ℕ
  pub records : Dict String (RequestRecord W)
  pub archive : List (RequestRecord W)

-- the dictionary of `get_status` for a request that is found
pub record StatusSnapshot (W : Type 0) : Type 0 where
  pub request_id : String
  pub status : String
  pub workload_type : String
  pub queue_wait_ms : W
  pub latency_ms : W

-- `_max_completed`
abbrev pub max_completed : ℕ
max_completed = 10_000

-- `if error`
abbrev pub is_error : Option String → Bool
is_error none = false
is_error (some s) = not (s == "")

abbrev pub final_status : Option String → RequestStatus
final_status error = if is_error error then failed else completed

module _ {W : Type 0} where
  unfoldable pub init : ℕ → RequestHandler W
  init max_concurrent = record { max_concurrent = max_concurrent; records = []; archive = [] }

  abbrev pub fresh_record : String → String → WorkloadType → W → RequestRecord W
  fresh_record rid prompt wt now = record {
    request_id = rid;
    prompt = prompt;
    workload_type = wt;
    submitted_at = now;
    started_at = none;
    completed_at = none;
    status = queued;
    error = none;
  }

  -- `fresh` is the `uuid4` that a missing or empty id is replaced by
  unfoldable pub submit :
      Text
      → String
      → W
      → RequestHandler W
      → String
      → Option TaskMetadata
      → Option String
      → RequestHandler W × String
  unfolding classify Dict.put
  submit text fresh now h prompt task_metadata request_id =
      let rid = or_default (non_empty request_id) fresh in
      let wt = classify text prompt task_metadata in
      (record h { records = Dict.put rid (fresh_record rid prompt wt now) h.records }, rid)

  abbrev pub started : W → RequestRecord W → RequestRecord W
  started now rec = record rec { started_at = some now; status = in_progress }

  unfoldable pub mark_started : W → RequestHandler W → String → RequestHandler W
  unfolding Dict.modify
  mark_started now h request_id = record h {
    records = Dict.modify request_id (started now) h.records;
  }

  abbrev pub finished : W → Option String → RequestRecord W → RequestRecord W
  finished now error rec = record rec {
    completed_at = some now;
    status = final_status error;
    error = error;
  }

  -- `append`, and the cut to the last `_max_completed`
  unfoldable pub archived : RequestRecord W → List (RequestRecord W) → List (RequestRecord W)
  unfolding last_n
  archived rec records =
      let longer = records ++ rec ∷ [] in
      if ltb max_completed (length longer) then last_n max_completed longer else longer

  unfoldable pub mark_completed :
      W → RequestHandler W → String → Option String → RequestHandler W × Option (RequestRecord W)
  unfolding Dict.get Dict.remove archived
  mark_completed now h request_id error = elim (Dict.get request_id h.records) [
    | none ↦ (h, none)
    | some rec ↦
        let rec' = finished now error rec in
        (
          record h {
            records = Dict.remove request_id h.records;
            archive = archived rec' h.archive;
          },
          some rec',
        )
  ]

  -- the first from the end with an id
  unfoldable pub last_with : String → List (RequestRecord W) → Option (RequestRecord W)
  last_with request_id [] = none
  last_with request_id (r ∷ rs) = elim (last_with request_id rs) [
    | some x ↦ some x
    | none ↦ if r.request_id == request_id then some r else none
  ]

  -- the record that `get_status` reports on
  unfoldable pub lookup : RequestHandler W → String → Option (RequestRecord W)
  unfolding Dict.get last_with
  lookup h request_id = elim (Dict.get request_id h.records) [
    | some rec ↦ some rec
    | none ↦ last_with request_id h.archive
  ]

  unfoldable pub get_queue_depth : RequestHandler W → ℕ
  get_queue_depth h = length h.records

  unfoldable pub get_active_count : RequestHandler W → ℕ
  get_active_count h =
      count_by (λ r. is_in_progress (RequestRecord.status r)) (Dict.values h.records)

  unfoldable pub get_recent_completed : RequestHandler W → ℕ → List (RequestRecord W)
  unfolding last_n
  get_recent_completed h n = last_n n h.archive

  -- `counts[key] = counts.get(key, 0) + 1` over the records
  unfoldable pub count_workloads : List (RequestRecord W) → Dict String ℕ → Dict String ℕ
  unfolding Dict.get Dict.put workload_value
  count_workloads [] counts = counts
  count_workloads (r ∷ rs) counts =
      let key = workload_value r.workload_type in
      count_workloads rs (Dict.put key (or_default (Dict.get key counts) 0 + 1) counts)

  unfoldable pub get_workload_distribution : RequestHandler W → Dict String ℕ
  unfolding count_workloads
  get_workload_distribution h = count_workloads (Dict.values h.records) []

module _ {W : Type 0} ⦃d : Double W⦄ where
  -- `(end - start) * 1000`
  abbrev pub elapsed_ms : W → W → W
  elapsed_ms end start = d.mul (d.sub end start) (d.of_int 1000)

  -- `now` is read only for a request that has not started
  unfoldable pub queue_wait_ms : W → RequestRecord W → W
  queue_wait_ms now rec = elapsed_ms (or_default rec.started_at now) rec.submitted_at

  abbrev pub latency_between : Option W → Option W → W
  latency_between (some end) (some start) = elapsed_ms end start
  latency_between (some end) none = nought
  latency_between none start = nought

  unfoldable pub latency_ms : RequestRecord W → W
  latency_ms rec = latency_between rec.completed_at rec.started_at

  -- `round_2` is `round(x, 2)`; `none` is the dictionary for a request that is not found
  unfoldable pub get_status : (W → W) → W → RequestHandler W → String → Option (StatusSnapshot W)
  unfolding lookup queue_wait_ms latency_ms status_value workload_value
  get_status round_2 now h request_id = elim (lookup h request_id) [
    | none ↦ none
    | some rec ↦ some (record {
      request_id = rec.request_id;
      status = status_value rec.status;
      workload_type = workload_value rec.workload_type;
      queue_wait_ms = round_2 (queue_wait_ms now rec);
      latency_ms = round_2 (latency_ms rec);
    })
  ]
