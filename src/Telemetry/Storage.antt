-- ===== src/Telemetry/Storage.antt =====
-- src/telemetry/storage.py: `TelemetryStorage`. The files and pyarrow are a parameter: how a table is
-- made, read and written, and when that raises; a write that raises may have changed the file.
pub mod Appending
pub mod Reading
use multie_layer_kache.Prelude.{
  String, Bool, Option, none, some, List, [], ◌∷◌, ◌++◌, ◌==◌, string_key, if◌then◌else◌,
}
use multie_layer_kache.Telemetry.Schema.{TelemetryRecord}
use multie_layer_kache.Telemetry.Collector.{WriteEnd, wrote, write_failed}

pub data Backend : Type 0 where
  parquet memory : Backend

-- the types of pyarrow that the schema uses
pub data ColumnType : Type 0 where
  string_column float64_column float32_column int32_column int16_column bool_column : ColumnType

-- `TELEMETRY_SCHEMA`
abbrev pub telemetry_schema : List (String × ColumnType)
telemetry_schema =
    ("request_id", string_column)
    ∷ ("timestamp", float64_column)
    ∷ ("workload_type", string_column)
    ∷ ("model_name", string_column)
    ∷ ("prompt_tokens", int32_column)
    ∷ ("generated_tokens", int32_column)
    ∷ ("context_length", int32_column)
    ∷ ("queue_depth", int32_column)
    ∷ ("gpu_mem_used_mb", float32_column)
    ∷ ("gpu_mem_free_mb", float32_column)
    ∷ ("cpu_mem_used_mb", float32_column)
    ∷ ("block_id", int32_column)
    ∷ ("layer_id", int16_column)
    ∷ ("head_group", int16_column)
    ∷ ("block_age_steps", int32_column)
    ∷ ("last_access_step", int32_column)
    ∷ ("access_count", int32_column)
    ∷ ("avg_attention_score", float32_column)
    ∷ ("max_attention_score", float32_column)
    ∷ ("prefix_reuse_flag", bool_column)
    ∷ ("quantized_flag", bool_column)
    ∷ ("offloaded_flag", bool_column)
    ∷ ("evicted_flag", bool_column)
    ∷ ("decision_label", string_column)
    ∷ ("latency_ms", float32_column)
    ∷ ("ttft_ms", float32_column)
    ∷ ("tpot_ms", float32_column)
    ∷ ("task_score", float32_column)
    ∷ []

-- `Rows` is a pyarrow table, `Files` the state of the directory. `from_pylist` raises where a number
-- does not fit the integer type of its column.
pub record Arrow (W Rows Files : Type 0) : Type 0 where
  pub from_pylist : List (String × ColumnType) → List (TelemetryRecord W) → Option Rows
  pub concat_tables : Rows → Rows → Rows
  pub file_exists : String → Files → Bool
  pub read_table : String → Files → Option Rows
  pub write_table : Rows → String → Files → WriteEnd Files
  -- the path of the file of the current day
  pub path_of : String → String → String

pub record TelemetryStorage (W Files : Type 0) : Type 0 where
  pub backend : Backend
  pub output_dir : String
  pub records : List (TelemetryRecord W)
  pub files : Files

module _ {W Files : Type 0} where
  -- `none` is the `ValueError` for an unknown backend
  unfoldable pub init : String → String → Files → Option (TelemetryStorage W Files)
  init backend output_dir files =
      if backend == "memory"
      then some (record { backend = memory; output_dir = output_dir; records = []; files = files })
      else if backend == "parquet"
      then some (record { backend = parquet; output_dir = output_dir; records = []; files = files })
      else none

module _ {W Rows Files : Type 0} (a : Arrow W Rows Files) where
  -- the file with the new table behind what was read
  abbrev pub combined : Option Rows → Rows → String → Files → WriteEnd Files
  combined none table path files = write_failed files
  combined (some existing) table path files =
      a.write_table (a.concat_tables existing table) path files

  -- the file with the new table behind what it held
  unfoldable pub append_file : Rows → String → Files → WriteEnd Files
  append_file table path files =
      if a.file_exists path files
      then combined (a.read_table path files) table path files
      else a.write_table table path files

  abbrev pub append_rows : Option Rows → String → Files → WriteEnd Files
  append_rows none path files = write_failed files
  append_rows (some table) path files = append_file table path files

  abbrev pub with_files :
      TelemetryStorage W Files → WriteEnd Files → WriteEnd (TelemetryStorage W Files)
  with_files s (wrote files) = wrote (record s { files = files })
  with_files s (write_failed files) = write_failed (record s { files = files })

  -- `today` is the UTC date
  unfoldable pub write_rows :
      Backend
      → String
      → List (TelemetryRecord W)
      → TelemetryStorage W Files
      → WriteEnd (TelemetryStorage W Files)
  unfolding append_file
  write_rows memory today rs s = wrote (record s { records = s.records ++ rs })
  write_rows parquet today rs s =
      with_files s
        (append_rows (a.from_pylist telemetry_schema rs) (a.path_of s.output_dir today) s.files)

  unfoldable pub write_batch :
      String
      → List (TelemetryRecord W)
      → TelemetryStorage W Files
      → WriteEnd (TelemetryStorage W Files)
  unfolding write_rows
  write_batch today [] s = wrote s
  write_batch today (r ∷ rs) s = write_rows s.backend today (r ∷ rs) s
