-- ===== src/Telemetry/Storage/Appending.antt =====
-- What a write of `TelemetryStorage` does to the stored rows, whether it returns or raises.
use mathlib.Core.List.{append-nil}
use multie_layer_kache.Prelude.{
  String, ◌≡◌, ◌∙◌, refl, sym, ap, false, Option, none, some, List, [], ◌∷◌, ◌++◌, map, inl, inr,
  Bool-cases, subst, ◌⊎◌, ◌==◌, string_key,
}
use multie_layer_kache.Telemetry.Schema.{TelemetryRecord}
use multie_layer_kache.Telemetry.Collector.{WriteEnd, wrote, write_failed, Storage}
use multie_layer_kache.Telemetry.Storage.{
  Backend, memory, parquet, Arrow, TelemetryStorage, telemetry_schema, combined, append_file,
  append_rows, with_files, write_rows, write_batch,
}

-- A row as the columns of `telemetry_schema` hold it: the float32 columns round.
abbrev pub in_schema : {W : Type 0} → (W → W) → TelemetryRecord W → TelemetryRecord W
in_schema single r = record r {
  gpu_mem_used_mb = single r.gpu_mem_used_mb;
  gpu_mem_free_mb = single r.gpu_mem_free_mb;
  cpu_mem_used_mb = single r.cpu_mem_used_mb;
  avg_attention_score = single r.avg_attention_score;
  max_attention_score = single r.max_attention_score;
  latency_ms = single r.latency_ms;
  ttft_ms = single r.ttft_ms;
  tpot_ms = single r.tpot_ms;
  task_score = single r.task_score;
}

-- What pyarrow and the files do with the rows of a table; `single` is the rounding to float32.
pub record IsFaithful {W Rows Files : Type 0} (a : Arrow W Rows Files) (single : W → W)
    : Type 0 where
  pub rows_of : Rows → List (TelemetryRecord W)
  pub contents : String → Files → List (TelemetryRecord W)
  pub from_rows :
      (rs : List (TelemetryRecord W)) (table : Rows)
      → a.from_pylist telemetry_schema rs ≡ some table
      → rows_of table ≡ map (in_schema single) rs
  pub concat_rows : (x y : Rows) → rows_of (a.concat_tables x y) ≡ rows_of x ++ rows_of y
  pub missing : (path : String) (f : Files) → a.file_exists path f ≡ false → contents path f ≡ []
  pub read_rows :
      (path : String) (f : Files) (table : Rows)
      → a.read_table path f ≡ some table
      → rows_of table ≡ contents path f
  pub written_rows :
      (table : Rows) (path : String) (f f' : Files)
      → a.write_table table path f ≡ wrote f'
      → contents path f' ≡ rows_of table
  -- a write touches its own file only
  pub others_written :
      (table : Rows) (path other : String) (f f' : Files)
      → a.write_table table path f ≡ wrote f'
      → (other == path) ≡ false
      → contents other f' ≡ contents other f
  pub others_failed :
      (table : Rows) (path other : String) (f f' : Files)
      → a.write_table table path f ≡ write_failed f'
      → (other == path) ≡ false
      → contents other f' ≡ contents other f

module _ {W Rows Files : Type 0} (a : Arrow W Rows Files) (single : W → W)
    (law : IsFaithful a single) where
  -- `rs` is behind what the file held, or nothing has changed but by a `write_table` that raised; the
  -- file `other` is as it was
  abbrev FileAfter : List (TelemetryRecord W) → String → String → Files → WriteEnd Files → Type 0
  FileAfter rs path other f (wrote f') =
      (law.contents path f' ≡ law.contents path f ++ rs)
      × (law.contents other f' ≡ law.contents other f)
  FileAfter rs path other f (write_failed f') =
      ((f' ≡ f) ⊎ ((table : Rows) × (a.write_table table path f ≡ write_failed f')))
      × (law.contents other f' ≡ law.contents other f)

  write_table-FileAfter :
      (table : Rows) (rs : List (TelemetryRecord W)) (path other : String) (f : Files)
      (o : WriteEnd Files)
      → a.write_table table path f ≡ o
      → law.rows_of table ≡ law.contents path f ++ rs
      → (other == path) ≡ false
      → FileAfter rs path other f o
  write_table-FileAfter table rs path other f (wrote f') e same apart =
      (law.written_rows table path f f' e ∙ same, law.others_written table path other f f' e apart)
  write_table-FileAfter table rs path other f (write_failed f') e same apart =
      (inr (table, e), law.others_failed table path other f f' e apart)

  combined-FileAfter :
      (read : Option Rows) (table : Rows) (path other : String) (f : Files)
      → a.read_table path f ≡ read
      → (other == path) ≡ false
      → FileAfter (law.rows_of table) path other f (combined a read table path f)
  combined-FileAfter none table path other f e apart = (inl refl, refl)
  combined-FileAfter (some existing) table path other f e apart =
      write_table-FileAfter (a.concat_tables existing table) (law.rows_of table) path other f _ refl
        (law.concat_rows existing table
          ∙ ap (λ l. l ++ law.rows_of table) (law.read_rows path f existing e))
        apart

  append_file-FileAfter :
      (table : Rows) (path other : String) (f : Files)
      → (other == path) ≡ false
      → FileAfter (law.rows_of table) path other f (append_file a table path f)
  unfolding append_file
  append_file-FileAfter table path other f apart = elim (Bool-cases (a.file_exists path f)) [
    | inl there ↦ rw there (combined-FileAfter (a.read_table path f) table path other f refl apart)
    | inr absent ↦ rw absent (
        write_table-FileAfter table (law.rows_of table) path other f _ refl
          (ap (λ l. l ++ law.rows_of table) (sym (law.missing path f absent))) apart)
  ]

  append_rows-FileAfter :
      (made : Option Rows) (rs : List (TelemetryRecord W)) (path other : String) (f : Files)
      → a.from_pylist telemetry_schema rs ≡ made
      → (other == path) ≡ false
      → FileAfter (map (in_schema single) rs) path other f (append_rows a made path f)
  append_rows-FileAfter none rs path other f e apart = (inl refl, refl)
  append_rows-FileAfter (some table) rs path other f e apart =
      subst (λ l. FileAfter l path other f (append_file a table path f)) (law.from_rows rs table e)
        (append_file-FileAfter table path other f apart)

  -- what is stored: the list, or the file of the day
  abbrev pub stored_in : String → TelemetryStorage W Files → Backend → List (TelemetryRecord W)
  stored_in today s memory = s.records
  stored_in today s parquet = law.contents (a.path_of s.output_dir today) s.files

  -- a batch as a backend stores it: parquet by its schema
  abbrev pub batch_in : Backend → List (TelemetryRecord W) → List (TelemetryRecord W)
  batch_in memory rs = rs
  batch_in parquet rs = map (in_schema single) rs

  -- What a write leaves. Where it returns, the batch is behind what was stored. Where it raises, all is as
  -- it was, or the backend is parquet and `write_table` has raised on today's file. The file `other` is
  -- as it was.
  abbrev pub After :
      String
      → String
      → List (TelemetryRecord W)
      → TelemetryStorage W Files
      → WriteEnd (TelemetryStorage W Files)
      → Type 0
  After today other rs s (wrote s') =
      (s'.backend ≡ s.backend)
      × (stored_in today s' s.backend ≡ stored_in today s s.backend ++ batch_in s.backend rs)
      × (law.contents other s'.files ≡ law.contents other s.files)
  After today other rs s (write_failed s') =
      ((s' ≡ s)
        ⊎ ((s.backend ≡ parquet)
            × ((table : Rows) × (a.write_table table (a.path_of s.output_dir today) s.files
                  ≡ write_failed s'.files))))
      × (s'.records ≡ s.records)
      × (law.contents other s'.files ≡ law.contents other s.files)

  with_files-After :
      (today other : String) (rs : List (TelemetryRecord W)) (s : TelemetryStorage W Files)
      (o : WriteEnd Files)
      → s.backend ≡ parquet
      → FileAfter (map (in_schema single) rs) (a.path_of s.output_dir today) other s.files o
      → After today other rs s (with_files a s o)
  with_files-After today other rs s (wrote f) on_disk (put, rest) = (refl, rw on_disk put, rest)
  with_files-After today other rs s (write_failed f) on_disk (inl same, rest) =
      (inl (ap (λ z. record s { files = z }) same), refl, rest)
  with_files-After today other rs s (write_failed f) on_disk (inr (table, e), rest) =
      (inr (on_disk, (table, e)), refl, rest)

  write_rows-After :
      (b : Backend) (today other : String) (rs : List (TelemetryRecord W))
      (s : TelemetryStorage W Files)
      → s.backend ≡ b
      → (other == a.path_of s.output_dir today) ≡ false
      → After today other rs s (write_rows a b today rs s)
  unfolding write_rows
  write_rows-After memory today other rs s e apart = (refl, rw e refl, refl)
  write_rows-After parquet today other rs s e apart =
      with_files-After today other rs s _ e
        (append_rows-FileAfter _ rs (a.path_of s.output_dir today) other s.files refl apart)

  -- Over tables and files that keep their rows as the schema has them: a write that returns puts the batch
  -- behind what was stored, in memory as it is and in today's file with the float32 columns rounded. A
  -- write that raises changes nothing, unless it is `write_table` of the parquet backend that raises on
  -- today's file. The rows of every other file stay as they were.
  pub write_batch_lem :
      (today other : String) (rs : List (TelemetryRecord W)) (s : TelemetryStorage W Files)
      → (other == a.path_of s.output_dir today) ≡ false
      → After today other rs s (write_batch a today rs s)
  unfolding write_batch
  write_batch_lem today other [] s apart = (refl, sym (nothing s.backend), refl)
    where
      nothing : (b : Backend) → stored_in today s b ++ batch_in b [] ≡ stored_in today s b
      nothing memory = append-nil s.records
      nothing parquet = append-nil (law.contents (a.path_of s.output_dir today) s.files)
  write_batch_lem today other (r ∷ rs) s apart =
      write_rows-After s.backend today other (r ∷ rs) s refl apart

-- the storage as the collector calls it on one day
unfoldable pub storage_of :
    {W Rows Files : Type 0} → Arrow W Rows Files → String → Storage W (TelemetryStorage W Files)
unfolding write_batch
storage_of a today = record { write_batch = write_batch a today }
