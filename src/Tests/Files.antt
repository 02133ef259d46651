-- ===== src/Tests/Files.antt =====
-- The theorem on the storage over files that are a dictionary of lists of rows.
use multie_layer_kache.Prelude.{
  String, ◌≡◌, ◌∙◌, refl, sym, ap, Bool, true, false, Option, none, some, List, [], ◌++◌, arith,
  ◌==◌, string_key, or_default, equal_self, if_true, if_false, ◌+◌, map, ltb, length, ◌∷◌,
}
use multie_layer_kache.Prelude.Dict
use multie_layer_kache.Prelude.Dict.{Dict, get-put, get-remove}
use multie_layer_kache.Prelude.Fixed.{Fixed, pos, fixed_double}
use multie_layer_kache.Telemetry.Schema.{TelemetryRecord}
use multie_layer_kache.Telemetry.Schema.{keep_gpu, quantize}
use multie_layer_kache.Telemetry.Collector.{Collector, WriteEnd, wrote, write_failed, no_context}
use multie_layer_kache.Telemetry.Collector.Conservation.{
  Event, block, flush, handle_all, handle_all_conserves, recording, rows,
}
use multie_layer_kache.Telemetry.Storage.{Arrow, TelemetryStorage, parquet, write_batch}
use multie_layer_kache.Telemetry.Storage.Appending.{
  IsFaithful, in_schema, After, write_batch_lem, storage_of,
}
use multie_layer_kache.Tests.{first_block, second_block, third_block}

abbrev Rows : Type 0
Rows = List (TelemetryRecord Fixed)

abbrev is_there : Option Rows → Bool
is_there none = false
is_there (some rows) = true

-- numbers rounded to whole ones
abbrev whole : Fixed → Fixed
whole x = fixed_double.of_int (fixed_double.trunc x)

-- a table that is too large fails to be written, and the file is lost
abbrev stored_or_lost : Bool → Rows → String → Dict String Rows → WriteEnd (Dict String Rows)
stored_or_lost true table path f = write_failed (Dict.remove path f)
stored_or_lost false table path f = wrote (Dict.put path table f)

abbrev arrow : Arrow Fixed Rows (Dict String Rows)
arrow = record {
  from_pylist = λ schema rs. some (map (in_schema whole) rs);
  concat_tables = λ x y. x ++ y;
  file_exists = λ path f. is_there (Dict.get path f);
  read_table = λ path f. Dict.get path f;
  write_table = λ table path f. stored_or_lost (ltb 2 (length table)) table path f;
  path_of = λ dir day. day;
}

apart_sym : (s t : String) → (t == s) ≡ false → (s == t) ≡ false
apart_sym s t h = ground (arith, h, string_key.equal_iff s t, string_key.equal_iff t s)

missing_rows : (o : Option Rows) → is_there o ≡ false → or_default o [] ≡ []
missing_rows none h = refl
missing_rows (some rows) h = absurd (ground arith)

read_back : (o : Option Rows) (table : Rows) → o ≡ some table → table ≡ or_default o []
read_back none table h = absurd (ground arith)
read_back (some rows) table h = ground (arith, h)

made_rows :
    (rs table : Rows)
    → some (map (in_schema whole) rs) ≡ some table
    → table ≡ map (in_schema whole) rs
made_rows rs table h = sym (ground (arith, h))

put_there :
    (large : Bool) (table : Rows) (path : String) (f f' : Dict String Rows)
    → stored_or_lost large table path f ≡ wrote f'
    → or_default (Dict.get path f') [] ≡ table
put_there true table path f f' h = absurd (ground (arith, h))
put_there false table path f f' h =
    let same : Dict.put path table f ≡ f' = ground (arith, h) in
    ap (λ z. or_default (Dict.get path z) []) (sym same)
    ∙ ap (λ o. or_default o [])
        (get-put path path table f ∙ if_true (path == path) _ _ (equal_self path))

others_put :
    (large : Bool) (table : Rows) (path other : String) (f f' : Dict String Rows)
    → stored_or_lost large table path f ≡ wrote f'
    → (other == path) ≡ false
    → or_default (Dict.get other f') [] ≡ or_default (Dict.get other f) []
others_put true table path other f f' h apart = absurd (ground (arith, h))
others_put false table path other f f' h apart =
    let same : Dict.put path table f ≡ f' = ground (arith, h) in
    ap (λ z. or_default (Dict.get other z) []) (sym same)
    ∙ ap (λ o. or_default o [])
        (get-put path other table f ∙ if_false (path == other) _ _ (apart_sym path other apart))

others_lost :
    (large : Bool) (table : Rows) (path other : String) (f f' : Dict String Rows)
    → stored_or_lost large table path f ≡ write_failed f'
    → (other == path) ≡ false
    → or_default (Dict.get other f') [] ≡ or_default (Dict.get other f) []
others_lost false table path other f f' h apart = absurd (ground (arith, h))
others_lost true table path other f f' h apart =
    let same : Dict.remove path f ≡ f' = ground (arith, h) in
    ap (λ z. or_default (Dict.get other z) []) (sym same)
    ∙ ap (λ o. or_default o [])
        (get-remove path other f ∙ if_false (path == other) _ _ (apart_sym path other apart))

abbrev arrow-IsFaithful : IsFaithful arrow whole
arrow-IsFaithful = record {
  rows_of = λ rows. rows;
  contents = λ path f. or_default (Dict.get path f) [];
  from_rows = made_rows;
  concat_rows = λ x y. refl;
  missing = λ path f h. missing_rows (Dict.get path f) h;
  read_rows = λ path f table h. read_back (Dict.get path f) table h;
  written_rows = λ table path f f' h. put_there (ltb 2 (length table)) table path f f' h;
  others_written = λ table path other f f' h apart.
      others_put (ltb 2 (length table)) table path other f f' h apart;
  others_failed = λ table path other f f' h apart.
      others_lost (ltb 2 (length table)) table path other f f' h apart;
}

abbrev events : List (Event Fixed)
events =
    block (pos 1) first_block keep_gpu no_context
    ∷ block (pos 2) second_block quantize no_context
    ∷ block (pos 3) third_block keep_gpu no_context
    ∷ flush
    ∷ []

abbrev traces : TelemetryStorage Fixed (Dict String Rows)
traces = record { backend = parquet; output_dir = "traces"; records = []; files = [] }

write_batch_lem_example :
    After arrow whole arrow-IsFaithful "2024-01-02" "2024-01-01"
      (rows "m" events)
      traces
      (write_batch arrow "2024-01-02" (rows "m" events) traces)
write_batch_lem_example =
    write_batch_lem arrow whole arrow-IsFaithful "2024-01-02" "2024-01-01" (rows "m" events) traces
      refl

-- the second write fails
abbrev filing :
    Collector Fixed (TelemetryStorage Fixed (Dict String Rows) × List (TelemetryRecord Fixed))
filing = record {
  enabled = true;
  model_name = "m";
  max_buffer_size = 2;
  buffer = [];
  storage = (traces, []);
  request_cache = [];
  total_records = 0;
  total_flushes = 0;
}

handle_all_conserves_example :
    let c' = handle_all (recording (storage_of arrow "2024-01-02")) filing events in
    (c'.storage.1 ++ c'.buffer ≡ (filing.storage.1 ++ filing.buffer) ++ rows "m" events)
    × (c'.total_records ≡ filing.total_records + length (rows "m" events))
handle_all_conserves_example =
    handle_all_conserves (storage_of arrow "2024-01-02") filing events refl
