-- ===== src/Telemetry/Storage/Reading.antt =====
-- src/telemetry/storage.py: `read_all` and `read_recent` of `TelemetryStorage`. What the directory lists
-- and how a table becomes a frame are a parameter; a frame is the list of its rows.
use multie_layer_kache.Prelude.{
  ◌≡◌, ◌∙◌, refl, sym, ap, String, Option, none, some, List, [], ◌∷◌, ◌++◌, arith, filter_by, ◌>>=◌,
}
use mathlib.Core.List.{append-nil, append_assoc}
use multie_layer_kache.Prelude.Floats.{Double}
use multie_layer_kache.Telemetry.Schema.{TelemetryRecord}
use multie_layer_kache.Telemetry.Storage.{Backend, memory, parquet, Arrow, TelemetryStorage}
use multie_layer_kache.Telemetry.Storage.Appending.{IsFaithful}

pub record Frames (W Rows Files : Type 0) : Type 0 where
  -- `sorted` of the paths in the directory that end in ".parquet"
  pub parquet_files : String → Files → List String
  pub to_pandas : Rows → List (TelemetryRecord W)

module _ {W Rows Files : Type 0} (a : Arrow W Rows Files) (p : Frames W Rows Files) where
  -- `none` is what reading a file raises
  unfoldable pub read_tables : List String → Files → Option (List Rows)
  read_tables [] files = some []
  read_tables (path ∷ paths) files = do
    table ← a.read_table path files
    tables ← read_tables paths files
    some (table ∷ tables)

  -- `pa.concat_tables`, of at least one table
  unfoldable pub concat_all : Rows → List Rows → Rows
  concat_all table [] = table
  concat_all table (next ∷ tables) = concat_all (a.concat_tables table next) tables

  abbrev pub frame_of : List Rows → List (TelemetryRecord W)
  frame_of [] = []
  frame_of (table ∷ tables) = p.to_pandas (concat_all table tables)

  abbrev pub read_stored : Backend → TelemetryStorage W Files → Option (List (TelemetryRecord W))
  read_stored memory s = some s.records
  read_stored parquet s = (do
    tables ← read_tables (p.parquet_files s.output_dir s.files) s.files
    some (frame_of tables))

  unfoldable pub read_all : TelemetryStorage W Files → Option (List (TelemetryRecord W))
  unfolding read_tables concat_all
  read_all s = read_stored s.backend s

  unfoldable pub read_recent :
      ⦃d : Double W⦄ → W → W → TelemetryStorage W Files → Option (List (TelemetryRecord W))
  unfolding read_all
  read_recent ⦃d⦄ now hours s = do
    rows ← read_all s
    let cutoff = d.sub now (d.mul hours (d.lit 3600 0))
    some (filter_by (λ (r : TelemetryRecord W). d.le cutoff r.timestamp) rows)

both_read :
    {Rows : Type 0} (read : Option Rows) (more : Option (List Rows)) (tables : List Rows)
    → (do table ← read; rest ← more; some (table ∷ rest)) ≡ some tables
    → (table : Rows) × (rest : List Rows) × (read ≡ some table)
      × (more ≡ some rest)
      × (tables ≡ table ∷ rest)
both_read none more tables h = absurd (ground arith)
both_read (some table) none tables h = absurd (ground arith)
both_read (some table) (some rest) tables h = (table, rest, refl, refl, sym (ground (arith, h)))

module _ {W Rows Files : Type 0} (a : Arrow W Rows Files) (single : W → W)
    (law : IsFaithful a single) where
  rows_of_all : List Rows → List (TelemetryRecord W)
  rows_of_all [] = []
  rows_of_all (table ∷ tables) = law.rows_of table ++ rows_of_all tables

  -- what the files hold, one behind the other
  contents_of : List String → Files → List (TelemetryRecord W)
  contents_of [] files = []
  contents_of (path ∷ paths) files = law.contents path files ++ contents_of paths files

  concat_all-rows :
      (p : Frames W Rows Files) (table : Rows) (tables : List Rows)
      → law.rows_of (concat_all a p table tables) ≡ law.rows_of table ++ rows_of_all tables
  unfolding concat_all rows_of_all
  concat_all-rows p table [] = sym (append-nil (law.rows_of table))
  concat_all-rows p table (next ∷ tables) =
      concat_all-rows p (a.concat_tables table next) tables
      ∙ ap (λ l. l ++ rows_of_all tables) (law.concat_rows table next)
      ∙ append_assoc (law.rows_of table) (law.rows_of next) (rows_of_all tables)

  read_tables-contents :
      (p : Frames W Rows Files) (paths : List String) (f : Files) (tables : List Rows)
      → read_tables a p paths f ≡ some tables
      → rows_of_all tables ≡ contents_of paths f
  unfolding read_tables rows_of_all contents_of
  read_tables-contents p [] f tables h =
      let none_left : tables ≡ [] = sym (ground (arith, h)) in ap rows_of_all none_left
  read_tables-contents p (path ∷ paths) f tables h =
      let (table, rest, e, e', whole) =
        both_read (a.read_table path f) (read_tables a p paths f) tables h in
      ap rows_of_all whole
      ∙ ap (λ l. l ++ rows_of_all rest) (law.read_rows path f table e)
      ∙ ap (λ l. law.contents path f ++ l) (read_tables-contents p paths f rest e')

  frame_of-rows :
      (p : Frames W Rows Files) (tables : List Rows)
      → ((table : Rows) → p.to_pandas table ≡ law.rows_of table)
      → frame_of a p tables ≡ rows_of_all tables
  unfolding rows_of_all
  frame_of-rows p [] same = refl
  frame_of-rows p (table ∷ tables) same =
      same (concat_all a p table tables) ∙ concat_all-rows p table tables

  framed :
      (p : Frames W Rows Files) (read : Option (List Rows)) (frame : List (TelemetryRecord W))
      → (do tables ← read; some (frame_of a p tables)) ≡ some frame
      → (tables : List Rows) × (read ≡ some tables) × (frame ≡ frame_of a p tables)
  framed p none frame h = absurd (ground arith)
  framed p (some tables) frame h = (tables, refl, sym (ground (arith, h)))

  -- What `read_all` reads from parquet files is what the listed files hold, one behind the other.
  read_all-contents :
      (p : Frames W Rows Files) (s : TelemetryStorage W Files) (frame : List (TelemetryRecord W))
      → s.backend ≡ parquet
      → ((table : Rows) → p.to_pandas table ≡ law.rows_of table)
      → read_all a p s ≡ some frame
      → frame ≡ contents_of (p.parquet_files s.output_dir s.files) s.files
  unfolding read_all
  read_all-contents p s frame on_disk same h =
      let (tables, e, made) = framed p _ frame (ap (λ b. read_stored a p b s) (sym on_disk) ∙ h) in
      made ∙ frame_of-rows p tables same ∙ read_tables-contents p _ s.files tables e
