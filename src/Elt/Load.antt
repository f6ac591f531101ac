-- ===== src/Elt/Load.antt =====
-- The load into the RAW tables (snowflake_etl/src/load_to_snowflake.py): its statements, what a COPY
-- reports, and the rule that says when a load is complete. The Snowflake driver is a parameter.
pub mod Complete
pub mod Command
use payments_data_platform.Base.{
  ℕ, zero, suc, ◌+◌, String, Bool, true, false, not, Option, none, some, List, [], ◌∷◌, ◌&&◌, ltb,
  ◌==◌, str_eq, is_some, length, take, Result, ok, err, ◌>>=◌, if◌then◌else◌,
}
use payments_data_platform.Base.Decimal.{decimal}
use Prim.Native.String.{◌++◌}
use text.Mathlib.Text.{find?}

-- The methods of Python's texts that the module calls, and `str` of a value of a result row.
pub data Cell : Type 0 where
  null : Cell
  varchar : String → Cell
  integer : ℕ → Cell

pub record Texts : Type 0 where
  pub upper : String → String
  pub replace : String → String → String → String
  pub str : Cell → String

-- A connection to Snowflake: a statement with its parameters may raise, and its result is fetched
-- afterwards.
pub record Connection (W : Type 0) : Type 0 where
  pub execute : String → List String → W → Result String W
  pub fetchall : W → List (List Cell)

abbrev pub raw_tables : List (String × String)
raw_tables = ("fx_rates", "RAW.RAW_FX_RATES") ∷ ("payments", "RAW.RAW_PAYMENTS") ∷ []

abbrev pub default_prefix : String
default_prefix = "raw"

abbrev pub default_stage_schema : String
default_stage_schema = "RAW"

abbrev pub snapshot_runs_table : String
snapshot_runs_table = "RAW.SNAPSHOT_RUNS"

abbrev pub snapshot_full : String
snapshot_full = "full"

abbrev pub snapshot_window : String
snapshot_window = "window"

abbrev pub copy_history_lookback_hours : ℕ
copy_history_lookback_hours = 168

unfoldable pub create_raw_table_sql : String → String
create_raw_table_sql table =
    "CREATE TABLE IF NOT EXISTS " ++ table ++ " (\n" ++ "  raw         VARIANT,\n"
    ++ "  source_file STRING,\n" ++ "  loaded_at   TIMESTAMP_NTZ DEFAULT CURRENT_TIMESTAMP()\n"
    ++ ")"

-- A bare stage name is qualified.
pub qualified : String → String
qualified stage = if is_some (find? stage ".") then stage else default_stage_schema ++ "." ++ stage

unfoldable pub copy_into_sql : String → String → String → String → String → String
unfolding qualified
copy_into_sql table stage dataset run_date prefix =
    "COPY INTO "
    ++ table
    ++ " (raw, source_file)\n"
    ++ "FROM (\n"
    ++ "  SELECT $1, METADATA$FILENAME\n"
    ++ "  FROM @"
    ++ qualified stage
    ++ "/"
    ++ prefix
    ++ "/"
    ++ dataset
    ++ "/dt="
    ++ run_date
    ++ "/\n"
    ++ ")\n"
    ++ "FILE_FORMAT = (TYPE = JSON STRIP_OUTER_ARRAY = FALSE)\n"
    ++ "ON_ERROR = ABORT_STATEMENT"

pub create_snapshot_runs_sql : String → String
create_snapshot_runs_sql table =
    "CREATE TABLE IF NOT EXISTS " ++ table ++ " (\n" ++ "  dataset        STRING,\n"
    ++ "  run_id         STRING,\n" ++ "  run_date       DATE,\n" ++ "  snapshot_type  STRING,\n"
    ++ "  expected_parts INTEGER,\n" ++ "  expected_rows  INTEGER,\n"
    ++ "  loaded_parts   INTEGER,\n" ++ "  loaded_rows    INTEGER,\n"
    ++ "  staged_at      TIMESTAMP_NTZ,\n" ++ "  loaded_at      TIMESTAMP_NTZ,\n"
    ++ "  completed_at   TIMESTAMP_NTZ\n" ++ ")"

pub copy_history_sql : Texts → String → String → ℕ → String
copy_history_sql k table run_id lookback_hours =
    "SELECT FILE_NAME, STATUS, ROW_PARSED, ROW_COUNT\n"
    ++ "FROM TABLE(INFORMATION_SCHEMA.COPY_HISTORY(\n"
    ++ "  TABLE_NAME => '"
    ++ table
    ++ "',\n"
    ++ "  START_TIME => DATEADD(hours, -"
    ++ decimal lookback_hours
    ++ ", CURRENT_TIMESTAMP())\n"
    ++ "))\n"
    ++ "WHERE FILE_NAME LIKE '%run="
    ++ Texts.replace k run_id "'" "''"
    ++ "/%'"

pub record CopyOutcome : Type 0 where
  pub files : List String
  pub rows_loaded : ℕ
  pub skipped : List String

abbrev pub file_count : CopyOutcome → ℕ
file_count o = length o.files

-- The status column: `str(row[1]).upper()` if it is there and not null.
abbrev pub status_of : Texts → List Cell → String
status_of k [] = ""
status_of k (name ∷ []) = ""
status_of k (name ∷ null ∷ cells) = ""
status_of k (name ∷ varchar s ∷ cells) = Texts.upper k (Texts.str k (varchar s))
status_of k (name ∷ integer n ∷ cells) = Texts.upper k (Texts.str k (integer n))

-- The fourth column if it is an `int`, else nothing to add.
abbrev pub rows_of : List Cell → ℕ
rows_of (name ∷ status ∷ parsed ∷ integer n ∷ cells) = n
rows_of cells = 0

abbrev pub with_row : Texts → List Cell → CopyOutcome → CopyOutcome
with_row k [] rest = rest
with_row k (name ∷ cells) rest = record {
  files = Texts.str k name ∷ rest.files;
  rows_loaded = rows_of (name ∷ cells) + rest.rows_loaded;
  skipped =
      if str_eq (status_of k (name ∷ cells)) "LOAD_SKIPPED"
      then Texts.str k name ∷ rest.skipped
      else rest.skipped;
}

pub parse_copy_result : Texts → List (List Cell) → CopyOutcome
parse_copy_result k [] = record { files = []; rows_loaded = 0; skipped = [] }
parse_copy_result k (row ∷ rows) = with_row k row (parse_copy_result k rows)

module _ {W : Type 0} (k : Texts) (c : Connection W) where
  open c use {execute, fetchall}

  unfoldable pub load_dataset :
      String → String → String → String → String → W → Result String (CopyOutcome × W)
  unfolding create_raw_table_sql copy_into_sql parse_copy_result
  load_dataset table stage dataset run_date prefix w =
      execute (create_raw_table_sql table) [] w >>= λ created.
      execute (copy_into_sql table stage dataset run_date prefix) [] created >>= λ copied.
      ok (parse_copy_result k (fetchall copied), copied)

  unfoldable pub ensure : List (String × String) → W → Result String W
  unfolding create_raw_table_sql
  ensure [] w = ok w
  ensure ((dataset, table) ∷ tables) w = execute (create_raw_table_sql table) [] w >>= ensure tables

  unfoldable pub bootstrap_raw_objects : String → W → Result String W
  unfolding ensure create_snapshot_runs_sql
  bootstrap_raw_objects runs_table w =
      ensure raw_tables w >>= execute (create_snapshot_runs_sql runs_table) []

  pub copy_history_for_run : String → String → ℕ → W → Result String (CopyOutcome × W)
  unfolding copy_history_sql parse_copy_result
  copy_history_for_run table run_id lookback_hours w =
      execute (copy_history_sql k table run_id lookback_hours) [] w >>= λ read.
      ok (parse_copy_result k (fetchall read), read)

-- Why a load does not account for its snapshot.
pub data SnapshotIncomplete : Type 0 where
  copy_skipped : ℕ → List String → SnapshotIncomplete
  no_history : ℕ → SnapshotIncomplete
  too_few_parts : ℕ → ℕ → SnapshotIncomplete
  too_few_rows : ℕ → ℕ → SnapshotIncomplete
  empty_full_snapshot : SnapshotIncomplete

abbrev pub is_empty {ℓ} : {A : Type ℓ} → List A → Bool
is_empty [] = true
is_empty (x ∷ xs) = false

pub reconcile_snapshot : ℕ → ℕ → CopyOutcome → String → Bool → Result SnapshotIncomplete (Unit {0})
reconcile_snapshot expected_parts expected_rows outcome snapshot_type allow_empty =
    if not (is_empty outcome.skipped)
    then err (copy_skipped (length outcome.skipped) (take 5 outcome.skipped))
    else if not (expected_parts == 0) && file_count outcome == 0
    then err (no_history expected_parts)
    else if ltb (file_count outcome) expected_parts
    then err (too_few_parts expected_parts (file_count outcome))
    else if ltb outcome.rows_loaded expected_rows
    then err (too_few_rows expected_rows outcome.rows_loaded)
    else if str_eq snapshot_type snapshot_full && (expected_rows == 0 && not allow_empty)
    then err empty_full_snapshot
    else ok tt
