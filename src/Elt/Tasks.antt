-- ===== src/Elt/Tasks.antt =====
-- The staging tasks and the load statements of airflow/dags/snowflake_fx_etl.py. `strftime` of an
-- interval's end is a parameter; the arguments are those that the option list stands for.
pub mod Typed
pub mod Same
use payments_data_platform.Base.{
  ℕ, String, Bool, true, false, Option, none, some, List, [], ◌∷◌, ◌++◌, map, length, ltb, Result,
  ok, err, ◌>>=◌, if◌then◌else◌,
}
use payments_data_platform.Elt.Load.{
  create_raw_table_sql, copy_into_sql, raw_tables, default_prefix, snapshot_full, snapshot_window,
}
use payments_data_platform.Elt.Runs.{StagedRow}
use payments_data_platform.Elt.Stage.{S3, StagedSnapshot, part_count}
use payments_data_platform.Elt.Stage.Command
use payments_data_platform.Elt.Stage.Command.{StageArgs, stage_defaults, Sources, Calendar}

unfoldable pub load_raw_statements : String → String → List (String × String) → List String
load_raw_statements stage run_date [] = []
load_raw_statements stage run_date ((dataset, table) ∷ tables) =
    create_raw_table_sql table
    ∷ copy_into_sql table stage dataset run_date default_prefix
    ∷ load_raw_statements stage run_date tables

-- The date is the template that the operator renders.
unfoldable pub load_raw_sql : String → List String
unfolding load_raw_statements
load_raw_sql stage = load_raw_statements stage "{{ ds }}" raw_tables

-- A row without `snapshot_type` is read as a full one.
unfoldable pub row_of : StagedSnapshot → StagedRow
row_of s = record {
  dataset = s.dataset;
  run_id = s.run_id;
  run_date = s.run_date;
  snapshot_type = snapshot_full;
  expected_parts = part_count s;
  expected_rows = s.row_count;
}

abbrev pub staged_to_xcom : Option (List StagedSnapshot) → List StagedRow
staged_to_xcom none = []
staged_to_xcom (some ss) = map row_of ss

-- `bool(start and end and start < end)`
abbrev pub windowed : Option ℕ → Option ℕ → Bool
windowed none end = false
windowed (some a) none = false
windowed (some a) (some b) = ltb a b

abbrev pub formatted : (ℕ → String) → Option ℕ → Option String
formatted strftime none = none
formatted strftime (some t) = some (strftime t)

abbrev pub task_args : List (String × String) → String → String → String → String → StageArgs
task_args env bucket dataset ds run_id = record (stage_defaults env) {
  bucket = bucket;
  datasets = dataset ∷ [];
  run_date = ds;
  run_id = run_id;
}

abbrev pub with_window : Bool → (ℕ → String) → Option ℕ → Option ℕ → StageArgs → StageArgs
with_window false strftime start end args = args
with_window true strftime start end args = record args {
  updated_after = formatted strftime start;
  updated_before = formatted strftime end;
}

abbrev pub typed : Bool → StagedRow → StagedRow
typed w r = record r { snapshot_type = if w then snapshot_window else snapshot_full }

module _ {R W : Type 0} (dumps : R → Result String String) (s3 : S3 W) (sources : Sources R)
    (cal : Calendar) (env : List (String × String)) (bucket : String) where
  unfoldable pub stage_fx_rates : String → String → W → Result String (List StagedRow × W)
  unfolding row_of
  stage_fx_rates ds run_id w =
      Command.main dumps s3 sources cal (task_args env bucket "fx_rates" ds run_id) w
      >>= λ (staged, v). ok (staged_to_xcom staged, v)

  unfoldable pub stage_payments :
      (ℕ → String) → String → String → Option ℕ → Option ℕ → W → Result String (List StagedRow × W)
  unfolding row_of
  stage_payments strftime ds run_id start end w =
      let is_windowed = windowed start end in
      let args =
        with_window is_windowed strftime start end (task_args env bucket "payments" ds run_id) in
      Command.main dumps s3 sources cal args w >>= λ (staged, v).
      ok (map (typed is_windowed) (staged_to_xcom staged), v)
