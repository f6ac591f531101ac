-- ===== src/Elt/Runs.antt =====
-- The control table RAW.SNAPSHOT_RUNS: what the statements of `register_snapshot_run` and
-- `complete_snapshot_run` (snowflake_etl/src/load_to_snowflake.py) do to it, and the two tasks of
-- airflow/dags/snowflake_fx_etl.py that call them. Times are the readings of the warehouse's clock.
pub mod Visible
pub mod Register
use payments_data_platform.Base.{
  ℕ, String, Bool, true, false, not, Option, none, some, List, [], ◌∷◌, ◌&&◌, ◌||◌, str_eq, is_some,
  Result, ok, err, if◌then◌else◌,
}
use payments_data_platform.Elt.Load.{
  CopyOutcome, file_count, snapshot_full, snapshot_window, SnapshotIncomplete, reconcile_snapshot,
}

pub record SnapshotRun : Type 0 where
  pub dataset : String
  pub run_id : String
  pub run_date : String
  pub snapshot_type : String
  pub expected_parts : ℕ
  pub expected_rows : ℕ
  pub loaded_parts : Option ℕ
  pub loaded_rows : Option ℕ
  pub staged_at : ℕ
  pub loaded_at : Option ℕ
  pub completed_at : Option ℕ

-- A staged run as it passes between the tasks.
pub record StagedRow : Type 0 where
  pub dataset : String
  pub run_id : String
  pub run_date : String
  pub snapshot_type : String
  pub expected_parts : ℕ
  pub expected_rows : ℕ

-- `t.dataset = s.dataset AND t.run_id = s.run_id`
unfoldable pub same_run : String → String → SnapshotRun → Bool
same_run dataset run_id t = str_eq t.dataset dataset && str_eq t.run_id run_id

-- The MERGE's WHEN MATCHED branch.
abbrev pub restaged : ℕ → StagedRow → SnapshotRun → SnapshotRun
restaged now s t = record t {
  run_date = s.run_date;
  snapshot_type = s.snapshot_type;
  expected_parts = s.expected_parts;
  expected_rows = s.expected_rows;
  staged_at = now;
}

-- Its WHEN NOT MATCHED branch.
abbrev pub newly_staged : ℕ → StagedRow → SnapshotRun
newly_staged now s = record {
  dataset = s.dataset;
  run_id = s.run_id;
  run_date = s.run_date;
  snapshot_type = s.snapshot_type;
  expected_parts = s.expected_parts;
  expected_rows = s.expected_rows;
  loaded_parts = none;
  loaded_rows = none;
  staged_at = now;
  loaded_at = none;
  completed_at = none;
}

-- The MERGE: every row that matches is updated, and the run is inserted if none does.
unfoldable pub merge_run : ℕ → StagedRow → Bool → List SnapshotRun → List SnapshotRun
unfolding same_run
merge_run now s matched [] = if matched then [] else newly_staged now s ∷ []
merge_run now s matched (t ∷ ts) =
    if same_run s.dataset s.run_id t
    then restaged now s t ∷ merge_run now s true ts
    else t ∷ merge_run now s matched ts

unfoldable pub register_snapshot_run :
    ℕ → StagedRow → List SnapshotRun → Result String (List SnapshotRun)
unfolding merge_run
register_snapshot_run now s table =
    if str_eq s.snapshot_type snapshot_full || str_eq s.snapshot_type snapshot_window
    then ok (merge_run now s false table)
    else err "snapshot_type must be 'full' or 'window'"

-- `complete_snapshot_run`: UPDATE ... WHERE dataset = .. AND run_id = .. AND completed_at IS NULL
unfoldable pub complete_snapshot_run :
    ℕ → String → String → CopyOutcome → List SnapshotRun → List SnapshotRun
unfolding same_run
complete_snapshot_run now dataset run_id outcome [] = []
complete_snapshot_run now dataset run_id outcome (t ∷ ts) =
    (if same_run dataset run_id t && not (is_some t.completed_at)
      then record t {
        loaded_parts = some (file_count outcome);
        loaded_rows = some outcome.rows_loaded;
        loaded_at = some now;
        completed_at = some now;
      }
      else t)
    ∷ complete_snapshot_run now dataset run_id outcome ts

-- The task `register_runs`.
unfoldable pub register_runs :
    ℕ → List StagedRow → List SnapshotRun → Result String (List SnapshotRun)
unfolding register_snapshot_run
register_runs now [] table = ok table
register_runs now (s ∷ ss) table = elim (register_snapshot_run now s table) [
  | ok after ↦ register_runs now ss after
  | err e ↦ err e
]

-- One turn of the task `validate_snapshot_load`, and the task: it stops at the first run that does
-- not reconcile. `history` is what `copy_history_for_run` reads of a run.
abbrev pub completed_if :
    Result SnapshotIncomplete (Unit {0})
    → List SnapshotRun
    → List SnapshotRun
    → Result SnapshotIncomplete (Unit {0}) × List SnapshotRun
completed_if (ok u) after table = (ok u, after)
completed_if (err e) after table = (err e, table)

abbrev pub unless_raised :
    Result SnapshotIncomplete (Unit {0}) × List SnapshotRun
    → Result SnapshotIncomplete (Unit {0}) × List SnapshotRun
    → Result SnapshotIncomplete (Unit {0}) × List SnapshotRun
unless_raised (ok u, table) rest = rest
unless_raised (err e, table) rest = (err e, table)

unfoldable pub validate_run :
    (StagedRow → CopyOutcome)
    → ℕ
    → StagedRow
    → List SnapshotRun
    → Result SnapshotIncomplete (Unit {0}) × List SnapshotRun
unfolding complete_snapshot_run
validate_run history now s table =
    completed_if
      (reconcile_snapshot s.expected_parts s.expected_rows (history s) s.snapshot_type false)
      (complete_snapshot_run now s.dataset s.run_id (history s) table) table

unfoldable pub validate_snapshot_load :
    (StagedRow → CopyOutcome)
    → ℕ
    → List StagedRow
    → List SnapshotRun
    → Result SnapshotIncomplete (Unit {0}) × List SnapshotRun
unfolding validate_run
validate_snapshot_load history now [] table = (ok tt, table)
validate_snapshot_load history now (s ∷ ss) table =
    let step = validate_run history now s table in
    unless_raised step (validate_snapshot_load history now ss step.1)
