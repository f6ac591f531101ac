-- ===== src/Elt/Runs/Visible.antt =====
-- Completed runs of RAW.SNAPSHOT_RUNS, which dbt may see, and the counts recorded with them.
use payments_data_platform.Base.{
  ℕ, ◌≡◌, refl, String, Bool, true, false, not, Option, none, some, List, [], ◌∷◌, All, ◌&&◌, ltb,
  ◌==◌, str_eq, is_some, Result, ok, err, arith, Bool-cases, inl, inr,
}
use payments_data_platform.Elt.Load.{
  CopyOutcome, file_count, reconcile_snapshot, SnapshotIncomplete, snapshot_full,
}
use payments_data_platform.Elt.Load.Complete.{Accounts, reconcile-Accounts}
use payments_data_platform.Elt.Runs.{
  SnapshotRun, StagedRow, same_run, complete_snapshot_run, completed_if, unless_raised,
  validate_run, validate_snapshot_load,
}

-- A count that is there and reaches what was expected.
abbrev pub reaches : ℕ → Option ℕ → Bool
reaches expected none = false
reaches expected (some n) = not (ltb n expected)

-- A completed run is recorded with the parts and rows expected of it, and is no empty full snapshot.
abbrev pub IsLoaded : SnapshotRun → Type 0
IsLoaded t =
    is_some t.completed_at ≡ true
    → (reaches t.expected_parts t.loaded_parts ≡ true)
      × (reaches t.expected_rows t.loaded_rows ≡ true)
      × (str_eq t.snapshot_type snapshot_full && (t.expected_rows == 0) ≡ false)

-- The table expects of the run what the tasks pass on.
abbrev pub Agrees : StagedRow → SnapshotRun → Type 0
Agrees s t =
    same_run s.dataset s.run_id t ≡ true
    → (t.expected_parts ≡ s.expected_parts)
      × (t.expected_rows ≡ s.expected_rows)
      × (t.snapshot_type ≡ s.snapshot_type)

abbrev pub AllAgree : List StagedRow → List SnapshotRun → Type 0
AllAgree ss table = All (λ s. All (Agrees s) table) ss

abbrev stamp : ℕ → CopyOutcome → SnapshotRun → SnapshotRun
stamp now o t = record t {
  loaded_parts = some (file_count o);
  loaded_rows = some o.rows_loaded;
  loaded_at = some now;
  completed_at = some now;
}

stamped :
    (now : ℕ) (s : StagedRow) (o : CopyOutcome) (t : SnapshotRun)
    → Accounts s.expected_parts s.expected_rows o s.snapshot_type false
    → (t.expected_parts ≡ s.expected_parts)
      × (t.expected_rows ≡ s.expected_rows)
      × (t.snapshot_type ≡ s.snapshot_type)
    → IsLoaded (stamp now o t)
stamped now s o t a e = λ c. (
  rw e.0 (ground (arith, a.parts_arrived)),
  rw e.1 (ground (arith, a.rows_arrived)),
  rw e.1 (rw e.2 (ground (arith, a.not_empty))),
)

complete-IsLoaded :
    (now : ℕ) (s : StagedRow) (o : CopyOutcome) (ts : List SnapshotRun)
    → Accounts s.expected_parts s.expected_rows o s.snapshot_type false
    → All (Agrees s) ts
    → All IsLoaded ts
    → All IsLoaded (complete_snapshot_run now s.dataset s.run_id o ts)
unfolding complete_snapshot_run
complete-IsLoaded now s o [] a g h = tt
complete-IsLoaded now s o (t ∷ ts) a g h =
    elim (Bool-cases (same_run s.dataset s.run_id t && not (is_some t.completed_at))) [
      | inl stamps ↦
          let e = g.0 (ground (arith, stamps)) in
          rw stamps (stamped now s o t a e, complete-IsLoaded now s o ts a g.1 h.1)
      | inr stays ↦ rw stays (h.0, complete-IsLoaded now s o ts a g.1 h.1)
    ]

complete-Agrees :
    (now : ℕ) (dataset run_id : String) (o : CopyOutcome) (s : StagedRow) (ts : List SnapshotRun)
    → All (Agrees s) ts
    → All (Agrees s) (complete_snapshot_run now dataset run_id o ts)
unfolding complete_snapshot_run same_run
complete-Agrees now dataset run_id o s [] h = tt
complete-Agrees now dataset run_id o s (t ∷ ts) h =
    elim (Bool-cases (same_run dataset run_id t && not (is_some t.completed_at))) [
      | inl stamps ↦ rw stamps (h.0, complete-Agrees now dataset run_id o s ts h.1)
      | inr stays ↦ rw stays (h.0, complete-Agrees now dataset run_id o s ts h.1)
    ]

completed_if-IsLoaded :
    (r : Result SnapshotIncomplete (Unit {0})) (after table : List SnapshotRun)
    → (r ≡ ok tt → All IsLoaded after)
    → All IsLoaded table
    → All IsLoaded (completed_if r after table).1
completed_if-IsLoaded (ok u) after table f h = f refl
completed_if-IsLoaded (err e) after table f h = h

completed_if-Agrees :
    (s : StagedRow) (r : Result SnapshotIncomplete (Unit {0})) (after table : List SnapshotRun)
    → All (Agrees s) after
    → All (Agrees s) table
    → All (Agrees s) (completed_if r after table).1
completed_if-Agrees s (ok u) after table f h = f
completed_if-Agrees s (err e) after table f h = h

validate_run-IsLoaded :
    (history : StagedRow → CopyOutcome) (now : ℕ) (s : StagedRow) (table : List SnapshotRun)
    → All (Agrees s) table
    → All IsLoaded table
    → All IsLoaded (validate_run history now s table).1
unfolding validate_run
validate_run-IsLoaded history now s table g h =
    completed_if-IsLoaded
      (reconcile_snapshot s.expected_parts s.expected_rows (history s) s.snapshot_type false)
      (complete_snapshot_run now s.dataset s.run_id (history s) table) table
      (λ e.
        complete-IsLoaded now s (history s) table
          ((reconcile-Accounts s.expected_parts s.expected_rows (history s) s.snapshot_type false).0
            e)
          g h)
      h

validate_run-AllAgree :
    (history : StagedRow → CopyOutcome) (now : ℕ) (s : StagedRow) (table : List SnapshotRun)
    (ss : List StagedRow)
    → AllAgree ss table
    → AllAgree ss (validate_run history now s table).1
unfolding validate_run
validate_run-AllAgree history now s table [] g = tt
validate_run-AllAgree history now s table (q ∷ qs) g = (
  completed_if-Agrees q
      (reconcile_snapshot s.expected_parts s.expected_rows (history s) s.snapshot_type false)
      (complete_snapshot_run now s.dataset s.run_id (history s) table) table
      (complete-Agrees now s.dataset s.run_id (history s) q table g.0) g.0,
  validate_run-AllAgree history now s table qs g.1,
)

unless_raised-IsLoaded :
    (step rest : Result SnapshotIncomplete (Unit {0}) × List SnapshotRun)
    → All IsLoaded step.1
    → All IsLoaded rest.1
    → All IsLoaded (unless_raised step rest).1
unless_raised-IsLoaded (ok u, table) rest h j = j
unless_raised-IsLoaded (err e, table) rest h j = h

-- If the control table expects of each staged run what staging reports of it, and each run completed
-- before stands in the control table with at least the loaded parts and rows expected of it and is
-- no full snapshot of zero rows, then the same holds of every run that the table has as completed
-- after the task has validated the load, whatever the load history reports and whether or not a run
-- fails to reconcile. The loaded counts are those of the load history's report.
pub validate_snapshot_load-IsLoaded :
    (history : StagedRow → CopyOutcome) (now : ℕ) (ss : List StagedRow) (table : List SnapshotRun)
    → AllAgree ss table
    → All IsLoaded table
    → All IsLoaded (validate_snapshot_load history now ss table).1
unfolding validate_snapshot_load
validate_snapshot_load-IsLoaded history now [] table g h = h
validate_snapshot_load-IsLoaded history now (s ∷ ss) table g h =
    let step = validate_run history now s table in
    let next = validate_run-IsLoaded history now s table g.0 h in
    unless_raised-IsLoaded step (validate_snapshot_load history now ss step.1) next (
      validate_snapshot_load-IsLoaded history now ss step.1
        (validate_run-AllAgree history now s table ss g.1) next)
