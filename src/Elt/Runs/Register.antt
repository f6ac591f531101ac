-- ===== src/Elt/Runs/Register.antt =====
-- What registering a run does to the control table.
use payments_data_platform.Base.{
  ℕ, ◌≡◌, refl, subst, ◌∙◌, String, Bool, true, false, not, Option, none, some, List, [], ◌∷◌, All,
  ◌&&◌, ◌||◌, str_eq, Result, ok, err, if◌then◌else◌, arith, Bool-cases, inl, inr, count, ◌==◌,
  eq_refl,
}
use payments_data_platform.Elt.Load.{snapshot_full, snapshot_window}
use payments_data_platform.Elt.Runs.{
  SnapshotRun, StagedRow, same_run, restaged, newly_staged, merge_run, register_snapshot_run,
}
use payments_data_platform.Elt.Runs.Visible.{Agrees}

-- The row of a run.
pub find_run : String → String → List SnapshotRun → Option SnapshotRun
find_run dataset run_id [] = none
find_run dataset run_id (t ∷ ts) =
    if same_run dataset run_id t then some t else find_run dataset run_id ts

pub rows_of_run : String → String → List SnapshotRun → ℕ
rows_of_run dataset run_id ts = count (same_run dataset run_id) ts

contradicts : (b : Bool) → b ≡ true → b ≡ false → ⊥
contradicts b h j = cc

err-ok :
    (e : String) (table : List SnapshotRun)
    → ◌≡◌ {A = Result String (List SnapshotRun)} (err e) (ok table)
    → ⊥
err-ok e table h = cc

own_run : (now : ℕ) (s : StagedRow) → same_run s.dataset s.run_id (newly_staged now s) ≡ true
unfolding same_run
own_run now s = ground (arith, eq_refl s.dataset, eq_refl s.run_id)

same_run-restaged :
    (now : ℕ) (s : StagedRow) (dataset run_id : String) (t : SnapshotRun)
    → same_run dataset run_id (restaged now s t) ≡ same_run dataset run_id t
unfolding same_run
same_run-restaged now s dataset run_id t = refl

abbrev once_more : Bool → ℕ → ℕ
once_more matched n = if not matched && (n == 0) then 1 else n

merge_run-count :
    (now : ℕ) (s : StagedRow) (matched : Bool) (ts : List SnapshotRun)
    → count (same_run s.dataset s.run_id) (merge_run now s matched ts)
      ≡ once_more matched (count (same_run s.dataset s.run_id) ts)
unfolding merge_run
merge_run-count now s true [] = refl
merge_run-count now s false [] = rw (own_run now s) refl
merge_run-count now s matched (t ∷ ts) = elim (Bool-cases (same_run s.dataset s.run_id t)) [
  | inl here ↦
      ground
        (arith, here, same_run-restaged now s s.dataset s.run_id t, merge_run-count now s true ts)
  | inr there ↦ ground (arith, there, merge_run-count now s matched ts)
]

merge_run-Agrees :
    (now : ℕ) (s : StagedRow) (matched : Bool) (ts : List SnapshotRun)
    → All (Agrees s) (merge_run now s matched ts)
unfolding merge_run
merge_run-Agrees now s true [] = tt
merge_run-Agrees now s false [] = ((λ e. (refl, refl, refl)), tt)
merge_run-Agrees now s matched (t ∷ ts) = elim (Bool-cases (same_run s.dataset s.run_id t)) [
  | inl here ↦ rw here ((λ e. (refl, refl, refl)), merge_run-Agrees now s true ts)
  | inr there ↦ rw there (
    (λ e. absurd (contradicts (same_run s.dataset s.run_id t) e there)),
    merge_run-Agrees now s matched ts,
  )
]

-- The row that a registration leaves, column by column.
abbrev pub restaged_or_new : ℕ → StagedRow → Option SnapshotRun → SnapshotRun
restaged_or_new now s none = record {
  dataset = s.dataset;
  run_id = s.run_id;
  run_date = s.run_date;
  snapshot_type = s.snapshot_type;
  expected_parts = s.expected_parts;
  expected_rows = s.expected_rows;
  loaded_parts = none;
  loaded_rows = none;
  staged_at = now;
  loaded_at = none;
  completed_at = none;
}
restaged_or_new now s (some t) = record {
  dataset = t.dataset;
  run_id = t.run_id;
  run_date = s.run_date;
  snapshot_type = s.snapshot_type;
  expected_parts = s.expected_parts;
  expected_rows = s.expected_rows;
  loaded_parts = t.loaded_parts;
  loaded_rows = t.loaded_rows;
  staged_at = now;
  loaded_at = t.loaded_at;
  completed_at = t.completed_at;
}

find-merge_run :
    (now : ℕ) (s : StagedRow) (ts : List SnapshotRun)
    → find_run s.dataset s.run_id (merge_run now s false ts)
      ≡ some (restaged_or_new now s (find_run s.dataset s.run_id ts))
unfolding merge_run find_run
find-merge_run now s [] = rw (own_run now s) refl
find-merge_run now s (t ∷ ts) = elim (Bool-cases (same_run s.dataset s.run_id t)) [
  | inl here ↦ rw here (rw (same_run-restaged now s s.dataset s.run_id t ∙ here) refl)
  | inr there ↦ rw there (rw there (find-merge_run now s ts))
]

-- What a registration leaves of a run in the table.
pub record Registered (now : ℕ) (s : StagedRow) (before after : List SnapshotRun) : Type 0 where
  pub its_row :
      find_run s.dataset s.run_id after
      ≡ some (restaged_or_new now s (find_run s.dataset s.run_id before))
  pub its_count :
      rows_of_run s.dataset s.run_id after ≡ once_more false (rows_of_run s.dataset s.run_id before)
  pub its_counts_agree : All (Agrees s) after

-- If the registration of a staged run passes, then the run has a row in the table, as many rows as it
-- had before or one if it had none, and each of them expects what staging reported. The row is new,
-- with nothing loaded or completed, or it is the run's first row with the run's date, type and
-- expected counts replaced, its time of staging set, and its loaded counts and completion kept.
pub register-Registered :
    (now : ℕ) (s : StagedRow) (table after : List SnapshotRun)
    → register_snapshot_run now s table ≡ ok after
    → Registered now s table after
unfolding register_snapshot_run rows_of_run
register-Registered now s table after h =
    elim (Bool-cases
      (str_eq s.snapshot_type snapshot_full || str_eq s.snapshot_type snapshot_window)) [
        | inl known ↦
            let e : merge_run now s false table ≡ after = ground (arith, rw known at h) in
            subst (λ u. Registered now s table u) e
              (record {
                its_row = find-merge_run now s table;
                its_count = unfold rows_of_run in merge_run-count now s false table;
                its_counts_agree = merge_run-Agrees now s false table;
              })
        | inr unknown ↦
            absurd (err-ok "snapshot_type must be 'full' or 'window'" after (rw unknown at h))
      ]
