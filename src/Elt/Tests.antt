-- ===== src/Elt/Tests.antt =====
-- The theorems on staging and loading at concrete inputs.
use payments_data_platform.Base.{
  ℕ, String, ◌≡◌, refl, false, List, [], ◌∷◌, ◌++◌, All, Result, ok, arith,
}
use payments_data_platform.Elt.Load.{
  Texts, Cell, null, varchar, integer, CopyOutcome, reconcile_snapshot,
}
use payments_data_platform.Elt.Load.Complete.{Accounts, reconcile-Accounts}
use payments_data_platform.Base.{◌+◌, leb, ◌==◌, if◌then◌else◌, zero, suc, some, none}
use payments_data_platform.Elt.Extract.Window.{selected, windows_join}
use payments_data_platform.Elt.Rates.{Reply, response, get_json_with_retry, Floats, Day}
use payments_data_platform.Elt.Rates.Retry.{Retries, first_accepted, get_json_with_retry-Retries}
use payments_data_platform.Elt.Runs.{
  SnapshotRun, StagedRow, newly_staged, register_snapshot_run, validate_snapshot_load,
}
use payments_data_platform.Elt.Runs.Visible.{IsLoaded, validate_snapshot_load-IsLoaded}
use payments_data_platform.Elt.Runs.Register.{Registered, register-Registered}
use payments_data_platform.Elt.Stage.{
  S3, StagedSnapshot, sanitize_run_id, iter_jsonl_chunks, stage_dataset,
}
use payments_data_platform.Elt.Stage.Chunks.{Chunked, rendered, iter_jsonl_chunks-Chunked}
use payments_data_platform.Elt.Stage.RunId.{IsSegment, sanitize_run_id-IsSegment}
use payments_data_platform.Elt.Stage.Staged.{Takes, staged, stage_dataset-stages}
use payments_data_platform.Base.{◌↔◌}

abbrev texts : Texts
texts = record { upper = λ s. s; replace = λ s a b. s; str = λ c. "f" }

abbrev one_part : CopyOutcome
one_part = record { files = "part-00001" ∷ []; rows_loaded = 3; skipped = [] }

reconcile-Accounts_example :
    (reconcile_snapshot 1 3 one_part "full" false ≡ ok tt) ↔ Accounts 1 3 one_part "full" false
reconcile-Accounts_example = reconcile-Accounts 1 3 one_part "full" false

abbrev loaded_cells : List Cell
loaded_cells = varchar "f" ∷ varchar "LOADED" ∷ integer 3 ∷ integer 3 ∷ []

abbrev skipped_cells : List Cell
skipped_cells = varchar "g" ∷ varchar "LOAD_SKIPPED" ∷ null ∷ null ∷ []

abbrev staged_row : StagedRow
staged_row = record {
  dataset = "payments";
  run_id = "run-1";
  run_date = "2026-01-02";
  snapshot_type = "full";
  expected_parts = 1;
  expected_rows = 3;
}

abbrev registered_table : List SnapshotRun
registered_table = newly_staged 5 staged_row ∷ []

abbrev history : StagedRow → CopyOutcome
history s = one_part

validate_snapshot_load-IsLoaded_example :
    All IsLoaded (validate_snapshot_load history 9 (staged_row ∷ []) registered_table).1
validate_snapshot_load-IsLoaded_example =
    validate_snapshot_load-IsLoaded history 9 (staged_row ∷ []) registered_table
      (((λ e. (refl, refl, refl)), tt), tt) ((λ e. cc), tt)

register-Registered_example : Registered 5 staged_row [] registered_table
unfolding register_snapshot_run
register-Registered_example = register-Registered 5 staged_row [] registered_table refl

abbrev render : String → Result String String
render s = ok s

abbrev three_records : List String
three_records = "a" ∷ "b" ∷ "c" ∷ []

iter_jsonl_chunks-Chunked_example :
    Chunked 2 three_records (iter_jsonl_chunks render 2 three_records)
unfolding rendered
iter_jsonl_chunks-Chunked_example =
    iter_jsonl_chunks-Chunked render 2 three_records three_records (omega arith) refl

sanitize_run_id-IsSegment_example : IsSegment "manual-1"
unfolding sanitize_run_id
sanitize_run_id-IsSegment_example = sanitize_run_id-IsSegment ":manual:+1:" "manual-1" refl

abbrev bucket_log : S3 (List (String × String))
bucket_log = record { put_object = λ bucket key body w. ok (w ++ (key, body) ∷ []) }

abbrev log_takes : Takes bucket_log
log_takes bucket key body w = (w ++ (key, body) ∷ [], refl)

stage_dataset-stages_example :
    (v : List (String × String)) × (stage_dataset render bucket_log "lake" "payments" three_records
        "run-1" "2026-01-02" "raw" 2 []
      ≡ ok (staged "payments" "run-1" "2026-01-02" "raw" 2 3, v))
unfolding rendered sanitize_run_id iter_jsonl_chunks
stage_dataset-stages_example =
    stage_dataset-stages render bucket_log log_takes "lake" "payments" three_records three_records
      "run-1" "run-1" "2026-01-02" "raw" 2 [] refl refl (omega arith)

abbrev snapshot : StagedSnapshot
snapshot = record {
  dataset = "payments";
  run_id = "run-1";
  run_date = "2026-01-02";
  prefix = "raw/payments/dt=2026-01-02/run=run-1/";
  parts = "part-00001" ∷ [];
  row_count = 3;
}

-- A timestamp here is as late as its text is long.
late : String → ℕ
late String.[] = zero
late (String.◌∷◌ c s) = suc (late s)

windows_join_example :
    selected late (some "a") (some "aa") (1 ∷ 2 ∷ 3 ∷ [])
      + selected late (some "aa") (some "aaaa") (1 ∷ 2 ∷ 3 ∷ [])
    ≡ selected late (some "a") (some "aaaa") (1 ∷ 2 ∷ 3 ∷ [])
unfolding late
windows_join_example =
    windows_join late "a" "aa" "aaaa" (1 ∷ 2 ∷ 3 ∷ []) refl refl refl (omega arith) (omega arith)

-- The second reply is the first that is no server error.
abbrev replies : ℕ → Reply String
replies n = if leb n 1 then response 503 none else response 200 (some "{}")

get_json_with_retry-Retries_example :
    Retries (first_accepted replies 1 5) 1 5 (get_json_with_retry replies 5)
get_json_with_retry-Retries_example = get_json_with_retry-Retries replies 5

abbrev whole : Floats ℕ
whole = record { one = 1; inverse = λ n. n; is_zero = λ n. n == 0 }

abbrev two_days : List (Day whole)
two_days = ("2026-01-02", ("EUR", some 2) ∷ ("GBP", none) ∷ []) ∷ ("2026-01-01", []) ∷ []
