-- ===== src/Elt/Tasks/Typed.antt =====
-- What the task `stage_payments` extracts, and what it says of it.
use payments_data_platform.Base.{
  ℕ, ◌≡◌, refl, String, Bool, true, false, Option, none, some, List, [], ◌∷◌, map, ltb, Result, ok,
  ◌>>=◌, if◌then◌else◌, Bool-cases, Result-cases, inl, inr,
}
use payments_data_platform.Elt.Load.{snapshot_full, snapshot_window}
use payments_data_platform.Elt.Runs.{StagedRow}
use payments_data_platform.Elt.Stage.{S3, stage_dataset}
use payments_data_platform.Ops.Text.{is_empty}
use payments_data_platform.Elt.Stage.Command
use payments_data_platform.Elt.Stage.Command.{
  StageArgs, Sources, Calendar, date_or_today, id_or_cli, stage_all, default_chunk_rows,
  stage_prefix,
}
use payments_data_platform.Elt.Tasks.{stage_payments, row_of, task_args, typed, staged_to_xcom}

-- The bounds of an extract and the type of snapshot that it is.
pub record Mode : Type 0 where
  pub after : Option String
  pub before : Option String
  pub kind : String

abbrev pub everything : Mode
everything = record { after = none; before = none; kind = snapshot_full }

-- A data interval that is not empty gives both its ends, and a delta; anything else the whole table.
abbrev pub mode : (ℕ → String) → Option ℕ → Option ℕ → Mode
mode strftime none end = everything
mode strftime (some a) none = everything
mode strftime (some a) (some b) =
    if ltb a b
    then record { after = some (strftime a); before = some (strftime b); kind = snapshot_window }
    else everything

module _ {R W : Type 0} (dumps : R → Result String String) (s3 : S3 W) (sources : Sources R)
    (cal : Calendar) (env : List (String × String)) (bucket : String) where
  -- One payments run of a mode, staged and described.
  abbrev pub staged_as : Mode → String → String → W → Result String (List StagedRow × W)
  staged_as m ds run_id w = date_or_today cal ds >>= λ run_date.
      stage_dataset dumps s3 bucket "payments" (Sources.payment_records sources m.after m.before)
        (id_or_cli cal run_id) run_date "raw" 100000 w
      >>= λ (s, v). ok (record (row_of s) { snapshot_type = m.kind } ∷ [], v)

  one_run :
      (b : Bool) (after before : Option String) (ds run_id : String) (w : W)
      → is_empty bucket ≡ false
      → (Command.main dumps s3 sources cal
            (record (task_args env bucket "payments" ds run_id) {
              updated_after = after;
              updated_before = before;
            })
            w
          >>= λ (staged, v). ok (map (typed b) (staged_to_xcom staged), v))
        ≡ staged_as
            (record {
              after = after;
              before = before;
              kind = if b then snapshot_window else snapshot_full;
            })
            ds
            run_id
            w
  unfolding Command.main stage_all
  one_run b after before ds run_id w named =
      let records = Sources.payment_records sources after before in
      elim (Result-cases (date_or_today cal ds)) [
        | inl (d, e) ↦
            elim (Result-cases (
              stage_dataset dumps s3 bucket "payments" records (id_or_cli cal run_id) d "raw" 100000
                w)) [
                  | inl (p, f) ↦ rw e (rw named (rw f refl))
                  | inr (x, f) ↦ rw e (rw named (rw f refl))
                ]
        | inr (x, e) ↦ rw e refl
      ]

  -- Whatever the data interval, the task stages the payments between the interval's ends and calls
  -- them a window if it has two ends and the first is before the second, and else stages all payments
  -- and calls them full: the bounds and the type never disagree. The bucket has a name.
  pub stage_payments-mode :
      (strftime : ℕ → String) (ds run_id : String) (start end : Option ℕ) (w : W)
      → is_empty bucket ≡ false
      → stage_payments dumps s3 sources cal env bucket strftime ds run_id start end w
        ≡ staged_as (mode strftime start end) ds run_id w
  unfolding stage_payments
  stage_payments-mode strftime ds run_id none end w named =
      one_run false none none ds run_id w named
  stage_payments-mode strftime ds run_id (some a) none w named =
      one_run false none none ds run_id w named
  stage_payments-mode strftime ds run_id (some a) (some b) w named = elim (Bool-cases (ltb a b)) [
    | inl proper ↦
        rw proper (one_run true (some (strftime a)) (some (strftime b)) ds run_id w named)
    | inr empty ↦ rw empty (one_run false none none ds run_id w named)
  ]
