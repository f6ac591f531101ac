-- ===== src/Elt/Stage/Command.antt =====
-- `main` of snowflake_etl/src/stage_to_s3.py, of the arguments as argparse gives them. The sources,
-- the clock and the parsing of an ISO date are parameters.
use payments_data_platform.Base.{
  ℕ, String, Bool, false, Option, none, some, List, [], ◌∷◌, str_eq, Result, ok, err, ◌>>=◌,
  if◌then◌else◌,
}
use payments_data_platform.Medallion.Settings.{env_get}
use payments_data_platform.Ops.Text.{is_empty}
use payments_data_platform.Elt.Stage.{S3, StagedSnapshot, iter_jsonl_chunks, Yields, stage_dataset}

abbrev pub default_chunk_rows : ℕ
default_chunk_rows = 100000

abbrev pub stage_prefix : String
stage_prefix = "raw"

pub record StageArgs : Type 0 where
  pub bucket : String
  pub datasets : List String
  pub run_date : String
  pub updated_after : Option String
  pub updated_before : Option String
  pub run_id : String
  pub chunk_rows : ℕ
  pub dry_run : Bool

-- The defaults; an empty text stands for a None that the code tests by its truth.
abbrev pub stage_defaults : List (String × String) → StageArgs
stage_defaults env = record {
  bucket = env_get env "SNOWFLAKE_LAKE_BUCKET" "";
  datasets = "fx_rates" ∷ "payments" ∷ [];
  run_date = "";
  updated_after = none;
  updated_before = none;
  run_id = "";
  chunk_rows = default_chunk_rows;
  dry_run = false;
}

-- `_fx_records` and `_payment_records`.
pub record Sources (R : Type 0) : Type 0 where
  pub fx_records : List R
  pub payment_records : Option String → Option String → List R

-- `date.fromisoformat`, today, and the id that the command line makes up.
pub record Calendar : Type 0 where
  pub fromisoformat : String → Result String String
  pub today : String
  pub cli_run_id : String

abbrev pub date_or_today : Calendar → String → Result String String
date_or_today cal d = if is_empty d then ok cal.today else Calendar.fromisoformat cal d

abbrev pub id_or_cli : Calendar → String → String
id_or_cli cal id = if is_empty id then cal.cli_run_id else id

module _ {R W : Type 0} (dumps : R → Result String String) (s3 : S3 W) (sources : Sources R) where
  -- The change window applies to payments only.
  abbrev pub records_for : StageArgs → String → List R
  records_for args name =
      if str_eq name "payments"
      then Sources.payment_records sources args.updated_after args.updated_before
      else Sources.fx_records sources

  unfoldable pub stage_all :
      StageArgs → String → String → List String → W → Result String (List StagedSnapshot × W)
  stage_all args run_id run_date [] w = ok ([], w)
  stage_all args run_id run_date (name ∷ names) w =
      stage_dataset dumps s3 args.bucket name (records_for args name) run_id run_date stage_prefix
        args.chunk_rows w
      >>= λ (s, v). stage_all args run_id run_date names v >>= λ (ss, u). ok (s ∷ ss, u)

  -- A dry run renders every chunk and writes nothing.
  unfoldable pub preview_all : StageArgs → List String → Result String (Unit {0})
  preview_all args [] = ok tt
  preview_all args (name ∷ names) =
      Yields.ending (iter_jsonl_chunks dumps args.chunk_rows (records_for args name)) >>= λ u.
      preview_all args names

  unfoldable pub main : Calendar → StageArgs → W → Result String (Option (List StagedSnapshot) × W)
  unfolding stage_all preview_all
  main cal args w = date_or_today cal args.run_date >>= λ run_date.
      if args.dry_run
      then (preview_all args args.datasets >>= λ u. ok (none, w))
      else if is_empty args.bucket
      then err "--bucket (or SNOWFLAKE_LAKE_BUCKET) is required when not in --dry-run"
      else (stage_all args (id_or_cli cal args.run_id) run_date args.datasets w >>= λ (ss, v).
          ok (some ss, v))
