-- ===== src/Elt/Load/Command.antt =====
-- `connect_from_env` and `main` of snowflake_etl/src/load_to_snowflake.py, of the arguments as argparse
-- gives them. The driver, the user's home and the parsing of an ISO date are parameters; what is
-- printed stands beside the warehouse.
use payments_data_platform.Base.{
  String, Bool, false, List, [], ◌∷◌, str_eq, Result, ok, err, ◌>>=◌, if◌then◌else◌,
}
use payments_data_platform.Medallion.Settings.{env_get}
use payments_data_platform.Ops.Text.{is_empty, join}
use payments_data_platform.Elt.Load.{
  Texts, Connection, load_dataset, bootstrap_raw_objects, create_raw_table_sql, copy_into_sql,
  create_snapshot_runs_sql, raw_tables, default_prefix, snapshot_runs_table,
}

pub data Auth : Type 0 where
  private_key_file : String → Auth
  password : String → Auth

pub record ConnectArgs : Type 0 where
  pub account : String
  pub user : String
  pub role : String
  pub warehouse : String
  pub database : String
  pub schema : String
  pub auth : Auth

-- `os.environ[name]`: the KeyError holds the name.
unfoldable pub env_required : List (String × String) → String → Result String String
env_required [] name = err name
env_required ((n, v) ∷ env) name = if str_eq n name then ok v else env_required env name

abbrev pub auth_of : (String → String) → List (String × String) → Result String Auth
auth_of expanduser env =
    let path = env_get env "SNOWFLAKE_PRIVATE_KEY_PATH" "" in
    if is_empty path
    then (env_required env "SNOWFLAKE_PASSWORD" >>= λ p. ok (password p))
    else ok (private_key_file (expanduser path))

-- What the driver is called with.
unfoldable pub connect_args : (String → String) → List (String × String) → Result String ConnectArgs
unfolding env_get env_required
connect_args expanduser env = auth_of expanduser env >>= λ auth.
    env_required env "SNOWFLAKE_ACCOUNT" >>= λ account.
    env_required env "SNOWFLAKE_USER" >>= λ user. ok (record {
      account = account;
      user = user;
      role = env_get env "SNOWFLAKE_ROLE" "PAYMENTS_ETL_ROLE";
      warehouse = env_get env "SNOWFLAKE_WAREHOUSE" "PAYMENTS_WH";
      database = env_get env "SNOWFLAKE_DATABASE" "PAYMENTS";
      schema = env_get env "SNOWFLAKE_SCHEMA" "RAW";
      auth = auth;
    })

-- `run_date` has today's date where the option is not given.
pub record LoadArgs : Type 0 where
  pub stage : String
  pub run_date : String
  pub tables : List (String × String)
  pub bootstrap : Bool
  pub dry_run : Bool

-- The defaults of the options: all datasets, in their order.
abbrev pub load_defaults : List (String × String) → String → LoadArgs
load_defaults env today = record {
  stage = env_get env "SNOWFLAKE_STAGE" "PAYMENTS_LAKE_STAGE";
  run_date = today;
  tables = raw_tables;
  bootstrap = false;
  dry_run = false;
}

-- The lines that a dry run prints.
unfoldable pub dry_lines : String → String → List (String × String) → List String
unfolding create_raw_table_sql copy_into_sql create_snapshot_runs_sql join
dry_lines stage run_date [] = join "" (create_snapshot_runs_sql snapshot_runs_table ∷ ";" ∷ []) ∷ []
dry_lines stage run_date ((dataset, table) ∷ tables) =
    join "" ("-- " ∷ dataset ∷ " -> " ∷ table ∷ [])
    ∷ join "" (create_raw_table_sql table ∷ ";" ∷ [])
    ∷ join "" (copy_into_sql table stage dataset run_date default_prefix ∷ ";\n" ∷ [])
    ∷ dry_lines stage run_date tables

module _ {W : Type 0} (k : Texts) (connect : ConnectArgs → Result String (Connection W)) where
  -- The loop over the datasets, each with its landing table.
  unfoldable pub load_all :
      Connection W → String → String → List (String × String) → W → Result String W
  unfolding load_dataset
  load_all c stage run_date [] w = ok w
  load_all c stage run_date ((dataset, table) ∷ tables) w =
      load_dataset k c table stage dataset run_date default_prefix w >>= λ (outcome, v).
      load_all c stage run_date tables v

  unfoldable pub main :
      (String → Result String String)
      → (String → String)
      → List (String × String)
      → LoadArgs
      → W
      → Result String (List String × W)
  unfolding connect_args bootstrap_raw_objects dry_lines load_all
  main fromisoformat expanduser env args w = fromisoformat args.run_date >>= λ run_date.
      if args.dry_run
      then ok (dry_lines args.stage run_date args.tables, w)
      else (connect_args expanduser env >>= λ settings. connect settings >>= λ c.
          (if args.bootstrap
            then bootstrap_raw_objects k c snapshot_runs_table w
            else load_all c args.stage run_date args.tables w)
          >>= λ v. ok ([], v))
