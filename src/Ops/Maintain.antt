-- ===== src/Ops/Maintain.antt =====
-- The maintenance of the Iceberg tables (scripts/maintain_iceberg.py), and the checks that the tables
-- and the validation queries run (scripts/publish_trino_tables.py, scripts/validate_trino.py).
use payments_data_platform.Base.{
  ℕ, ◌≡◌, String, not, none, some, List, [], ◌∷◌, filter, Result, ok, err,
}
use payments_data_platform.Base.Order.{text_lt}
use payments_data_platform.Base.Sort.{sorted}
use payments_data_platform.Medallion.Rules.{contains}
use payments_data_platform.Ops.Text.{join}
use payments_data_platform.Ops.Trino.{
  Failure, Session, Outcome, run_statement, run_statements, run_script,
}
use payments_data_platform.Ops.Trino.Runs.{Progresses, RunsAll, run_statements-RunsAll}

abbrev pub managed_tables : List String
managed_tables =
    "iceberg.analytics.payments_bronze" ∷ "iceberg.analytics.payments_silver"
    ∷ "iceberg.analytics.payment_metrics_gold" ∷ []

abbrev pub default_retention : String
default_retention = "7d"

unfoldable pub optimize_sql : String → String
unfolding join
optimize_sql table = join "" ("ALTER TABLE " ∷ table ∷ " EXECUTE optimize" ∷ [])

unfoldable pub expire_snapshots_sql : String → String → String
unfolding join
expire_snapshots_sql table retention = join "" (
    "ALTER TABLE " ∷ table ∷ " EXECUTE expire_snapshots(retention_threshold => '" ∷ retention ∷ "')"
    ∷ [])

unfoldable pub remove_orphan_files_sql : String → String → String
unfolding join
remove_orphan_files_sql table retention = join "" (
    "ALTER TABLE " ∷ table ∷ " EXECUTE remove_orphan_files(retention_threshold => '" ∷ retention
    ∷ "')" ∷ [])

unfoldable pub maintenance_statements : List String → String → List String
unfolding optimize_sql expire_snapshots_sql remove_orphan_files_sql
maintenance_statements [] retention = []
maintenance_statements (table ∷ tables) retention =
    optimize_sql table
    ∷ expire_snapshots_sql table retention
    ∷ remove_orphan_files_sql table retention
    ∷ maintenance_statements tables retention

abbrev pub expected_tables : List String
expected_tables = "payments_bronze" ∷ "payments_silver" ∷ "payment_metrics_gold" ∷ []

-- `str(row[0])` of the rows that are not empty.
abbrev pub first_cells : List (List String) → List String
first_cells [] = []
first_cells ([] ∷ rows) = first_cells rows
first_cells ((cell ∷ cells) ∷ rows) = cell ∷ first_cells rows

-- `EXPECTED_TABLES - present`, sorted as the message shows it.
unfoldable pub missing_tables : List (List String) → List String
unfolding contains sorted text_lt
missing_tables rows =
    sorted text_lt (filter (λ t. not (contains (first_cells rows) t)) expected_tables)

-- The end of `main` of publish_trino_tables.py.
pub data Published : Type 0 where
  all_visible : Published
  tables_missing : List String → Published

abbrev pub published_of : List String → Published
published_of [] = all_visible
published_of (t ∷ ts) = tables_missing (t ∷ ts)

module _ {S : Type 0} where
  abbrev pub verified : Outcome S (List (List String)) → Outcome S Published
  verified (some (ok rows), s) = (some (ok (published_of (missing_tables rows))), s)
  verified (some (err e), s) = (some (err e), s)
  verified (none, s) = (none, s)

  module _ (http : Session S (List String)) (fuel : ℕ) (env : List (String × String)) where
    -- `main` of maintain_iceberg.py.
    pub maintain : S → Outcome S (Unit {0})
    unfolding maintenance_statements
    maintain s =
        run_statements http fuel (maintenance_statements managed_tables default_retention) env s

    pub publish : S → Outcome S Published
    unfolding missing_tables
    publish s = verified (run_statement http fuel "SHOW TABLES IN iceberg.analytics" env s)

    -- `main` of validate_trino.py, of the text of the queries.
    pub validate_trino : String → S → Outcome S (Unit {0})
    validate_trino queries s = run_script http fuel queries env s

-- On a server that brings every statement to its end, the maintenance runs its statements in order,
-- for each table the compaction, then the expiry, then the removal, up to the first that fails.
pub maintain-RunsAll :
    {S : Type 0} (http : Session S (List String)) (left : S → ℕ) (bound : ℕ)
    (progress : Progresses http left bound) (env : List (String × String)) (s : S)
    → (r : Result Failure (Unit {0})) × (s' : S) × (maintain http bound env s ≡ (some r, s'))
      × RunsAll http env (maintenance_statements managed_tables default_retention) s r s'
unfolding maintain
maintain-RunsAll http left bound progress env s =
    run_statements-RunsAll http left bound progress
      (maintenance_statements managed_tables default_retention) env s
