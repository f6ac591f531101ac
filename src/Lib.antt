-- ===== src/Lib.antt =====
-- Payments data platform: the serving API, the medallion jobs, the Snowflake ELT, the operating
-- scripts, the Databricks port and the Spark tasks of the DAG.
--
-- The platform carries the change feed of a payments database through three tables. The bronze job
-- appends Debezium envelopes; the silver job (config/spark/jobs/silver_payments.py) turns each
-- micro-batch into a change set and applies it to the current-state table by one MERGE
-- (config/spark/jobs/payment_rules.py); the gold job aggregates silver. The API (api/src) serves
-- gold through Trino with a cache that belongs to one Iceberg snapshot. Beside it the ELT
-- (snowflake_etl/src, airflow/dags/snowflake_fx_etl.py) stages extracts to S3, copies them into RAW
-- and records in RAW.SNAPSHOT_RUNS which runs are complete; only those are visible to dbt.
--
-- The files. Base: shared names, lists, orders, numbers and results. Api.Cache: `SnapshotCache` of
-- api/src/cache.py, a call being one step under its lock. Api.Queries: the statements of
-- api/src/queries.py with their bound values; Api.Queries.Meaning evaluates the conditions on a
-- row. Api.Pages: the rows that the engine selects, sorts by ORDER BY
-- and cuts, pages and cursors, and a client that follows them, on fuel: one unit more than
-- there are matching rows is enough. Api.Wire: the cursor codec of api/src/models.py. Api.App and
-- Api.Endpoints: `GoldRepository`, the metrics and the endpoints of api/src/app.py as actions on
-- the service's state. Medallion.Rules: the MERGE statements by what they do to the tables, branch
-- by branch in their order. Medallion.Silver: `_build_changes`, `_write_to_dlq` and
-- `_upsert_to_silver`, with `_validate_upserts` in Medallion.Validate; Medallion.Silver.Converge
-- runs the micro-batches; an engine's exception in a dead-letter MERGE ends the batch. Medallion.Bronze: masking, the append and the check for replayed offsets
-- of config/spark/jobs/bronze_from_kafka.py. Medallion.Gold: the aggregation of
-- config/spark/jobs/gold_metrics.py. Medallion.Settings: the settings of
-- config/spark/jobs/common.py. Elt.Extract and Elt.Rates: snowflake_etl/src/extract_payments.py and
-- snowflake_etl/src/extract_fx_rates.py; the request is retried by recursion on the attempts left,
-- which is the source's loop. Elt.Load: statements, COPY reports and reconciliation of
-- snowflake_etl/src/load_to_snowflake.py. Elt.Runs: the control table under `register_snapshot_run`
-- and `complete_snapshot_run`, and the tasks that call them. Elt.Stage: chunking, run ids, keys and
-- `stage_dataset` of snowflake_etl/src/stage_to_s3.py, and Elt.Stage.Command its `main`;
-- Elt.Load.Command is `main` of snowflake_etl/src/load_to_snowflake.py, and Elt.Tasks has the
-- staging tasks of airflow/dags/snowflake_fx_etl.py. Api.Connection: the settings and statements of
-- api/src/trino_client.py. Ops: the scripts. Ops.Trino is the client that they share
-- (scripts/trino_http.py), on an HTTP session that carries the server's state; its poll loop recurs
-- on the polls left, and a run that exhausts them has no result, which does not happen on a server
-- that brings every statement to its end within the bound. Ops.Acceptance:
-- scripts/acceptance_checks.py, each check with its statement and with what an engine counts on the
-- medallion's tables. Ops.Manifests: scripts/validate_k8s_manifests.py. Ops.Bundle:
-- scripts/validate_databricks_bundle.py on parsed YAML; Ops.Bench: scripts/bench_api.py.
-- Ops.Catalog and Ops.Buckets: the set-up of scripts/init_iceberg_catalog.py and
-- scripts/init_object_store.py. Ops.Schema, Ops.Connector and Ops.Maintain:
-- scripts/validate_schema.py, scripts/validate_connector.py, scripts/maintain_iceberg.py,
-- scripts/publish_trino_tables.py and scripts/validate_trino.py. Databricks.Seed and
-- Databricks.Pipeline: the seed of databricks/src/common.py and the queries and expectations of
-- databricks/src/dlt_pipeline.py; Databricks.Counts: databricks/src/validate_counts.py.
-- Airflow.Spark and Airflow.Alerts: airflow/dags/spark_jobs.py with scripts/run_local_job.py, and
-- airflow/dags/alerts.py. Ops.Text has Python's text methods that these use.
--
-- Amounts are in hundredths and times are counts on the native numbers; Python's integers have no
-- bound, so no wrap-around is written. Parameters are what the code calls and this repository does
-- not hold: Spark's column functions, the Trino and Snowflake connections, the S3 client, JSON,
-- base64, SHA-256, floating point, HTTP, YAML and ISO timestamps. Their records name the laws that a
-- theorem relies on. Where rows tie in the window of the silver job the engine may take any; the
-- model takes the first.
--
-- Not modelled: connections, argparse, pydantic's serializers, the HTML console, logging,
-- the objects in S3 that a failed staging run leaves behind, the wiring of the Airflow DAGs, the
-- table that the benchmark prints and the Trino exporter.
pub mod Base
pub mod Api
pub mod Medallion
pub mod Elt
pub mod Ops
pub mod Databricks
pub mod Airflow
