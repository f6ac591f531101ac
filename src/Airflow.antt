-- ===== src/Airflow.antt =====
-- What the DAGs share (airflow/dags/spark_jobs.py, airflow/dags/alerts.py).
pub mod Spark
pub mod Alerts
mod Tests
