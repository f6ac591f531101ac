-- ===== src/Airflow/Tests.antt =====
-- The theorems on the Spark jobs at concrete inputs.
use payments_data_platform.Base.{◌≡◌, ok, ◌>>=◌}
use payments_data_platform.Airflow.Spark.{submit_command, spark_submit_argv}
use payments_data_platform.Airflow.Spark.Same.{in_container, submit_command-argv}

submit_command-argv_example :
    submit_command "silver" ≡ (spark_submit_argv "silver" >>= λ argv. ok (in_container argv))
submit_command-argv_example = submit_command-argv "silver"
