-- ===== src/Airflow/Spark.antt =====
-- The Spark jobs of airflow/dags/spark_jobs.py and scripts/run_local_job.py: the command of a layer,
-- and the operator that each runtime gets. An operator is the arguments that the code gives it, but
-- for those that are the same for every layer.
pub mod Same
use payments_data_platform.Base.{
  ℕ, ◌+◌, String, Bool, true, false, Option, none, some, List, [], ◌∷◌, str_eq, leb, ◌==◌, ◌&&◌,
  ◌||◌, Result, ok, err, ◌>>=◌, if◌then◌else◌,
}
use Prim.Native.Char.{Char, code}
use payments_data_platform.Medallion.Settings.{env_get}
use payments_data_platform.Ops.Text.{strip, join}

abbrev pub spark_image : String
spark_image = "local/payments-spark:dev"

abbrev pub jobs_dir : String
jobs_dir = "/opt/project/config/spark/jobs"

abbrev pub iceberg_package : String
iceberg_package =
    "org.apache.iceberg:iceberg-spark-runtime-3.5_2.12:1.6.1,org.apache.iceberg:iceberg-aws-bundle:1.6.1,org.apache.hadoop:hadoop-aws:3.3.4"

abbrev pub kafka_package : String
kafka_package = "org.apache.spark:spark-sql-kafka-0-10_2.12:3.5.8"

abbrev pub spark_master : String
spark_master = "local[2]"

abbrev pub driver_memory : String
driver_memory = "1g"

pub record Job : Type 0 where
  pub script : String
  pub packages : String

abbrev pub jobs : List (String × Job)
jobs =
    (
      "bronze",
      record {
        script = "bronze_from_kafka.py";
        packages = join "," (kafka_package ∷ iceberg_package ∷ []);
      },
    )
    ∷ ("silver", record { script = "silver_payments.py"; packages = iceberg_package })
    ∷ ("gold", record { script = "gold_metrics.py"; packages = iceberg_package })
    ∷ []

unfoldable pub find_job : String → List (String × Job) → Option Job
find_job layer [] = none
find_job layer ((name, job) ∷ rest) = if str_eq name layer then some job else find_job layer rest

abbrev pub key_or : Option Job → String → Result String Job
key_or none layer = err layer
key_or (some job) layer = ok job

-- A KeyError holds the missing key.
unfoldable pub spark_submit_argv : String → Result String (List String)
unfolding find_job join
spark_submit_argv layer = key_or (find_job layer jobs) layer >>= λ job. ok (
    "/opt/spark/bin/spark-submit"
    ∷ "--master"
    ∷ spark_master
    ∷ "--driver-memory"
    ∷ driver_memory
    ∷ "--conf"
    ∷ "spark.jars.ivy=/tmp/.ivy2"
    ∷ "--packages"
    ∷ Job.packages job
    ∷ join "" (jobs_dir ∷ "/" ∷ Job.script job ∷ [])
    ∷ [])

-- A character that `lower()` makes a small ASCII letter: that letter, its capital, or the Kelvin sign.
abbrev pub lowers_to : Char → Char → Bool
lowers_to c d =
    code c == code d
    || (leb 65 (code c) && leb (code c) 90 && code c + 32 == code d)
    || (code c == 8490 && code d == 107)

-- `s.lower() == word` for a word of small letters.
unfoldable pub lower_is : String → String → Bool
lower_is String.[] String.[] = true
lower_is String.[] (String.◌∷◌ d w) = false
lower_is (String.◌∷◌ c s) String.[] = false
lower_is (String.◌∷◌ c s) (String.◌∷◌ d w) = lowers_to c d && lower_is s w

-- `runtime() == name`
unfoldable pub runtime_is : List (String × String) → String → Bool
unfolding env_get strip lower_is
runtime_is env name = lower_is (strip (env_get env "PIPELINE_RUNTIME" "compose")) name

pub data Operator : Type 0 where
  pod : String → String → String → List String → Operator
  bash : String → String → Operator

abbrev pub pod_of : String → String → Result String (List String) → Result String Operator
pod_of task_id layer (err e) = err e
pod_of task_id layer (ok cmds) = ok (pod task_id (join "-" ("spark" ∷ layer ∷ [])) spark_image cmds)

unfoldable pub kubernetes_operator : String → String → Result String Operator
unfolding spark_submit_argv join
kubernetes_operator task_id layer = pod_of task_id layer (spark_submit_argv layer)

abbrev pub task_of : Option Job → List (String × String) → String → String → Result String Operator
task_of none env task_id layer = err (join "" ("unknown Spark layer: " ∷ layer ∷ []))
task_of (some job) env task_id layer =
    if runtime_is env "kubernetes"
    then kubernetes_operator task_id layer
    else ok (bash task_id (join "" ("python /opt/airflow/scripts/run_local_job.py " ∷ layer ∷ [])))

unfoldable pub spark_task : List (String × String) → String → String → Result String Operator
unfolding find_job runtime_is kubernetes_operator join
spark_task env task_id layer = task_of (find_job layer jobs) env task_id layer

-- `JOB_SCRIPTS` of run_local_job.py.
abbrev pub iceberg : String
iceberg =
    "org.apache.iceberg:iceberg-spark-runtime-3.5_2.12:1.6.1,org.apache.iceberg:iceberg-aws-bundle:1.6.1,org.apache.hadoop:hadoop-aws:3.3.4"

abbrev pub kafka : String
kafka = "org.apache.spark:spark-sql-kafka-0-10_2.12:3.5.8"

abbrev pub job_scripts : List (String × Job)
job_scripts =
    (
      "bronze",
      record { script = "bronze_from_kafka.py"; packages = join "," (kafka ∷ iceberg ∷ []) },
    )
    ∷ ("silver", record { script = "silver_payments.py"; packages = iceberg })
    ∷ ("gold", record { script = "gold_metrics.py"; packages = iceberg })
    ∷ []

unfoldable pub submit_command : String → Result String String
unfolding find_job join
submit_command job_name = key_or (find_job job_name job_scripts) job_name >>= λ job. ok (
    join "" (
      "docker exec dp-spark /opt/spark/bin/spark-submit --master "
      ∷ "local[2]"
      ∷ " --driver-memory "
      ∷ "1g"
      ∷ " --conf spark.jars.ivy=/tmp/.ivy2 --packages "
      ∷ Job.packages job
      ∷ " "
      ∷ "/opt/project/config/spark/jobs"
      ∷ "/"
      ∷ Job.script job
      ∷ []))

-- `main` of run_local_job.py, of the shell's outcome for a command.
abbrev pub run_found :
    Option Job
    → (String → Result String (Unit {0}))
    → Result String String
    → String
    → Result String (Unit {0})
run_found none shell command job_name = err (join "" ("Unsupported job: " ∷ job_name ∷ []))
run_found (some job) shell (err e) job_name = err e
run_found (some job) shell (ok command) job_name = shell command

unfoldable pub run_local_job :
    (String → Result String (Unit {0})) → String → Result String (Unit {0})
unfolding find_job submit_command join
run_local_job shell job_name =
    run_found (find_job job_name job_scripts) shell (submit_command job_name) job_name
