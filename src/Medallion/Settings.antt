-- ===== src/Medallion/Settings.antt =====
-- Where the jobs read and write (config/spark/jobs/common.py): the settings that an environment
-- gives, the configuration of the session builder, and the checkpoint's path.
use payments_data_platform.Base.{
  ◌≡◌, refl, String, Option, none, some, List, [], ◌∷◌, str_eq, if◌then◌else◌,
}
use Prim.Native.String.{◌++◌}

-- `source.get(name, default)` on the environment.
unfoldable pub env_get : List (String × String) → String → String → String
env_get [] name default = default
env_get ((n, v) ∷ env) name default = if str_eq n name then v else env_get env name default

pub record IcebergSettings : Type 0 where
  pub uri : String
  pub warehouse : String
  pub s3_endpoint : String
  pub s3_region : String
  pub vectorization : String

abbrev pub iceberg_catalog : String
iceberg_catalog = "iceberg"

pub iceberg_settings : List (String × String) → IcebergSettings
unfolding env_get
iceberg_settings env = record {
  uri = env_get env "ICEBERG_REST_URI" "http://iceberg-rest:8181/catalog";
  warehouse = env_get env "ICEBERG_WAREHOUSE" "payments";
  s3_endpoint = env_get env "S3_ENDPOINT" "http://minio:9000";
  s3_region = env_get env "S3_REGION" "us-east-1";
  vectorization = env_get env "ICEBERG_VECTORIZATION" "false";
}

-- The `config` calls on the builder, in their order.
pub configure_iceberg : List (String × String) → List (String × String)
unfolding iceberg_settings
configure_iceberg env =
    let s = iceberg_settings env in
    let prefix = "spark.sql.catalog." ++ iceberg_catalog in
    ("spark.sql.extensions", "org.apache.iceberg.spark.extensions.IcebergSparkSessionExtensions")
    ∷ (prefix, "org.apache.iceberg.spark.SparkCatalog")
    ∷ (prefix ++ ".type", "rest")
    ∷ (prefix ++ ".uri", s.uri)
    ∷ (prefix ++ ".warehouse", s.warehouse)
    ∷ (prefix ++ ".io-impl", "org.apache.iceberg.aws.s3.S3FileIO")
    ∷ (prefix ++ ".s3.endpoint", s.s3_endpoint)
    ∷ (prefix ++ ".s3.path-style-access", "true")
    ∷ (prefix ++ ".s3.remote-signing-enabled", "false")
    ∷ (prefix ++ ".client.region", s.s3_region)
    ∷ ("spark.sql.iceberg.vectorization.enabled", s.vectorization)
    ∷ ("spark.hadoop.fs.s3a.endpoint", s.s3_endpoint)
    ∷ ("spark.hadoop.fs.s3a.path.style.access", "true")
    ∷ ("spark.hadoop.fs.s3a.connection.ssl.enabled", "false")
    ∷ []

pub checkpoint_path : String → List (String × String) → String
unfolding env_get
checkpoint_path layer env =
    "s3a://" ++ env_get env "S3_CHECKPOINT_BUCKET" "checkpoints" ++ "/" ++ layer

-- The value that a builder has under a key: the last `config` call with it.
abbrev pub later : Option String → Option String → Option String
later none first = first
later (some v) first = some v

pub conf : String → List (String × String) → Option String
conf name [] = none
conf name ((n, v) ∷ cs) = later (conf name cs) (if str_eq n name then some v else none)

-- Whatever the environment, the catalog's own S3 client and the connector that writes the checkpoints
-- are sent to one endpoint, remote signing is off, and vectorized reads are off unless the environment
-- says otherwise.
pub configure_iceberg-endpoints :
    (env : List (String × String))
    → (conf "spark.sql.catalog.iceberg.s3.endpoint" (configure_iceberg env)
        ≡ conf "spark.hadoop.fs.s3a.endpoint" (configure_iceberg env))
      × (conf "spark.sql.catalog.iceberg.s3.remote-signing-enabled" (configure_iceberg env)
          ≡ some "false")
      × (conf "spark.sql.iceberg.vectorization.enabled" (configure_iceberg env)
          ≡ some (env_get env "ICEBERG_VECTORIZATION" "false"))
unfolding configure_iceberg conf
configure_iceberg-endpoints env = (refl, refl, refl)
