-- ===== src/Ops/Catalog.antt =====
-- The bootstrap of the Iceberg REST catalog (scripts/init_iceberg_catalog.py). The HTTP session is a
-- parameter that carries the server's state. Of a JSON answer the model has the keys that the script
-- reads.
pub mod Actions
pub mod Registered
use payments_data_platform.Base.{
  ℕ, String, Bool, true, false, not, Option, none, some, List, [], ◌∷◌, any, leb, ltb, opt_eq, ◌==◌,
  ◌||◌, Result, ok, err, if◌then◌else◌,
}
use payments_data_platform.Medallion.Settings.{env_get}
use payments_data_platform.Ops.Text.{is_empty, join}
use Prim.Native.Char.{Char, code}

-- What is raised: the ValueError of a setting, the request's exception, `raise_for_status`, `json()`,
-- and the RuntimeErrors of `create_warehouse`, `disable_remote_signing` and `main`.
pub data CatalogError : Type 0 where
  must_be_set : String → CatalogError
  request_exception : CatalogError
  bad_status : ℕ → CatalogError
  no_json : CatalogError
  creation_failed : ℕ → CatalogError
  signing_not_disabled : ℕ → CatalogError
  not_found : String → CatalogError

pub record CatalogSettings : Type 0 where
  pub rest_url : String
  pub warehouse : String
  pub bucket : String
  pub endpoint : String
  pub region : String
  pub access_key : String
  pub secret_key : String

abbrev pub catalog_defaults : List (String × String) → CatalogSettings
catalog_defaults env = record {
  rest_url = env_get env "ICEBERG_REST_URL" "http://iceberg-rest:8181";
  warehouse = env_get env "ICEBERG_WAREHOUSE" "payments";
  bucket = env_get env "S3_BUCKET" "warehouse";
  endpoint = env_get env "S3_ENDPOINT" "http://minio:9000";
  region = env_get env "S3_REGION" "us-east-1";
  access_key = env_get env "S3_ACCESS_KEY" "";
  secret_key = env_get env "S3_SECRET_KEY" "";
}

unfoldable pub settings : List (String × String) → Result CatalogError CatalogSettings
unfolding env_get
settings env =
    let resolved = catalog_defaults env in
    if is_empty resolved.access_key
    then err (must_be_set "S3_ACCESS_KEY")
    else if is_empty resolved.secret_key
    then err (must_be_set "S3_SECRET_KEY")
    else ok resolved

pub record StorageProfile : Type 0 where
  pub kind : String
  pub bucket : String
  pub key_prefix : String
  pub endpoint : String
  pub region : String
  pub path_style_access : Bool
  pub flavor : String
  pub sts_enabled : Bool
  pub remote_signing_enabled : Bool

pub record StorageCredential : Type 0 where
  pub kind : String
  pub credential_type : String
  pub access_key_id : String
  pub secret_access_key : String

pub record WarehousePayload : Type 0 where
  pub warehouse_name : String
  pub storage_profile : StorageProfile
  pub storage_credential : StorageCredential

unfoldable pub warehouse_payload : CatalogSettings → WarehousePayload
warehouse_payload resolved = record {
  warehouse_name = resolved.warehouse;
  storage_profile = record {
    kind = "s3";
    bucket = resolved.bucket;
    key_prefix = "iceberg";
    endpoint = resolved.endpoint;
    region = resolved.region;
    path_style_access = true;
    flavor = "s3-compat";
    sts_enabled = false;
    remote_signing_enabled = false;
  };
  storage_credential = record {
    kind = "s3";
    credential_type = "access-key";
    access_key_id = resolved.access_key;
    secret_access_key = resolved.secret_key;
  };
}

pub record Warehouse : Type 0 where
  pub name : Option String
  pub id : Option String

-- `bootstrapped` is kept by its truth, and absent keys are false and empty.
pub record Answer : Type 0 where
  pub bootstrapped : Bool
  pub warehouses : List Warehouse

-- A status and the body's JSON (`none` for a body that is no JSON), or an exception.
pub data Reply : Type 0 where
  response : ℕ → Option Answer → Reply
  exception : Reply

-- The JSON that a POST sends.
pub data Body : Type 0 where
  accept_terms : Body
  new_warehouse : WarehousePayload → Body
  storage : StorageProfile → StorageCredential → Body

pub record Session (S : Type 0) : Type 0 where
  pub get : String → S → Reply × S
  pub post : String → Body → S → Reply × S

-- `rstrip("/")`
abbrev pub before_slashes : Char → String → String
before_slashes c String.[] = if code c == 47 then "" else String.◌∷◌ c ""
before_slashes c (String.◌∷◌ d s) = String.◌∷◌ c (String.◌∷◌ d s)

unfoldable pub rstrip_slash : String → String
rstrip_slash String.[] = ""
rstrip_slash (String.◌∷◌ c s) = before_slashes c (rstrip_slash s)

unfoldable pub info_url : String → String
unfolding join
info_url base = join "" (base ∷ "/management/v1/info" ∷ [])

unfoldable pub bootstrap_url : String → String
unfolding join
bootstrap_url base = join "" (base ∷ "/management/v1/bootstrap" ∷ [])

unfoldable pub warehouse_url : String → String
unfolding join
warehouse_url base = join "" (base ∷ "/management/v1/warehouse" ∷ [])

unfoldable pub storage_url : String → String → String
unfolding join
storage_url base id = join "" (base ∷ "/management/v1/warehouse/" ∷ id ∷ "/storage" ∷ [])

-- `raise_for_status()` and `json()`.
unfoldable pub json_of : Reply → Result CatalogError Answer
json_of exception = err request_exception
json_of (response status none) = if leb 400 status then err (bad_status status) else err no_json
json_of (response status (some answer)) =
    if leb 400 status then err (bad_status status) else ok answer

-- The `id` of the first warehouse of a name.
unfoldable pub id_of : String → List Warehouse → Option String
id_of name [] = none
id_of name (w ∷ ws) = if opt_eq w.name (some name) then w.id else id_of name ws
