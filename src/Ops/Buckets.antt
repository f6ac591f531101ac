-- ===== src/Ops/Buckets.antt =====
-- The buckets that the pipeline writes into (scripts/init_object_store.py). The S3 client is a
-- parameter that carries the store's state; an exception is its class's name.
pub mod Ensured
use payments_data_platform.Base.{
  ◌≡◌, refl, sym, ◌∙◌, ap, ◌⊎◌, inl, inr, String, Bool, true, false, not, List, [], ◌∷◌, All,
  str_eq, ◌||◌, ◌&&◌, Result, ok, err, if◌then◌else◌, Bool-cases, arith,
}
use payments_data_platform.Medallion.Settings.{env_get}
use payments_data_platform.Medallion.Rules.{contains}
use payments_data_platform.Ops.Text.{is_empty, starts_with}

pub data StoreError : Type 0 where
  must_be_set : String → StoreError
  no_scheme : String → StoreError
  raised : String → StoreError

pub record StoreSettings : Type 0 where
  pub endpoint : String
  pub region : String
  pub access_key : String
  pub secret_key : String

abbrev pub store_defaults : List (String × String) → StoreSettings
store_defaults env = record {
  endpoint = env_get env "S3_ENDPOINT" "http://minio:9000";
  region = env_get env "S3_REGION" "us-east-1";
  access_key = env_get env "S3_ACCESS_KEY" "";
  secret_key = env_get env "S3_SECRET_KEY" "";
}

abbrev pub buckets : List String
buckets = "warehouse" ∷ "checkpoints" ∷ []

unfoldable pub settings : List (String × String) → Result StoreError StoreSettings
unfolding env_get starts_with
settings env =
    let resolved = store_defaults env in
    if is_empty resolved.access_key
    then err (must_be_set "S3_ACCESS_KEY")
    else if is_empty resolved.secret_key
    then err (must_be_set "S3_SECRET_KEY")
    else if not
        (starts_with "http://" resolved.endpoint || starts_with "https://" resolved.endpoint)
    then err (no_scheme resolved.endpoint)
    else ok resolved

-- `client.create_bucket(Bucket=...)`: nothing, or the exception's class.
pub record Client (S : Type 0) : Type 0 where
  pub create_bucket : String → S → Result String (Unit {0}) × S

abbrev pub already_there : List String
already_there = "BucketAlreadyOwnedByYou" ∷ "BucketAlreadyExists" ∷ []

module _ {S : Type 0} where
  abbrev pub made : Result String (Unit {0}) × S → Result StoreError Bool × S
  made (ok u, s) = (ok true, s)
  made (err name, s) = if contains already_there name then (ok false, s) else (err (raised name), s)

  abbrev pub then_make :
      Result StoreError Bool × S
      → (S → Result StoreError (Unit {0}) × S)
      → Result StoreError (Unit {0}) × S
  then_make (ok created, s) rest = rest s
  then_make (err e, s) rest = (err e, s)

  module _ (client : Client S) where
    unfoldable pub make_bucket : String → S → Result StoreError Bool × S
    unfolding contains
    make_bucket bucket s = made (Client.create_bucket client bucket s)

    unfoldable pub make_buckets : List String → S → Result StoreError (Unit {0}) × S
    unfolding make_bucket
    make_buckets [] s = (ok tt, s)
    make_buckets (b ∷ bs) s = then_make (make_bucket b s) (λ s'. make_buckets bs s')

  abbrev pub with_settings :
      Result StoreError StoreSettings
      → (StoreSettings → Client S)
      → S
      → Result StoreError (Unit {0}) × S
  with_settings (err e) connect s = (err e, s)
  with_settings (ok resolved) connect s = make_buckets (connect resolved) buckets s

  -- `main`, with the client that boto3 makes of the settings.
  unfoldable pub main :
      List (String × String) → (StoreSettings → Client S) → S → Result StoreError (Unit {0}) × S
  unfolding settings make_buckets
  main env connect s = with_settings (settings env) connect s
