-- ===== src/Ops/SetupTests.antt =====
-- The theorems on the set-up scripts and the manifest checks at concrete inputs.
use payments_data_platform.Base.{
  ◌≡◌, refl, ◌↔◌, inl, inr, String, Bool, true, false, Option, none, some, List, [], ◌∷◌, map,
  str_eq, any, opt_eq, Result, ok, err, ◌||◌, if◌then◌else◌, eq_iff, Bool-cases,
}
use payments_data_platform.Medallion.Settings.{env_get}
use payments_data_platform.Medallion.Rules.{contains}
use payments_data_platform.Ops.Text.{contains_text}
use payments_data_platform.Ops.Catalog
use payments_data_platform.Ops.Catalog.{
  CatalogSettings, StorageProfile, StorageCredential, WarehousePayload, Warehouse, Answer, Reply,
  response, Body, accept_terms, new_warehouse, storage, Session, id_of,
}
use payments_data_platform.Ops.Catalog.Actions
use payments_data_platform.Ops.Catalog.Registered.{Lakekeeper, Registered, main-Registered}
use payments_data_platform.Ops.Buckets
use payments_data_platform.Ops.Buckets.{Client, StoreSettings, already_there}
use payments_data_platform.Ops.Manifests.{K8sObject, is_object}
use payments_data_platform.Ops.Manifests.Validate.{
  validate, first_object, config_properties, find_trino_memory_config_gaps,
}
use payments_data_platform.Ops.Manifests.Conforms.{Conforms}
use payments_data_platform.Ops.Manifests.Conforms.Exact.{validate-Conforms}
use payments_data_platform.Ops.Manifests.Memory.{find_trino_memory_config_gaps-shadowed}

-- A catalog that keeps the names of its warehouses, which are their ids too, and the last profile.
pub record Kept : Type 0 where
  pub names : List String
  pub last_profile : Option StorageProfile

abbrev listed : Kept → List Warehouse
listed s = map (λ n. record { name = some n; id = some n }) s.names

abbrev empty_answer : Answer
empty_answer = record { bootstrapped = false; warehouses = [] }

abbrev take_body : Body → Kept → Reply × Kept
take_body accept_terms s = (response 409 none, s)
take_body (new_warehouse p) s = (response 201 none, record s { names = p.warehouse_name ∷ s.names })
take_body (storage profile credential) s =
    (response 200 none, record s { last_profile = some profile })

abbrev small_catalog : Session Kept
small_catalog = record {
  get = λ url s. (response 200 (some (record { bootstrapped = false; warehouses = listed s })), s);
  post = λ url body s. take_body body s;
}

listed-id :
    (name : String) (ns : List String)
    → any
        (λ w. opt_eq (Warehouse.name w) (some name))
        (map (λ n. record { name = some n; id = some n }) ns)
      ≡ true
    → (id : String) × (id_of name (map (λ n. record { name = some n; id = some n }) ns) ≡ some id)
unfolding id_of
listed-id name [] h = absurd (cc h)
listed-id name (n ∷ ns) h = elim (Bool-cases (str_eq n name)) [
  | inl same ↦ (n, rw same refl)
  | inr other ↦ let rest = listed-id name ns (rw other at h) in (rest.0, rw other rest.1)
]

name_first : (name : String) (b : Bool) → str_eq name name || b ≡ true
name_first name b = rw ((eq_iff name name).1 refl) refl

small_catalog-Lakekeeper :
    Lakekeeper small_catalog (λ s. false) listed (λ s id. Kept.last_profile s)
small_catalog-Lakekeeper = record {
  other_warehouses = listed;
  other_flag = λ s. false;
  info = λ base s. refl;
  start_status = λ s. 409;
  start_answer = λ s. none;
  start = λ base s. refl;
  start_accepted = λ s. inr (inr refl);
  listing = λ base s. refl;
  has_id = λ name s h. listed-id name (Kept.names s) h;
  creation_status = λ s. 201;
  creation_answer = λ s. none;
  storing_answer = λ s. none;
  creation = λ base payload s. refl;
  creation_accepted = λ s. inl refl;
  registers = λ base payload s. name_first (WarehousePayload.warehouse_name payload) (
      any (λ w. opt_eq (Warehouse.name w) (some (WarehousePayload.warehouse_name payload)))
        (listed s));
  storing = λ base id profile credential s. refl;
  stores = λ base id profile credential s. refl;
  keeps_listing = λ base id profile credential s. refl;
}

abbrev keys : List (String × String)
keys = ("S3_ACCESS_KEY", "a") ∷ ("S3_SECRET_KEY", "b") ∷ []

abbrev resolved : CatalogSettings
resolved = Catalog.catalog_defaults keys

abbrev nothing_kept : Kept
nothing_kept = record { names = []; last_profile = none }

main-Registered_example :
    (s' : Kept) × (Actions.main small_catalog keys nothing_kept ≡ (ok tt, s'))
    × Registered small_catalog small_catalog-Lakekeeper resolved s'
unfolding Catalog.settings
main-Registered_example =
    main-Registered small_catalog small_catalog-Lakekeeper keys resolved nothing_kept refl

-- A store that keeps its buckets' names.
abbrev is_there : List String → String → Bool
is_there s b = contains s b

abbrev create_in : Bool → String → List String → Result String (Unit {0}) × List String
create_in true b s = (err "BucketAlreadyOwnedByYou", s)
create_in false b s = (ok tt, b ∷ s)

abbrev small_store : Client (List String)
small_store = record { create_bucket = λ b s. create_in (contains s b) b s }

abbrev store_settings : StoreSettings
store_settings = Buckets.store_defaults keys

-- A configuration without query.max-memory.
abbrev trino_etc : K8sObject
trino_etc = record {
  kind = "ConfigMap";
  name = "trino-etc";
  namespace = some "data-pipeline";
  raw = record {
    kind = some "ConfigMap";
    name = some "trino-etc";
    namespace = some "data-pipeline";
    suspend = none;
    pod_spec = none;
    config =
        ("config.properties", "query.max-memory-per-node=1GB\nmemory.heap-headroom-per-node=1GB")
        ∷ [];
  };
}

abbrev one_object : List K8sObject
one_object = trino_etc ∷ []

validate-Conforms_example : (validate one_object ≡ []) ↔ Conforms one_object
validate-Conforms_example = validate-Conforms one_object

find_trino_memory_config_gaps-shadowed_example : find_trino_memory_config_gaps one_object ≡ (
    if contains_text "memory.heap-headroom-per-node" (config_properties trino_etc)
    then []
    else "ConfigMap/trino-etc:memory.heap-headroom-per-node" ∷ [])
unfolding first_object is_object contains_text env_get
find_trino_memory_config_gaps-shadowed_example =
    find_trino_memory_config_gaps-shadowed one_object trino_etc refl refl
