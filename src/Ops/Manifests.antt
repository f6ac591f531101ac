-- ===== src/Ops/Manifests.antt =====
-- The checks of scripts/validate_k8s_manifests.py on the rendered objects. A document is taken by the
-- parts that the checks read, a part being absent where one of the keys on the way to it is; kubectl
-- and the YAML parser are not modelled. An error is the list that its message shows, by its kind.
pub mod Validate
pub mod Conforms
pub mod Memory
use payments_data_platform.Base.{
  String, Bool, true, false, not, Option, none, some, List, [], ◌∷◌, ◌++◌, map, filter, any, opt_eq,
  str_eq, ◌&&◌, ◌||◌, Result, ok, err, ◌>>=◌, if◌then◌else◌,
}
use payments_data_platform.Base.Order.{text_lt}
use payments_data_platform.Base.Sort.{sorted}
use payments_data_platform.Medallion.Rules.{contains}
use payments_data_platform.Ops.Text.{contains_text, join}

-- `"subPath" in mount` is kept as a test.
pub record Mount : Type 0 where
  pub name : Option String
  pub has_sub_path : Bool

pub data Command : Type 0 where
  parts : List String → Command
  one_text : String → Command

-- The names of the entries of `env`, `none` for an entry without one.
pub record Container : Type 0 where
  pub name : Option String
  pub env : List (Option String)
  pub command : Command
  pub volume_mounts : List Mount

pub record PodSpec : Type 0 where
  pub init_containers : List Container
  pub containers : List Container

pub record Raw : Type 0 where
  pub kind : Option String
  pub name : Option String
  pub namespace : Option String
  pub suspend : Option Bool
  pub pod_spec : Option PodSpec
  pub config : List (String × String)

pub record K8sObject : Type 0 where
  pub kind : String
  pub name : String
  pub namespace : Option String
  pub raw : Raw

-- The KeyError of `document["kind"]` and `metadata["name"]`.
abbrev pub object_of : Option String → Option String → Raw → Result String K8sObject
object_of none name raw = err "kind"
object_of (some kind) none raw = err "name"
object_of (some kind) (some name) raw =
    ok record { kind = kind; name = name; namespace = raw.namespace; raw = raw }

-- `none` is an empty document.
unfoldable pub parse_objects : List (Option Raw) → Result String (List K8sObject)
parse_objects [] = ok []
parse_objects (none ∷ documents) = parse_objects documents
parse_objects (some raw ∷ documents) = object_of raw.kind raw.name raw >>= λ object.
    parse_objects documents >>= λ objects. ok (object ∷ objects)

abbrev pub required_objects : List (String × String)
required_objects =
    ("Namespace", "data-pipeline")
    ∷ ("StatefulSet", "postgres")
    ∷ ("StatefulSet", "catalog-db")
    ∷ ("StatefulSet", "kafka")
    ∷ ("Deployment", "trino")
    ∷ ("Deployment", "minio")
    ∷ ("Deployment", "iceberg-rest")
    ∷ ("Deployment", "kafka-connect")
    ∷ ("Deployment", "airflow-webserver")
    ∷ ("Deployment", "airflow-scheduler")
    ∷ ("Deployment", "api")
    ∷ ("Deployment", "prometheus")
    ∷ ("Deployment", "grafana")
    ∷ ("Job", "register-postgres-cdc")
    ∷ ("Job", "spark-bronze")
    ∷ ("Job", "spark-silver")
    ∷ ("Job", "spark-gold")
    ∷ []

-- `obj.kind == kind and obj.name == name`
unfoldable pub is_object : String → String → K8sObject → Bool
is_object kind name o = str_eq o.kind kind && str_eq o.name name

abbrev pub pair_lt : String × String → String × String → Bool
pair_lt a b = text_lt a.0 b.0 || (str_eq a.0 b.0 && text_lt a.1 b.1)

unfoldable pub find_missing_required : List K8sObject → List (String × String)
unfolding is_object sorted text_lt
find_missing_required objects =
    sorted pair_lt (filter (λ r. not (any (is_object r.0 r.1) objects)) required_objects)

abbrev pub template_jobs : List String
template_jobs =
    "register-postgres-cdc" ∷ "seed-demo-data" ∷ "spark-bronze" ∷ "spark-silver" ∷ "spark-gold" ∷ []

-- `is not True`
abbrev pub not_true : Option Bool → Bool
not_true none = true
not_true (some b) = not b

abbrev pub is_unsuspended : K8sObject → Bool
is_unsuspended o =
    str_eq o.kind "Job" && contains template_jobs o.name && not_true (Raw.suspend o.raw)

unfoldable pub find_unsuspended_template_jobs : List K8sObject → List String
unfolding contains sorted text_lt
find_unsuspended_template_jobs objects =
    sorted text_lt (map (λ o. K8sObject.name o) (filter is_unsuspended objects))

abbrev pub workload_kinds : List String
workload_kinds = "Deployment" ∷ "StatefulSet" ∷ "Job" ∷ []

abbrev pub is_namespace_gap : K8sObject → Bool
is_namespace_gap o =
    contains workload_kinds o.kind && not (opt_eq o.namespace (some "data-pipeline"))

abbrev pub object_label : K8sObject → String
object_label o = join "/" (o.kind ∷ o.name ∷ [])

unfoldable pub find_namespaced_workload_gaps : List K8sObject → List String
unfolding contains sorted text_lt join
find_namespaced_workload_gaps objects =
    sorted text_lt (map object_label (filter is_namespace_gap objects))

-- `"SERVICE_PRECONDITION" in _container_env_names(container)`
unfoldable pub has_env : String → List (Option String) → Bool
has_env name env = any (opt_eq (some name)) env

unfoldable pub container_command_text : Command → String
unfolding join
container_command_text (parts ps) = join "\n" ps
container_command_text (one_text s) = s

abbrev pub init_containers_of : Option PodSpec → List Container
init_containers_of none = []
init_containers_of (some p) = p.init_containers

abbrev pub containers_of : Option PodSpec → List Container
containers_of none = []
containers_of (some p) = p.containers

abbrev pub waits_for_migrations : K8sObject → Bool
waits_for_migrations o =
    any (λ c. opt_eq (Container.name c) (some "wait-for-airflow-migrations"))
      (init_containers_of (Raw.pod_spec o.raw))

abbrev pub is_migration_gap : K8sObject → Bool
is_migration_gap o =
    str_eq o.kind "Deployment"
    && contains ("airflow-webserver" ∷ "airflow-scheduler" ∷ []) o.name
    && not (waits_for_migrations o)

unfoldable pub find_airflow_migration_wait_gaps : List K8sObject → List String
unfolding contains sorted text_lt join
find_airflow_migration_wait_gaps objects =
    sorted text_lt
      (map (λ o. join "/" ("Deployment" ∷ K8sObject.name o ∷ [])) (filter is_migration_gap objects))

abbrev pub is_directory_mount : Mount → Bool
is_directory_mount m = opt_eq m.name (some "airflow-dags") && not m.has_sub_path

-- `{container.get('name')}` of a container without a name.
abbrev pub or_none : Option String → String
or_none none = "None"
or_none (some name) = name

abbrev pub container_label : K8sObject → Container → String
container_label o c = join "/" (o.kind ∷ o.name ∷ or_none c.name ∷ [])

-- One label for each mount that is a gap, over the containers.
unfoldable pub mount_gaps : K8sObject → List Container → List String
unfolding join
mount_gaps o [] = []
mount_gaps o (c ∷ cs) =
    map (λ m. container_label o c) (filter is_directory_mount c.volume_mounts) ++ mount_gaps o cs

abbrev pub airflow_workloads : List String
airflow_workloads = "airflow-init" ∷ "airflow-webserver" ∷ "airflow-scheduler" ∷ []

unfoldable pub directory_mounts : List K8sObject → List String
unfolding mount_gaps contains
directory_mounts [] = []
directory_mounts (o ∷ os) =
    (if not (contains airflow_workloads o.name)
      then []
      else mount_gaps o (containers_of (Raw.pod_spec o.raw)))
    ++ directory_mounts os

unfoldable pub find_airflow_dag_directory_mounts : List K8sObject → List String
unfolding directory_mounts sorted text_lt
find_airflow_dag_directory_mounts objects = sorted text_lt (directory_mounts objects)
