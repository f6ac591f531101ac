-- ===== src/Ops/Manifests/Validate.antt =====
-- The remaining checks of scripts/validate_k8s_manifests.py, and `validate`.
use payments_data_platform.Base.{
  String, Bool, not, Option, none, some, List, [], ◌∷◌, ◌++◌, map, filter, ◌||◌, if◌then◌else◌,
}
use payments_data_platform.Base.Order.{text_lt}
use payments_data_platform.Base.Sort.{sorted}
use payments_data_platform.Medallion.Settings.{env_get}
use payments_data_platform.Ops.Text.{contains_text, join}
use payments_data_platform.Ops.Manifests.{
  Raw, K8sObject, Container, is_object, has_env, containers_of, container_label,
  container_command_text, find_missing_required, find_unsuspended_template_jobs,
  find_namespaced_workload_gaps, find_airflow_migration_wait_gaps,
  find_airflow_dag_directory_mounts,
}

abbrev pub uses_precondition : Container → Bool
uses_precondition c = has_env "SERVICE_PRECONDITION" c.env

unfoldable pub precondition_envs : List K8sObject → List String
unfolding has_env join
precondition_envs [] = []
precondition_envs (o ∷ os) =
    map (container_label o) (filter uses_precondition (containers_of (Raw.pod_spec o.raw)))
    ++ precondition_envs os

unfoldable pub find_dead_service_precondition_envs : List K8sObject → List String
unfolding precondition_envs sorted text_lt
find_dead_service_precondition_envs objects = sorted text_lt (precondition_envs objects)

-- The first object that a test accepts.
unfoldable pub first_object : (K8sObject → Bool) → List K8sObject → Option K8sObject
first_object p [] = none
first_object p (o ∷ os) = if p o then some o else first_object p os

abbrev pub memory_settings : List String
memory_settings =
    "query.max-memory" ∷ "query.max-memory-per-node" ∷ "memory.heap-headroom-per-node" ∷ []

abbrev pub config_properties : K8sObject → String
config_properties o = env_get (Raw.config o.raw) "config.properties" ""

abbrev pub memory_gaps : Option K8sObject → List String
memory_gaps none = "ConfigMap/trino-etc" ∷ []
memory_gaps (some o) =
    map (λ setting. join "" ("ConfigMap/trino-etc:" ∷ setting ∷ []))
      (sorted text_lt
        (filter (λ setting. not (contains_text setting (config_properties o))) memory_settings))

unfoldable pub find_trino_memory_config_gaps : List K8sObject → List String
unfolding first_object is_object sorted text_lt contains_text env_get join
find_trino_memory_config_gaps objects =
    memory_gaps (first_object (is_object "ConfigMap" "trino-etc") objects)

abbrev pub command_text_of : K8sObject → String
command_text_of o =
    join "\n"
      (map (λ c. container_command_text (Container.command c)) (containers_of (Raw.pod_spec o.raw)))

abbrev pub lacks_retry : String → Bool
lacks_retry command_text =
    not (contains_text "except urllib.error.HTTPError as create_exc" command_text)
    || not (contains_text "create_exc.code == 409" command_text)

abbrev pub retry_gaps : Option K8sObject → List String
retry_gaps none = "Job/register-postgres-cdc" ∷ []
retry_gaps (some o) =
    if lacks_retry (command_text_of o) then "Job/register-postgres-cdc" ∷ [] else []

unfoldable pub find_connector_retry_gaps : List K8sObject → List String
unfolding first_object is_object contains_text join container_command_text
find_connector_retry_gaps objects =
    retry_gaps (first_object (is_object "Job" "register-postgres-cdc") objects)

-- An entry of `errors`: what its message is about, and the list that it shows.
pub data ManifestError : Type 0 where
  missing_required : List (String × String) → ManifestError
  unsuspended : List String → ManifestError
  outside_namespace : List String → ManifestError
  missing_migration_wait : List String → ManifestError
  ignored_precondition : List String → ManifestError
  mounted_as_directory : List String → ManifestError
  incomplete_memory : List String → ManifestError
  not_retry_safe : List String → ManifestError

-- `if found: errors.append(...)`
abbrev pub report {ℓ} : {A : Type ℓ} → (List A → ManifestError) → List A → List ManifestError
report message [] = []
report message (x ∷ xs) = message (x ∷ xs) ∷ []

unfoldable pub validate : List K8sObject → List ManifestError
validate objects =
    report missing_required (find_missing_required objects)
    ++ (report unsuspended (find_unsuspended_template_jobs objects)
        ++ (report outside_namespace (find_namespaced_workload_gaps objects)
            ++ (report missing_migration_wait (find_airflow_migration_wait_gaps objects)
                ++ (report ignored_precondition (find_dead_service_precondition_envs objects)
                    ++ (report mounted_as_directory (find_airflow_dag_directory_mounts objects)
                        ++ (report incomplete_memory (find_trino_memory_config_gaps objects)
                            ++ (report not_retry_safe (find_connector_retry_gaps objects))))))))
