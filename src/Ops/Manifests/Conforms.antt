-- ===== src/Ops/Manifests/Conforms.antt =====
-- What the checks of `validate` ask of the objects, each in its own terms.
pub mod Exact
pub mod Walks
use payments_data_platform.Base.{
  ◌≡◌, refl, sym, ◌∙◌, ap, ◌↔◌, String, Bool, true, false, not, Option, none, some, List, [], ◌∷◌,
  ◌++◌, map, filter, any, opt_eq, str_eq, All, ◌&&◌, ◌||◌, if◌then◌else◌, Bool-cases, Option-cases,
  inl, inr, arith,
}
use payments_data_platform.Base.Order.{text_lt}
use payments_data_platform.Base.Sort.{sorted, sorted-nil}
use payments_data_platform.Medallion.Rules.{contains}
use payments_data_platform.Ops.Text.{contains_text}
use payments_data_platform.Ops.Manifests.{
  Raw, K8sObject, Container, Mount, is_object, has_env, containers_of, container_label,
  required_objects, template_jobs, is_unsuspended, not_true, workload_kinds, is_namespace_gap,
  object_label, waits_for_migrations, is_migration_gap, is_directory_mount, airflow_workloads,
  mount_gaps, directory_mounts, find_missing_required, find_unsuspended_template_jobs,
  find_namespaced_workload_gaps, find_airflow_migration_wait_gaps,
  find_airflow_dag_directory_mounts, pair_lt,
}
use payments_data_platform.Ops.Manifests.Validate.{
  uses_precondition, precondition_envs, find_dead_service_precondition_envs, first_object,
  memory_settings, config_properties, memory_gaps, find_trino_memory_config_gaps, command_text_of,
  lacks_retry, retry_gaps, find_connector_retry_gaps, ManifestError, report, validate,
}

abbrev pub implies : Bool → Bool → Bool
implies p q = not p || q

abbrev pub is_true : Option Bool → Bool
is_true none = false
is_true (some b) = b

-- The templates are suspended, the workloads are in the namespace, and Airflow's deployments wait.
abbrev pub suspended : K8sObject → Bool
suspended o =
    implies (str_eq o.kind "Job" && contains template_jobs o.name) (is_true (Raw.suspend o.raw))

abbrev pub in_namespace : K8sObject → Bool
in_namespace o =
    implies (contains workload_kinds o.kind) (opt_eq o.namespace (some "data-pipeline"))

abbrev pub waits : K8sObject → Bool
waits o =
    implies
      (str_eq o.kind "Deployment"
        && contains ("airflow-webserver" ∷ "airflow-scheduler" ∷ []) o.name)
      (waits_for_migrations o)

abbrev pub Containers : (K8sObject → Container → Type 0) → K8sObject → Type 0
Containers P o = All (P o) (containers_of (Raw.pod_spec o.raw))

abbrev pub by_file : K8sObject → Mount → Bool
by_file o m =
    implies (contains airflow_workloads o.name && opt_eq m.name (some "airflow-dags"))
      m.has_sub_path

abbrev pub MountsFiles : K8sObject → Container → Type 0
MountsFiles o c = All (λ m. by_file o m ≡ true) c.volume_mounts

abbrev pub NoPrecondition : K8sObject → Container → Type 0
NoPrecondition o c = has_env "SERVICE_PRECONDITION" c.env ≡ false

abbrev pub HasMemory : Option K8sObject → Type 0
HasMemory none = ⊥
HasMemory (some o) = All (λ s. contains_text s (config_properties o) ≡ true) memory_settings

abbrev pub RetrySafe : Option K8sObject → Type 0
RetrySafe none = ⊥
RetrySafe (some o) =
    (contains_text "except urllib.error.HTTPError as create_exc" (command_text_of o) ≡ true)
    × (contains_text "create_exc.code == 409" (command_text_of o) ≡ true)

pub record Conforms (objects : List K8sObject) : Type 0 where
  pub required : All (λ r. any (is_object r.0 r.1) objects ≡ true) required_objects
  pub templates : All (λ o. suspended o ≡ true) objects
  pub namespaced : All (λ o. in_namespace o ≡ true) objects
  pub waiting : All (λ o. waits o ≡ true) objects
  pub no_precondition : All (Containers NoPrecondition) objects
  pub mounted : All (Containers MountsFiles) objects
  pub memory : HasMemory (first_object (is_object "ConfigMap" "trino-etc") objects)
  pub retry : RetrySafe (first_object (is_object "Job" "register-postgres-cdc") objects)

module _ {ℓ} {A : Type ℓ} where
  pub append-none : (xs ys : List A) → xs ++ ys ≡ [] → (xs ≡ []) × (ys ≡ [])
  append-none [] ys h = (refl, h)
  append-none (x ∷ xs) ys h = absurd (cc h)

  -- A test that finds nothing: its opposite holds everywhere.
  pub filter-none :
      (bad good : A → Bool) (xs : List A)
      → ((a : A) → bad a ≡ not (good a))
      → (filter bad xs ≡ []) ↔ All (λ a. good a ≡ true) xs
  filter-none bad good [] e = (λ h. tt, λ h. refl)
  filter-none bad good (x ∷ xs) e =
      let (there, back) = filter-none bad good xs e in
      elim (Bool-cases (good x)) [
        | inl fits ↦ rw (e x, fits) ((λ h. (refl, there h)), λ h. back h.1)
        | inr fails ↦ rw (e x, fails) ((λ h. absurd (cc h)), λ h. absurd (cc (h.0)))
      ]

  pub report-none :
      (message : List A → ManifestError) (xs : List A) → report message xs ≡ [] → xs ≡ []
  report-none message [] h = refl
  report-none message (x ∷ xs) h = absurd (cc h)

  pub map-none {κ} : {B : Type κ} → (f : A → B) (xs : List A) → map f xs ≡ [] → xs ≡ []
  map-none f [] h = refl
  map-none f (x ∷ xs) h = absurd (cc h)

-- A sorted comprehension is empty exactly where its condition fails everywhere.
pub comprehension {ℓ} :
    {A : Type ℓ}
    → (f : A → String) (bad good : A → Bool) (xs : List A) → ((a : A) → bad a ≡ not (good a))
    → (sorted text_lt (map f (filter bad xs)) ≡ []) ↔ All (λ a. good a ≡ true) xs
comprehension f bad good xs e =
    let (there, back) = filter-none bad good xs e in
    (
      λ h. there (map-none f (filter bad xs) (sorted-nil text_lt (map f (filter bad xs)) h)),
      λ h. rw (back h) (unfold sorted in refl),
    )
