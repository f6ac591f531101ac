-- ===== src/Ops/Manifests/Conforms/Exact.antt =====
-- `validate` passes exactly where the objects conform.
use payments_data_platform.Base.{
  ◌≡◌, refl, ◌∙◌, ap, ◌↔◌, String, true, not, Option, none, some, List, [], ◌∷◌, ◌++◌, map, filter,
  All, Bool-cases, inl, inr, arith,
}
use payments_data_platform.Base.Order.{text_lt}
use payments_data_platform.Base.Sort.{sorted, sorted-nil}
use payments_data_platform.Ops.Text.{contains_text, join}
use payments_data_platform.Ops.Manifests.{
  K8sObject, is_object, is_unsuspended, is_namespace_gap, object_label, is_migration_gap,
  directory_mounts, find_missing_required, find_unsuspended_template_jobs,
  find_namespaced_workload_gaps, find_airflow_migration_wait_gaps,
  find_airflow_dag_directory_mounts,
}
use payments_data_platform.Ops.Manifests.Validate.{
  precondition_envs, find_dead_service_precondition_envs, first_object, memory_settings,
  config_properties, memory_gaps, find_trino_memory_config_gaps, command_text_of, lacks_retry,
  retry_gaps, find_connector_retry_gaps, ManifestError, missing_required, unsuspended,
  outside_namespace, missing_migration_wait, ignored_precondition, mounted_as_directory,
  incomplete_memory, not_retry_safe, report, validate,
}
use payments_data_platform.Ops.Manifests.Conforms.{
  suspended, in_namespace, waits, Containers, MountsFiles, NoPrecondition, HasMemory, RetrySafe,
  Conforms, append-none, filter-none, report-none, map-none, comprehension,
}
use payments_data_platform.Ops.Manifests.Conforms.Walks.{
  clash, missing-none, unsuspended_bad, namespace_bad, migration_bad, envs-none, mounts-none,
}

memory-none : (found : Option K8sObject) → (memory_gaps found ≡ []) ↔ HasMemory found
memory-none none = (λ h. absurd (cc h), λ h. absurd h)
memory-none (some o) =
    let good = λ (s : String). contains_text s (config_properties o) in
    let bad = λ (s : String). not (good s) in
    let label = λ (s : String). join "" ("ConfigMap/trino-etc:" ∷ s ∷ []) in
    let (there, back) = filter-none bad good memory_settings (λ s. refl) in
    let gaps = filter bad memory_settings in
    (
      λ h. there (sorted-nil text_lt gaps (map-none label (sorted text_lt gaps) h)),
      λ h. ap (λ ss. map label (sorted text_lt ss)) (back h) ∙ unfold sorted in refl,
    )

retry-none : (found : Option K8sObject) → (retry_gaps found ≡ []) ↔ RetrySafe found
retry-none none = (λ h. absurd (cc h), λ h. absurd h)
retry-none (some o) = elim (Bool-cases (lacks_retry (command_text_of o))) [
  | inl lacks ↦ rw lacks (
    (λ h. absurd (cc h)),
    λ h. absurd (clash (lacks_retry (command_text_of o)) lacks (ground (arith, h.0, h.1))),
  )
  | inr safe ↦ rw safe ((λ h. (ground (arith, safe), ground (arith, safe))), λ h. refl)
]

module _ {A : Type 0} {P : Type 0} (message : List A → ManifestError) (xs : List A) where
  -- A report that is empty, before others that are.
  one_report :
      {Q : Type 0}
      → (rest : List ManifestError) → (xs ≡ []) ↔ P
      → (rest ≡ []) ↔ Q
      → (report message xs ++ rest ≡ []) ↔ (P × Q)
  one_report rest p q = (
    λ h.
        let both = append-none (report message xs) rest h in
        (p.0 (report-none message xs both.0), q.0 both.1),
    λ h. rw (p.1 h.0, q.1 h.1) refl,
  )

  last_report : (xs ≡ []) ↔ P → (report message xs ≡ []) ↔ P
  last_report p = (λ h. p.0 (report-none message xs h), λ h. rw (p.1 h) refl)

sorted-none : {P : Type 0} → (xs : List String) → (xs ≡ []) ↔ P → (sorted text_lt xs ≡ []) ↔ P
sorted-none xs p =
    (λ h. p.0 (sorted-nil text_lt xs h), λ h. ap (sorted text_lt) (p.1 h) ∙ unfold sorted in refl)

module _ (objects : List K8sObject) where
  templates-none :
      (find_unsuspended_template_jobs objects ≡ []) ↔ All (λ o. suspended o ≡ true) objects
  unfolding find_unsuspended_template_jobs
  templates-none =
      comprehension (λ o. K8sObject.name o) is_unsuspended suspended objects unsuspended_bad

  namespaces-none :
      (find_namespaced_workload_gaps objects ≡ []) ↔ All (λ o. in_namespace o ≡ true) objects
  unfolding find_namespaced_workload_gaps
  namespaces-none = comprehension object_label is_namespace_gap in_namespace objects namespace_bad

  migrations-none :
      (find_airflow_migration_wait_gaps objects ≡ []) ↔ All (λ o. waits o ≡ true) objects
  unfolding find_airflow_migration_wait_gaps
  migrations-none =
      comprehension (λ o. join "/" ("Deployment" ∷ K8sObject.name o ∷ [])) is_migration_gap waits
        objects migration_bad

  preconditions-none :
      (find_dead_service_precondition_envs objects ≡ []) ↔ All (Containers NoPrecondition) objects
  unfolding find_dead_service_precondition_envs
  preconditions-none = sorted-none (precondition_envs objects) (envs-none objects)

  directories-none :
      (find_airflow_dag_directory_mounts objects ≡ []) ↔ All (Containers MountsFiles) objects
  unfolding find_airflow_dag_directory_mounts
  directories-none = sorted-none (directory_mounts objects) (mounts-none objects)

  trino-none :
      (find_trino_memory_config_gaps objects ≡ [])
      ↔ HasMemory (first_object (is_object "ConfigMap" "trino-etc") objects)
  unfolding find_trino_memory_config_gaps
  trino-none = memory-none (first_object (is_object "ConfigMap" "trino-etc") objects)

  connector-none :
      (find_connector_retry_gaps objects ≡ [])
      ↔ RetrySafe (first_object (is_object "Job" "register-postgres-cdc") objects)
  unfolding find_connector_retry_gaps
  connector-none = retry-none (first_object (is_object "Job" "register-postgres-cdc") objects)

-- `validate` reports nothing exactly where the objects conform: every required object is there; every
-- template job is suspended, every workload is in the namespace, Airflow's web server and scheduler
-- wait for the migrations; no container sets SERVICE_PRECONDITION and none of Airflow's mounts its
-- DAGs but by file; Trino's configuration, in the first object of its name, has the text of the three
-- memory settings; and the first registration job's commands have the two texts of the retry.
pub validate-Conforms : (objects : List K8sObject) → (validate objects ≡ []) ↔ Conforms objects
unfolding validate
validate-Conforms objects =
    let (there, back) =
      one_report missing_required (find_missing_required objects) _ (missing-none objects) (
        one_report unsuspended (find_unsuspended_template_jobs objects) _ (templates-none objects) (
          one_report outside_namespace (find_namespaced_workload_gaps objects) _
            (namespaces-none objects)
            (one_report missing_migration_wait (find_airflow_migration_wait_gaps objects) _
              (migrations-none objects)
              (one_report ignored_precondition (find_dead_service_precondition_envs objects) _
                (preconditions-none objects)
                (one_report mounted_as_directory (find_airflow_dag_directory_mounts objects) _
                  (directories-none objects)
                  (one_report incomplete_memory (find_trino_memory_config_gaps objects) _
                    (trino-none objects)
                    (last_report not_retry_safe (find_connector_retry_gaps objects)
                      (connector-none objects)))))))) in
    (
      λ h.
          let (r, (t, (n, (w, (e, (m, (g, c))))))) = there h in
          record {
            required = r;
            templates = t;
            namespaced = n;
            waiting = w;
            no_precondition = e;
            mounted = m;
            memory = g;
            retry = c;
          },
      λ c. back (
        c.required,
        (
          c.templates,
          (c.namespaced, (c.waiting, (c.no_precondition, (c.mounted, (c.memory, c.retry))))),
        ),
      ),
    )
