-- ===== src/Ops/Manifests/Conforms/Walks.antt =====
-- The checks of `validate` that walk over objects, containers and mounts.
use payments_data_platform.Base.{
  ◌≡◌, refl, ◌∙◌, ap, ◌↔◌, String, Bool, true, false, not, List, [], ◌∷◌, map, filter, any, All,
  Bool-cases, inl, inr, arith,
}
use payments_data_platform.Base.Sort.{sorted, sorted-nil}
use payments_data_platform.Medallion.Rules.{contains}
use payments_data_platform.Ops.Manifests.{
  Raw, K8sObject, Container, Mount, is_object, containers_of, container_label, required_objects,
  is_unsuspended, is_namespace_gap, is_migration_gap, is_directory_mount, airflow_workloads,
  mount_gaps, directory_mounts, find_missing_required, pair_lt,
}
use payments_data_platform.Ops.Manifests.Validate.{uses_precondition, precondition_envs}
use payments_data_platform.Ops.Manifests.Conforms.{
  suspended, in_namespace, waits, Containers, by_file, MountsFiles, NoPrecondition, append-none,
  filter-none, map-none,
}

pub clash : (b : Bool) → b ≡ true → b ≡ false → ⊥
clash b h j = cc

pub missing-none :
    (objects : List K8sObject)
    → (find_missing_required objects ≡ [])
      ↔ All (λ r. any (is_object r.0 r.1) objects ≡ true) required_objects
unfolding find_missing_required
missing-none objects =
    let good = λ (r : String × String). any (is_object r.0 r.1) objects in
    let bad = λ (r : String × String). not (good r) in
    let (there, back) = filter-none bad good required_objects (λ r. refl) in
    (
      λ h. there (sorted-nil pair_lt (filter bad required_objects) h),
      λ h. ap (sorted pair_lt) (back h) ∙ unfold sorted in refl,
    )

pub unsuspended_bad : (o : K8sObject) → is_unsuspended o ≡ not (suspended o)
unsuspended_bad o = ground arith

pub namespace_bad : (o : K8sObject) → is_namespace_gap o ≡ not (in_namespace o)
namespace_bad o = ground arith

pub migration_bad : (o : K8sObject) → is_migration_gap o ≡ not (waits o)
migration_bad o = ground arith

none_use :
    (o : K8sObject) (cs : List Container)
    → (filter uses_precondition cs ≡ []) ↔ All (NoPrecondition o) cs
none_use o [] = (λ h. tt, λ h. refl)
none_use o (c ∷ cs) =
    let (there, back) = none_use o cs in
    elim (Bool-cases (uses_precondition c)) [
      | inl uses ↦ rw uses ((λ h. absurd (cc h)), λ h. absurd (cc (h.0)))
      | inr fits ↦ rw fits ((λ h. (refl, there h)), λ h. back h.1)
    ]

-- A walk over the containers finds nothing.
pub envs-none :
    (objects : List K8sObject)
    → (precondition_envs objects ≡ []) ↔ All (Containers NoPrecondition) objects
unfolding precondition_envs
envs-none [] = (λ h. tt, λ h. refl)
envs-none (o ∷ os) =
    let cs = containers_of (Raw.pod_spec o.raw) in
    let (there, back) = none_use o cs in
    let (there', back') = envs-none os in
    (
      λ h.
          let both =
            append-none (map (container_label o) (filter uses_precondition cs))
              (precondition_envs os) h in
          (
            there (map-none (container_label o) (filter uses_precondition cs) both.0),
            there' both.1,
          ),
      λ h. rw (back h.0) (back' h.1),
    )

no_mount :
    (o : K8sObject) (label : String) (ms : List Mount)
    → contains airflow_workloads o.name ≡ true
    → (map (λ m. label) (filter is_directory_mount ms) ≡ []) ↔ All (λ m. by_file o m ≡ true) ms
no_mount o label [] a = (λ h. tt, λ h. refl)
no_mount o label (m ∷ ms) a =
    let (there, back) = no_mount o label ms a in
    elim (Bool-cases (is_directory_mount m)) [
      | inl directory ↦ rw directory (
        (λ h. absurd (cc h)),
        λ h. absurd (clash (by_file o m) (h.0) (ground (arith, a, directory))),
      )
      | inr file ↦ rw file ((λ h. (ground (arith, a, file), there h)), λ h. back h.1)
    ]

containers-none :
    (o : K8sObject) (cs : List Container)
    → contains airflow_workloads o.name ≡ true
    → (mount_gaps o cs ≡ []) ↔ All (MountsFiles o) cs
unfolding mount_gaps
containers-none o [] a = (λ h. tt, λ h. refl)
containers-none o (c ∷ cs) a =
    let (there, back) = no_mount o (container_label o c) c.volume_mounts a in
    let (there', back') = containers-none o cs a in
    (
      λ h.
          let both =
            append-none (map (λ m. container_label o c) (filter is_directory_mount c.volume_mounts))
              (mount_gaps o cs) h in
          (there both.0, there' both.1),
      λ h. rw (back h.0) (back' h.1),
    )

not_airflow :
    (o : K8sObject) (ms : List Mount)
    → contains airflow_workloads o.name ≡ false
    → All (λ m. by_file o m ≡ true) ms
not_airflow o [] a = tt
not_airflow o (m ∷ ms) a = (ground (arith, a), not_airflow o ms a)

not_airflow_containers :
    (o : K8sObject) (cs : List Container)
    → contains airflow_workloads o.name ≡ false
    → All (MountsFiles o) cs
not_airflow_containers o [] a = tt
not_airflow_containers o (c ∷ cs) a =
    (not_airflow o c.volume_mounts a, not_airflow_containers o cs a)

pub mounts-none :
    (objects : List K8sObject)
    → (directory_mounts objects ≡ []) ↔ All (Containers MountsFiles) objects
unfolding directory_mounts
mounts-none [] = (λ h. tt, λ h. refl)
mounts-none (o ∷ os) =
    let cs = containers_of (Raw.pod_spec o.raw) in
    let (there', back') = mounts-none os in
    elim (Bool-cases (contains airflow_workloads o.name)) [
      | inl airflow ↦
          let (there, back) = containers-none o cs airflow in
          rw airflow (
            (λ h.
                let both = append-none (mount_gaps o cs) (directory_mounts os) h in
                (there both.0, there' both.1)),
            λ h. rw (back h.0) (back' h.1),
          )
      | inr other ↦ rw other ((λ h. (not_airflow_containers o cs other, there' h)), λ h. back' h.1)
    ]
