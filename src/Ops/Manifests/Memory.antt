-- ===== src/Ops/Manifests/Memory.antt =====
-- The memory settings that `find_trino_memory_config_gaps` looks for.
use payments_data_platform.Base.{
  ◌≡◌, refl, String, true, some, List, [], ◌∷◌, if◌then◌else◌, Bool-cases, inl, inr, arith,
}
use payments_data_platform.Base.Sort.{sorted}
use payments_data_platform.Ops.Text.{starts_with, contains_text, join}
use payments_data_platform.Ops.Trino.Split.{append_text}
use payments_data_platform.Ops.Manifests.{K8sObject, is_object}
use payments_data_platform.Ops.Manifests.Validate.{
  first_object, config_properties, find_trino_memory_config_gaps,
}

starts_with-append :
    (p q s : String) → starts_with (append_text p q) s ≡ true → starts_with p s ≡ true
unfolding starts_with
starts_with-append String.[] q s h = refl
starts_with-append (String.◌∷◌ c p) q String.[] h = cc h
starts_with-append (String.◌∷◌ c p) q (String.◌∷◌ d s) h =
    ground (arith, h, starts_with-append p q s)

contains_text-append :
    (p q s : String) → contains_text (append_text p q) s ≡ true → contains_text p s ≡ true
unfolding contains_text
contains_text-append p q String.[] h = starts_with-append p q "" h
contains_text-append p q (String.◌∷◌ c s) h =
    ground (arith, h, starts_with-append p q (String.◌∷◌ c s), contains_text-append p q s)

-- Where trino-etc is there and its configuration mentions query.max-memory-per-node, a configuration
-- without query.max-memory is not reported: the only gap that can be found is the headroom.
pub find_trino_memory_config_gaps-shadowed :
    (objects : List K8sObject) (o : K8sObject)
    → first_object (is_object "ConfigMap" "trino-etc") objects ≡ some o
    → contains_text "query.max-memory-per-node" (config_properties o) ≡ true
    → find_trino_memory_config_gaps objects ≡ (
        if contains_text "memory.heap-headroom-per-node" (config_properties o)
        then []
        else "ConfigMap/trino-etc:memory.heap-headroom-per-node" ∷ [])
unfolding find_trino_memory_config_gaps
find_trino_memory_config_gaps-shadowed objects o e h =
    let short = contains_text-append "query.max-memory" "-per-node" (config_properties o) h in
    elim (Bool-cases (contains_text "memory.heap-headroom-per-node" (config_properties o))) [
      | inl there ↦ rw e (rw (short, h, there) (unfold sorted in refl))
      | inr missing ↦ rw e (rw (short, h, missing) (unfold sorted join in refl))
    ]
