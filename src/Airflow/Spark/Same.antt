-- ===== src/Airflow/Spark/Same.antt =====
-- That both runtimes run one command.
use payments_data_platform.Base.{
  ◌≡◌, refl, String, List, [], ◌∷◌, str_eq, ok, ◌>>=◌, Bool-cases, inl, inr,
}
use payments_data_platform.Ops.Text.{join}
use payments_data_platform.Airflow.Spark.{find_job, spark_submit_argv, submit_command}

-- What the container runs: the arguments with a blank between two, after `docker exec`.
abbrev pub in_container : List String → String
in_container argv = join "" ("docker exec dp-spark " ∷ join " " argv ∷ [])

-- Whatever the layer, the Compose command is the Kubernetes pod's argument list, word by word, run in
-- the Spark container; a layer that one of them does not know raises the same KeyError in both.
pub submit_command-argv :
    (layer : String)
    → submit_command layer ≡ (spark_submit_argv layer >>= λ argv. ok (in_container argv))
unfolding submit_command spark_submit_argv find_job
submit_command-argv layer = elim (Bool-cases (str_eq "bronze" layer)) [
  | inl bronze ↦ rw bronze (unfold join in refl)
  | inr a ↦ elim (Bool-cases (str_eq "silver" layer)) [
    | inl silver ↦ rw (a, silver) (unfold join in refl)
    | inr b ↦ elim (Bool-cases (str_eq "gold" layer)) [
      | inl gold ↦ rw (a, b, gold) (unfold join in refl)
      | inr c ↦ rw (a, b, c) refl
    ]
  ]
]
