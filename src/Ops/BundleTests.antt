-- ===== src/Ops/BundleTests.antt =====
-- The bundle check on the repository's two resource files, cut down, and on files with a fault.
use payments_data_platform.Base.{
  ◌≡◌, refl, ◌↔◌, String, Bool, true, List, [], ◌∷◌, str_eq, Result, ok, err, ◌||◌, if◌then◌else◌,
}
use payments_data_platform.Ops.Bundle.{
  Yaml, text, plain, mapping, sequence, Entries, end, entry, nil, item, Checkout, Failure, invalid,
  missing_path, undeclared, raised,
}
use payments_data_platform.Ops.Bundle.Checks.{check_documents, main}
use payments_data_platform.Ops.Bundle.Structural.{IsStructural, check_documents-IsStructural}

abbrev under : String → Yaml → Entries
under key v = entry key v end

abbrev pipeline : Entries
pipeline = under "resources" (
    mapping (
      under "pipelines" (
        mapping (
          under "payments_dlt" (
            mapping (
              entry "name" (text "payments-medallion-dlt") (
                under "libraries" (
                  sequence (
                    item
                      (mapping
                        (under "notebook" (mapping (under "path" (text "../src/dlt_pipeline.py")))))
                      nil)))))))))

abbrev job : String → Entries
job notebook = under "resources" (
    mapping (
      under "jobs" (
        mapping (
          under "payments_pipeline" (
            mapping (
              under "tasks" (
                sequence (
                  item
                    (mapping
                      (under "notebook_task" (mapping (under "notebook_path" (text notebook)))))
                    (item
                      (mapping (
                        under "pipeline_task" (
                          mapping
                            (under "pipeline_id" (text "${resources.pipelines.payments_dlt.id}")))))
                      nil)))))))))

abbrev bundle : Entries
bundle = entry "bundle" (mapping (under "name" (text "payments-pipeline"))) (
    entry "include" (sequence (item (text "resources/*.yml") nil)) (
      under "targets" (
        mapping
          (entry "dev" (mapping (under "default" (plain true))) (under "prod" (mapping end))))))

abbrev kept_file : String → Bool
kept_file p =
    str_eq p "databricks.yml"
    || str_eq p "../src/dlt_pipeline.py"
    || str_eq p "../src/seed_to_volume.py"

abbrev read_file : String → String → Result Failure Yaml
read_file notebook p =
    if str_eq p "databricks.yml"
    then ok (mapping bundle)
    else if str_eq p "payments.pipeline.yml"
    then ok (mapping pipeline)
    else ok (mapping (job notebook))

abbrev checkout : String → Checkout String
checkout notebook = record {
  bundle_file = "databricks.yml";
  is_file = kept_file;
  read = read_file notebook;
  sorted_glob = λ pattern. ok ("payments.pipeline.yml" ∷ "payments_pipeline.job.yml" ∷ []);
  path_eq = str_eq;
  name = λ p. p;
  resolve = λ p value. value;
  findall = λ pattern value.
      if str_eq value "${resources.pipelines.payments_dlt.id}"
      then ("pipelines", "payments_dlt") ∷ []
      else [];
}

abbrev documents : List (String × Entries)
documents =
    ("payments.pipeline.yml", pipeline)
    ∷ ("payments_pipeline.job.yml", job "../src/seed_to_volume.py")
    ∷ []

main_passes : main (checkout "../src/seed_to_volume.py") ≡ ok tt
unfolding main
main_passes = refl

-- A notebook that was renamed.
main_renamed :
    main (checkout "../src/seed.py")
    ≡ err (invalid (missing_path "payments_pipeline.job.yml" "notebook_path" "../src/seed.py" ∷ []))
unfolding main
main_renamed = refl

-- The job alone refers to a pipeline that no document declares.
undeclared_pipeline :
    check_documents (checkout "") (("job.yml", job "../src/seed_to_volume.py") ∷ [])
    ≡ err (invalid (undeclared "job.yml" "pipelines" "payments_dlt" ∷ []))
unfolding check_documents
undeclared_pipeline = refl

listed_resources :
    check_documents
      (checkout "")
      (("list.yml", under "resources" (sequence (item (text "pipelines") nil))) ∷ [])
    ≡ err raised
unfolding check_documents
listed_resources = refl

check_documents-IsStructural_example :
    (check_documents (checkout "../src/seed_to_volume.py") documents ≡ ok tt)
    ↔ IsStructural (checkout "../src/seed_to_volume.py") documents
check_documents-IsStructural_example =
    check_documents-IsStructural (checkout "../src/seed_to_volume.py") documents
