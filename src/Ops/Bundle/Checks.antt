-- ===== src/Ops/Bundle/Checks.antt =====
-- The checks of scripts/validate_databricks_bundle.py and its `main`, on a checkout.
use payments_data_platform.Base.{
  String, Bool, not, Option, none, some, List, [], ◌∷◌, ◌++◌, filter, map, ◌&&◌, Result, ok, err,
  ◌>>=◌, if◌then◌else◌,
}
use payments_data_platform.Medallion.Rules.{contains}
use payments_data_platform.Ops.Text.{starts_with}
use payments_data_platform.Ops.Bundle.{
  Yaml, Entries, walk, walk_entries, BundleError, missing_resources, missing_path, undeclared,
  Failure, no_bundle_file, no_bundle_name, no_targets, no_match, invalid, raised, Checkout, get,
  or_empty, truthy, path_keys, reference_pattern, is_mapping, kinds_names, has_pair, patterns,
  as_mapping, default_names, at_most_one,
}

module _ {P : Type 0} (x : Checkout P) where
  abbrev pub load_yaml : P → Result Failure Entries
  load_yaml path = x.read path >>= as_mapping (x.name path)

  abbrev pub matches : String → List P → Result Failure (List P)
  matches pattern [] = err (no_match pattern)
  matches pattern (p ∷ ps) = ok (p ∷ ps)

  abbrev pub resource_files : List (Option String) → Result Failure (List P)
  resource_files [] = ok []
  resource_files (none ∷ ps) = err raised
  resource_files (some p ∷ ps) = x.sorted_glob p >>= λ found.
      matches p found >>= λ matched. resource_files ps >>= λ rest. ok (matched ++ rest)

  -- `d[path] = document`
  abbrev pub put : P → Entries → List (P × Entries) → List (P × Entries)
  put path document [] = (path, document) ∷ []
  put path document (d ∷ ds) =
      let rest = put path document ds in
      if x.path_eq path d.0 then (d.0, document) ∷ ds else d ∷ rest

  unfoldable pub load_documents : List (P × Entries) → List P → Result Failure (List (P × Entries))
  load_documents loaded [] = ok loaded
  load_documents loaded (path ∷ paths) =
      load_yaml path >>= λ document. load_documents (put path document loaded) paths

  unfoldable pub is_missing : P → String × String → Bool
  unfolding contains starts_with
  is_missing file e =
      contains path_keys e.0 && not (starts_with "${" e.1) && not (x.is_file (x.resolve file e.1))

  unfoldable pub check_paths : P → Entries → List BundleError
  unfolding is_missing walk
  check_paths file document =
      map (λ e. missing_path (x.name file) e.0 e.1)
        (filter (is_missing file) (walk_entries document))

  -- The updates of `declared`: AttributeError where a document's `resources` has no `items`.
  unfoldable pub declared_by : List (P × Entries) → Result Failure (List (String × String))
  unfolding get
  declared_by [] = ok []
  declared_by (d ∷ ds) = or_empty (get "resources" d.1) >>= λ kinds.
      declared_by ds >>= λ rest. ok (kinds_names kinds ++ rest)

  unfoldable pub undeclared_in :
      List (String × String) → P → List (String × String) → List BundleError
  unfolding has_pair
  undeclared_in declared file [] = []
  undeclared_in declared file (e ∷ es) =
      map (λ r. undeclared (x.name file) r.0 r.1)
        (filter (λ r. not (has_pair declared r)) (x.findall reference_pattern e.1))
      ++ undeclared_in declared file es

  unfoldable pub reference_errors : List (String × String) → List (P × Entries) → List BundleError
  unfolding undeclared_in walk
  reference_errors declared [] = []
  reference_errors declared (d ∷ ds) =
      undeclared_in declared d.0 (walk_entries d.1) ++ reference_errors declared ds

  abbrev pub check_references : List (P × Entries) → Result Failure (List BundleError)
  check_references documents =
      declared_by documents >>= λ declared. ok (reference_errors declared documents)

  abbrev pub resources_error : P → Entries → List BundleError
  resources_error path document =
      if is_mapping (get "resources" document) then [] else missing_resources (x.name path) ∷ []

  unfoldable pub document_errors : List (P × Entries) → List BundleError
  unfolding get check_paths
  document_errors [] = []
  document_errors (d ∷ ds) = (resources_error d.0 d.1 ++ check_paths d.0 d.1) ++ document_errors ds

  abbrev pub report : List BundleError → Result Failure (Unit {0})
  report [] = ok tt
  report (e ∷ es) = err (invalid (e ∷ es))

  -- The part of `main` that checks the documents.
  unfoldable pub check_documents : List (P × Entries) → Result Failure (Unit {0})
  unfolding document_errors declared_by reference_errors
  check_documents documents =
      check_references documents >>= λ errors. report (document_errors documents ++ errors)

  unfoldable pub check_targets : Option Yaml → Result Failure (Unit {0})
  unfolding get
  check_targets targets =
      if truthy targets
      then (or_empty targets >>= λ specs. default_names specs >>= at_most_one)
      else err no_targets

  unfoldable pub main : Result Failure (Unit {0})
  unfolding get load_documents check_documents check_targets
  main =
      if x.is_file x.bundle_file
      then (load_yaml x.bundle_file >>= λ bundle. or_empty (get "bundle" bundle) >>= λ fields.
          if truthy (get "name" fields)
          then (check_targets (get "targets" bundle) >>= λ u.
              patterns (get "include" bundle)
              >>= resource_files
              >>= load_documents []
              >>= check_documents)
          else err no_bundle_name)
      else err no_bundle_file
