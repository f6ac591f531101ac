-- ===== src/Ops/Bundle/Structural.antt =====
-- The documents of a bundle that is structurally valid, and that the checks pass exactly on these.
use payments_data_platform.Base.{
  ◌≡◌, refl, sym, ◌∙◌, ap, ◌↔◌, String, Bool, true, not, Option, some, none, List, [], ◌∷◌, ◌++◌,
  map, filter, All, ◌||◌, Bool-cases, inl, inr, Result-cases, ok, err, arith,
}
use payments_data_platform.Medallion.Rules.{contains}
use payments_data_platform.Ops.Text.{starts_with}
use payments_data_platform.Ops.Manifests.Conforms.{append-none, filter-none, map-none}
use payments_data_platform.Ops.Bundle.{
  Yaml, text, plain, mapping, sequence, Entries, Items, item, Checkout, Failure, BundleError,
  walk_entries, get, or_empty, is_mapping, kinds_names, has_pair, missing_path, undeclared,
  reference_pattern, path_keys, raised,
}
use payments_data_platform.Ops.Bundle.Checks.{
  is_missing, check_paths, declared_by, undeclared_in, reference_errors, document_errors, report,
  check_documents,
}
use payments_data_platform.Ops.Bundle.Walked.{Field, walk-Field}
use payments_data_platform.Ops.Bundle.Declared.{
  declares, resources_of, has_pair-append, has_pair-kinds_names,
}

module _ {P : Type 0} where
  unfoldable pub HasResources : P × Entries → Type 0
  HasResources d = is_mapping (get "resources" d.1) ≡ true

  unfoldable pub present : Checkout P → P → String × String → Bool
  unfolding contains starts_with
  present x file e =
      not (contains path_keys e.0) || (starts_with "${" e.1 || x.is_file (x.resolve file e.1))

  -- Wherever a path key stands in the document, its path exists or is a reference.
  unfoldable pub PathsPresent : Checkout P → P × Entries → Type 0
  PathsPresent x d = (key value : String) → Field key value d.1 → present x d.0 (key, value) ≡ true

  -- Wherever a text refers to a resource, some document declares it.
  unfoldable pub ReferencesDeclared : Checkout P → List (P × Entries) → P × Entries → Type 0
  ReferencesDeclared x ds d =
      (key value : String)
      → Field key value d.1
      → All (λ r. declares ds r ≡ true) (x.findall reference_pattern value)

  unfoldable pub IsStructural : Checkout P → List (P × Entries) → Type 0
  IsStructural x ds =
      All HasResources ds × (All (PathsPresent x) ds × All (ReferencesDeclared x ds) ds)

-- What a mapping under `resources` gives to `declared_by`.
or_empty-mapping : (o : Option Yaml) → is_mapping o ≡ true → or_empty o ≡ ok (resources_of o)
or_empty-mapping none h = absurd (cc h)
or_empty-mapping (some (text s)) h = absurd (cc h)
or_empty-mapping (some (plain b)) h = absurd (cc h)
or_empty-mapping (some (sequence xs)) h = absurd (cc h)
or_empty-mapping (some (mapping es)) h = refl

module _ {P : Type 0} (x : Checkout P) where
  -- With mappings everywhere the updates of `declared` raise nothing.
  declared_by_lem :
      (ds : List (P × Entries))
      → All HasResources ds
      → (declared : List (String × String)) × (declared_by x ds ≡ ok declared)
        × ((r : String × String) → has_pair declared r ≡ declares ds r)
  unfolding declared_by HasResources declares
  declared_by_lem [] h = ([], refl, λ r. unfold has_pair in refl)
  declared_by_lem (d ∷ ds) (h, hs) =
      let (rest, e, same) = declared_by_lem ds hs in
      let kinds = resources_of (get "resources" d.1) in
      (
        kinds_names kinds ++ rest,
        rw (or_empty-mapping (get "resources" d.1) h, e) refl,
        λ r.
            has_pair-append (kinds_names kinds) rest r
            ∙ rw (has_pair-kinds_names kinds r, same r) refl,
      )

  paths-none : (d : P × Entries) → (check_paths x d.0 d.1 ≡ []) ↔ PathsPresent x d
  unfolding check_paths PathsPresent
  paths-none d =
      let bad = is_missing x d.0 in
      let good = present x d.0 in
      let message = λ (e : String × String). missing_path (x.name d.0) e.0 e.1 in
      let (there, back) =
        filter-none bad good (walk_entries d.1) (λ e. unfold is_missing present in ground arith) in
      let (at, all) = walk-Field (λ e. good e ≡ true) d.1 in
      (
        λ h. at (there (map-none message (filter bad (walk_entries d.1)) h)),
        λ h. ap (map message) (back (all h)),
      )

  documents-none :
      (ds : List (P × Entries))
      → (document_errors x ds ≡ []) ↔ (All HasResources ds × All (PathsPresent x) ds)
  unfolding document_errors HasResources
  documents-none [] = (λ h. (tt, tt), λ h. refl)
  documents-none (d ∷ ds) =
      let (there, back) = documents-none ds in
      let (paths, paths') = paths-none d in
      let own = check_paths x d.0 d.1 in
      elim (Bool-cases (is_mapping (get "resources" d.1))) [
        | inl has ↦ rw has (
          λ h.
              let both = append-none own (document_errors x ds) h in
              let rest = there both.1 in ((refl, rest.0), (paths both.0, rest.1)),
          λ h. rw (paths' h.1.0) (back (h.0.1, h.1.1)),
        )
        | inr lacks ↦ rw lacks (λ h. absurd (cc h), λ h. absurd (cc (h.0.0)))
      ]

  undeclared-none :
      (declared : List (String × String)) (ds : List (P × Entries)) (file : P)
      (es : List (String × String))
      → ((r : String × String) → has_pair declared r ≡ declares ds r)
      → (undeclared_in x declared file es ≡ [])
        ↔ All (λ e. All (λ r. declares ds r ≡ true) (x.findall reference_pattern e.1)) es
  unfolding undeclared_in
  undeclared-none declared ds file [] same = (λ h. tt, λ h. refl)
  undeclared-none declared ds file (e ∷ es) same =
      let bad = λ (r : String × String). not (has_pair declared r) in
      let message = λ (r : String × String). undeclared (x.name file) r.0 r.1 in
      let refs = x.findall reference_pattern e.1 in
      let (there, back) = filter-none bad (declares ds) refs (λ r. ap not (same r)) in
      let (there', back') = undeclared-none declared ds file es same in
      (
        λ h.
            let both =
              append-none (map message (filter bad refs)) (undeclared_in x declared file es) h in
            (there (map-none message (filter bad refs) both.0), there' both.1),
        λ h. rw (back h.0) (back' h.1),
      )

  references-none :
      (declared : List (String × String)) (all ds : List (P × Entries))
      → ((r : String × String) → has_pair declared r ≡ declares all r)
      → (reference_errors x declared ds ≡ []) ↔ All (ReferencesDeclared x all) ds
  unfolding reference_errors ReferencesDeclared
  references-none declared all [] same = (λ h. tt, λ h. refl)
  references-none declared all (d ∷ ds) same =
      let own = undeclared_in x declared d.0 (walk_entries d.1) in
      let (there, back) = undeclared-none declared all d.0 (walk_entries d.1) same in
      let (there', back') = references-none declared all ds same in
      let (at, every) =
        walk-Field (λ e. All (λ r. declares all r ≡ true) (x.findall reference_pattern e.1)) d.1 in
      (
        λ h.
            let both = append-none own (reference_errors x declared ds) h in
            (at (there both.0), there' both.1),
        λ h. rw (back (every h.0)) (back' h.1),
      )

  report-none : (es : List BundleError) → report x es ≡ ok tt → es ≡ []
  report-none [] h = refl
  report-none (e ∷ es) h = absurd (cc h)

  checked :
      (ds : List (P × Entries)) (declared : List (String × String))
      → declared_by x ds ≡ ok declared
      → check_documents x ds ≡ report x (document_errors x ds ++ reference_errors x declared ds)
  unfolding check_documents
  checked ds declared e = rw e refl

  nothing_found :
      (ds : List (P × Entries)) (declared : List (String × String))
      → declared_by x ds ≡ ok declared
      → check_documents x ds ≡ ok tt
      → (document_errors x ds ≡ []) × (reference_errors x declared ds ≡ [])
  nothing_found ds declared e h =
      let errors = document_errors x ds in
      let refs = reference_errors x declared ds in
      append-none errors refs (report-none (errors ++ refs) (sym (checked ds declared e) ∙ h))

  unraised :
      (ds : List (P × Entries)) (f : Failure)
      → declared_by x ds ≡ err f
      → check_documents x ds ≡ ok tt
      → ⊥
  unfolding check_documents
  unraised ds f e h = cc (rw e at h)

  mapped : (ds : List (P × Entries)) → check_documents x ds ≡ ok tt → All HasResources ds
  mapped ds h = elim (Result-cases (declared_by x ds)) [
    | inl (declared, e) ↦ ((documents-none ds).0 (nothing_found ds declared e h).0).0
    | inr (f, e) ↦ absurd (unraised ds f e h)
  ]

  -- `main`'s checks of the documents pass exactly where the documents are structural: each has a
  -- mapping of resources, every path under a path key at any depth is a reference or exists, and
  -- every resource that a text at any depth refers to is declared by one of the documents.
  pub check_documents-IsStructural :
      (ds : List (P × Entries)) → (check_documents x ds ≡ ok tt) ↔ IsStructural x ds
  unfolding IsStructural
  check_documents-IsStructural ds = (
    λ h.
        let (declared, e, same) = declared_by_lem ds (mapped ds h) in
        let found = nothing_found ds declared e h in
        let good = (documents-none ds).0 found.0 in
        (good.0, (good.1, (references-none declared ds ds same).0 found.1)),
    λ h.
        let (declared, e, same) = declared_by_lem ds h.0 in
        checked ds declared e
        ∙ rw ((documents-none ds).1 (h.0, h.1.0), (references-none declared ds ds same).1 h.1.1)
            refl,
  )

  -- A document whose resources are a list with an item raises, and no error is reported.
  unlisted :
      (d : P × Entries) (ds : List (P × Entries)) (y : Yaml) (ys : Items)
      → get "resources" d.1 ≡ some (sequence (item y ys))
      → check_documents x (d ∷ ds) ≡ err raised
  unfolding check_documents declared_by
  unlisted d ds y ys e = rw e refl
