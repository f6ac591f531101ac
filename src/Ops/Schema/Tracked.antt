-- ===== src/Ops/Schema/Tracked.antt =====
-- When scripts/validate_schema.py finds no drift.
use payments_data_platform.Base.{
  ◌≡◌, refl, ap, ◌∙◌, ◌↔◌, String, Bool, true, not, List, [], ◌∷◌, ◌++◌, ◌||◌, filter, All, arith,
}
use payments_data_platform.Base.Order.{text_lt}
use payments_data_platform.Base.Sort.{sorted, sorted-nil}
use payments_data_platform.Medallion.Rules.{contains}
use payments_data_platform.Ops.Manifests.Conforms.{filter-none}
use payments_data_platform.Ops.Schema.{
  Contract, tracked_tables, check_columns, drift, drifted, validate_schema,
}

-- A column that silver reads, or that is left out on purpose.
abbrev pub is_mapped : Contract → String → Bool
is_mapped c column = contains c.silver_source_columns column || contains c.excluded_columns column

contains-append :
    (xs ys : List String) (s : String) → contains (xs ++ ys) s ≡ contains xs s || contains ys s
unfolding contains
contains-append [] ys s = refl
contains-append (x ∷ xs) ys s = ground (arith, contains-append xs ys s)

check_columns-mapped :
    (c : Contract) (columns : List String)
    → (check_columns columns c.silver_source_columns c.excluded_columns ≡ [])
      ↔ All (λ s. is_mapped c s ≡ true) columns
unfolding check_columns
check_columns-mapped c columns =
    let known = c.silver_source_columns ++ c.excluded_columns in
    let bad = λ (s : String). not (contains known s) in
    let (there, back) =
      filter-none bad (is_mapped c) columns
        (λ s. ap not (contains-append c.silver_source_columns c.excluded_columns s)) in
    (
      λ h. there (sorted-nil text_lt (filter bad columns) h),
      λ h. ap (sorted text_lt) (back h) ∙ unfold sorted in refl,
    )

drift-none :
    (table : String) (cs : List String) (rest : List (String × List String))
    → (drift table cs rest ≡ []) ↔ ((cs ≡ []) × (rest ≡ []))
drift-none table [] rest = (λ h. (refl, h), λ h. h.1)
drift-none table (c ∷ cs) rest = (λ h. absurd (cc h), λ h. absurd (cc (h.0)))

module _ (fetch : String → List String) where
  abbrev pub IsMapped : Contract → Type 0
  IsMapped c = All (λ s. is_mapped c s ≡ true) (fetch c.table)

  drifted-none : (cs : List Contract) → (drifted fetch cs ≡ []) ↔ All IsMapped cs
  unfolding drifted
  drifted-none [] = (λ h. tt, λ h. refl)
  drifted-none (c ∷ cs) =
      let found = check_columns (fetch c.table) c.silver_source_columns c.excluded_columns in
      let (apart, together) = drift-none c.table found (drifted fetch cs) in
      let (there, back) = check_columns-mapped c (fetch c.table) in
      let (there', back') = drifted-none cs in
      (
        λ h. let both = apart h in (there both.0, there' both.1),
        λ h. together (back h.0, back' h.1),
      )

  -- The check finds no drift exactly where each column that Postgres reports for a tracked table is
  -- one that silver reads or one that is excluded.
  pub validate_schema-IsMapped : (validate_schema fetch ≡ []) ↔ All IsMapped tracked_tables
  unfolding validate_schema
  validate_schema-IsMapped = drifted-none tracked_tables
