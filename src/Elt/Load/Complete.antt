-- ===== src/Elt/Load/Complete.antt =====
-- When a load is complete, and what a COPY's report adds up to.
use payments_data_platform.Base.{
  ℕ, ◌≡◌, ◌≤◌, ◌+◌, refl, ap, ◌∙◌, String, Bool, true, false, not, List, [], ◌∷◌, ◌++◌, ◌&&◌, ◌==◌,
  str_eq, ok, arith, ◌↔◌, Bool-cases, inl, inr,
}
use payments_data_platform.Elt.Load.{
  Texts, Cell, CopyOutcome, file_count, with_row, status_of, parse_copy_result, reconcile_snapshot,
  snapshot_full, is_empty,
}

-- What the loader's documentation asks of a load: nothing skipped, no fewer files and rows than
-- staging wrote, and rows in a full snapshot, unless an empty source is allowed.
pub record Accounts (parts rows : ℕ) (o : CopyOutcome) (type : String) (allow_empty : Bool)
    : Type 0 where
  pub none_skipped : o.skipped ≡ []
  pub parts_arrived : parts ≤ file_count o
  pub rows_arrived : rows ≤ o.rows_loaded
  pub not_empty : str_eq type snapshot_full && (rows == 0 && not allow_empty) ≡ false

is_empty-nil {ℓ} : {A : Type ℓ} → (xs : List A) → is_empty xs ≡ true → xs ≡ []
is_empty-nil [] h = refl
is_empty-nil (x ∷ xs) h = cc

-- `reconcile_snapshot` passes exactly where the load accounts for the snapshot.
pub reconcile-Accounts :
    (parts rows : ℕ) (o : CopyOutcome) (type : String) (allow_empty : Bool)
    → (reconcile_snapshot parts rows o type allow_empty ≡ ok tt)
      ↔ Accounts parts rows o type allow_empty
unfolding reconcile_snapshot
reconcile-Accounts parts rows o type allow_empty = (
  λ h. record {
    none_skipped = is_empty-nil o.skipped (ground (arith, h));
    parts_arrived = ground (arith, h);
    rows_arrived = ground (arith, h);
    not_empty = ground (arith, h);
  },
  λ a. rw a.none_skipped (ground (arith, a.parts_arrived, a.rows_arrived, a.not_empty)),
)

abbrev pub add_outcomes : CopyOutcome → CopyOutcome → CopyOutcome
add_outcomes a b = record {
  files = a.files ++ b.files;
  rows_loaded = a.rows_loaded + b.rows_loaded;
  skipped = a.skipped ++ b.skipped;
}

same_outcome :
    (files skipped : List String) (m n : ℕ)
    → m ≡ n
    → ◌≡◌ {A = CopyOutcome}
        (record { files = files; rows_loaded = m; skipped = skipped })
        (record { files = files; rows_loaded = n; skipped = skipped })
same_outcome files skipped m n e =
    ap (λ i. record { files = files; rows_loaded = i; skipped = skipped }) e

with_row-add :
    (k : Texts) (r : List Cell) (a b : CopyOutcome)
    → with_row k r (add_outcomes a b) ≡ add_outcomes (with_row k r a) b
with_row-add k [] a b = refl
with_row-add k (name ∷ cells) a b =
    elim (Bool-cases (str_eq (status_of k (name ∷ cells)) "LOAD_SKIPPED")) [
      | inl skips ↦ rw skips (same_outcome _ _ _ _ (omega arith))
      | inr loads ↦ rw loads (same_outcome _ _ _ _ (omega arith))
    ]

-- The report of two results together is the sum of their reports: files and skips in order, rows
-- added.
pub parse-append :
    (k : Texts) (rs ss : List (List Cell))
    → parse_copy_result k (rs ++ ss)
      ≡ add_outcomes (parse_copy_result k rs) (parse_copy_result k ss)
unfolding parse_copy_result
parse-append k [] ss = same_outcome _ _ _ _ (omega arith)
parse-append k (r ∷ rs) ss =
    ap (with_row k r) (parse-append k rs ss)
    ∙ with_row-add k r (parse_copy_result k rs) (parse_copy_result k ss)
