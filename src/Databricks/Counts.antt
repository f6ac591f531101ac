-- ===== src/Databricks/Counts.antt =====
-- databricks/src/validate_counts.py: the counts of the three tables against the seed.
use payments_data_platform.Base.{
  ◌≡◌, ◌↔◌, ℕ, String, List, [], ◌∷◌, ◌++◌, ◌==◌, length, Result, ok, err, if◌then◌else◌, arith,
}
use payments_data_platform.Medallion.Rules.{SilverRow}
use payments_data_platform.Medallion.Gold.Groups.{total_count, gold-totals}
use payments_data_platform.Databricks.Pipeline.{payment_metrics_gold}

abbrev pub expected : ℕ
expected = 124

-- A message is kept as the table's name and its count.
abbrev pub count_error : String → ℕ → List (String × ℕ)
count_error table n = if n == expected then [] else (table, n) ∷ []

abbrev pub exit_with : List (String × ℕ) → Result (List (String × ℕ)) (Unit {0})
exit_with [] = ok tt
exit_with (e ∷ es) = err (e ∷ es)

unfoldable pub validate_counts : ℕ → ℕ → ℕ → Result (List (String × ℕ)) (Unit {0})
validate_counts bronze silver total = exit_with (
    (count_error "bronze" bronze ++ count_error "silver" silver)
    ++ count_error "gold sum(payment_count)" total)

counts_lem :
    (bronze silver : ℕ)
    → (validate_counts bronze silver silver ≡ ok tt) ↔ ((bronze ≡ expected) × (silver ≡ expected))
unfolding validate_counts
counts_lem bronze silver = ground arith

-- Over gold as the pipeline computes it from silver, the check passes exactly where bronze and silver
-- have the expected number of rows.
validate_counts-gold :
    (date_trunc : ℕ → ℕ) (bronze : ℕ) (silver : List SilverRow)
    → (validate_counts bronze (length silver) (total_count (payment_metrics_gold date_trunc silver))
        ≡ ok tt)
      ↔ ((bronze ≡ expected) × (length silver ≡ expected))
unfolding payment_metrics_gold
validate_counts-gold date_trunc bronze silver =
    rw ((gold-totals date_trunc silver).0) (counts_lem bronze (length silver))
