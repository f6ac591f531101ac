-- ===== src/Medallion/Validate.antt =====
-- `_validate_upserts` of config/spark/jobs/silver_payments.py. The functions of pyspark that the
-- silver job calls are a parameter.
use payments_data_platform.Base.{
  ℕ, zero, suc, ◌+◌, String, Bool, false, not, Option, none, some, List, [], ◌∷◌, ◌++◌, count, any,
  ltb, ◌==◌, ◌&&◌, is_some, if◌then◌else◌,
}
use payments_data_platform.Base.Int.{ℤ, is_negative}
use payments_data_platform.Medallion.Rules.{
  SilverRow, contains, allowed_payment_methods, allowed_payment_statuses, sql_eq,
}

-- The functions of pyspark.sql.functions that the job calls.
pub record Spark : Type 0 where
  pub get_json_object : String → String → Option String
  pub cast_long : String → Option ℕ
  pub cast_decimal : String → Option ℤ
  pub micros_to_timestamp : String → Option ℕ
  pub upper : String → String
  pub lower : String → String
  pub trim : String → String
  pub regexp_replace : String → String → String → String
  pub rlike : String → String → Bool

-- A test of a column that SQL leaves null on a null.
abbrev pub holds_of {ℓ} : {A : Type ℓ} → Option A → (A → Bool) → Bool
holds_of none p = false
holds_of (some a) p = p a

abbrev pub earlier : Option ℕ → Option ℕ → Bool
earlier (some a) (some b) = ltb a b
earlier (some a) none = false
earlier none b = false

-- The rows that each metric of `_validate_upserts` counts.
unfoldable pub quality_checks : Spark → List (String × (SilverRow → Bool))
unfolding contains
quality_checks k =
    ("null_payment_id", λ r. not (is_some r.payment_id))
    ∷ ("null_merchant_id", λ r. not (is_some r.merchant_id))
    ∷ ("null_amount", λ r. not (is_some r.amount))
    ∷ ("negative_amount", λ r. holds_of r.amount is_negative)
    ∷ ("null_currency", λ r. not (is_some r.currency))
    ∷ ("invalid_currency", λ r. holds_of r.currency (λ s. not (Spark.rlike k s "^[A-Z]{3}$")))
    ∷ ("null_payment_method", λ r. not (is_some r.payment_method))
    ∷ (
      "invalid_payment_method",
      λ r. holds_of r.payment_method (λ s. not (contains allowed_payment_methods s)),
    )
    ∷ ("null_payment_status", λ r. not (is_some r.payment_status))
    ∷ (
      "invalid_payment_status",
      λ r. holds_of r.payment_status (λ s. not (contains allowed_payment_statuses s)),
    )
    ∷ ("null_country_code", λ r. not (is_some r.country_code))
    ∷ (
      "invalid_country_code",
      λ r. holds_of r.country_code (λ s. not (Spark.rlike k s "^[A-Z]{2}$")),
    )
    ∷ ("null_created_at", λ r. not (is_some r.created_at))
    ∷ ("null_updated_at", λ r. not (is_some r.updated_at))
    ∷ ("updated_before_created", λ r. earlier r.updated_at r.created_at)
    ∷ ("null_source_lsn", λ r. not (is_some r.source_lsn))
    ∷ []

-- `{name: value for name, value in quality_metrics.items() if value}`
unfoldable pub failures : List (String × (SilverRow → Bool)) → List SilverRow → List (String × ℕ)
failures [] rs = []
failures ((name, bad) ∷ checks) rs =
    if count bad rs == 0 then failures checks rs else (name, count bad rs) ∷ failures checks rs

-- The ids, not null, that stand in more than one row.
unfoldable pub duplicate_ids : List (Option ℕ) → List SilverRow → ℕ
duplicate_ids seen [] = 0
duplicate_ids seen (r ∷ rs) =
    (if not (any (λ i. sql_eq r.payment_id i) seen)
        && any (λ s. sql_eq r.payment_id s.payment_id) rs
      then 1
      else 0)
    + duplicate_ids (r.payment_id ∷ seen) rs

abbrev pub with_duplicates : ℕ → List (String × ℕ) → List (String × ℕ)
with_duplicates zero fs = fs
with_duplicates (suc n) fs = fs ++ ("duplicate_payment_ids", suc n) ∷ []

-- `_validate_upserts`: the failures that the ValueError reports; none of them, and it passes.
unfoldable pub validate_upserts : Spark → List SilverRow → List (String × ℕ)
unfolding quality_checks failures duplicate_ids
validate_upserts k rs = with_duplicates (duplicate_ids [] rs) (failures (quality_checks k) rs)
