-- ===== src/Medallion/Silver/Quality.antt =====
-- What `_validate_upserts` of config/spark/jobs/silver_payments.py lets through.
pub mod Kept
use payments_data_platform.Base.{
  ℕ, zero, suc, ◌+◌, ◌≡◌, refl, ap, sym, ◌∙◌, String, str_eq, Bool, true, false, not, Option, none,
  some, List, [], ◌∷◌, ◌++◌, map, filter, count, All, All-append, ltb, ◌==◌, Result, ok, err,
  is_some, if◌then◌else◌, ◌&&◌, ◌||◌, arith, Bool-cases, Option-cases, inl, inr,
}
use payments_data_platform.Base.Int.{ℤ, is_negative}
use payments_data_platform.Medallion.Rules.{
  SilverRow, Change, contains, cdc_upsert_ops, cdc_ops, allowed_payment_methods,
  allowed_payment_statuses, silver_merge, merge_targets, inserts, when_matched, after_merge,
  is_matched, sql_eq, newer, cdc_delete_op, cons_some, find_source,
}
use payments_data_platform.Medallion.Silver.{
  BronzeRow, Lakehouse, accept, apply_changes, build_changes, upsert_to_silver,
}
use payments_data_platform.Medallion.Validate.{
  Spark, holds_of, earlier, quality_checks, failures, duplicate_ids, with_duplicates,
  validate_upserts,
}
use payments_data_platform.Medallion.Silver.Converge.{Batch, Outcome, unless_raised, run_batches}

-- A row that the table's readers can rely on: no null, an amount of zero or more, codes of the right
-- shape, a known method and status, and no update before the creation.
pub record IsClean (k : Spark) (r : SilverRow) : Type 0 where
  pub has_payment_id : is_some r.payment_id ≡ true
  pub has_merchant_id : is_some r.merchant_id ≡ true
  pub amount_fits : holds_of r.amount (λ a. not (is_negative a)) ≡ true
  pub currency_fits : holds_of r.currency (λ s. Spark.rlike k s "^[A-Z]{3}$") ≡ true
  pub method_fits : holds_of r.payment_method (contains allowed_payment_methods) ≡ true
  pub status_fits : holds_of r.payment_status (contains allowed_payment_statuses) ≡ true
  pub country_fits : holds_of r.country_code (λ s. Spark.rlike k s "^[A-Z]{2}$") ≡ true
  pub has_created_at : is_some r.created_at ≡ true
  pub has_updated_at : is_some r.updated_at ≡ true
  pub in_order : earlier r.updated_at r.created_at ≡ false
  pub has_source_lsn : is_some r.source_lsn ≡ true

-- No test of the list counts a row.
abbrev Passes : List (String × (SilverRow → Bool)) → SilverRow → Type 0
Passes [] r = Unit
Passes ((name, bad) ∷ checks) r = (bad r ≡ false) × Passes checks r

count-none :
    (bad : SilverRow → Bool) (rs : List SilverRow) → count bad rs ≡ 0 → All (λ r. bad r ≡ false) rs
count-none bad [] h = tt
count-none bad (r ∷ rs) h = (ground (arith, h), count-none bad rs (ground (arith, h)))

All-both :
    (checks : List (String × (SilverRow → Bool))) (bad : SilverRow → Bool) (name : String)
    (rs : List SilverRow)
    → All (λ r. bad r ≡ false) rs
    → All (Passes checks) rs
    → All (Passes ((name, bad) ∷ checks)) rs
All-both checks bad name [] h j = tt
All-both checks bad name (r ∷ rs) h j = ((h.0, j.0), All-both checks bad name rs h.1 j.1)

All-Unit : (rs : List SilverRow) → All (Passes []) rs
All-Unit [] = tt
All-Unit (r ∷ rs) = (tt, All-Unit rs)

cons-nil {ℓ} : {A : Type ℓ} → (x : A) (xs : List A) → x ∷ xs ≡ [] → ⊥
cons-nil x xs h = cc

without_duplicates : (n : ℕ) (fs : List (String × ℕ)) → with_duplicates n fs ≡ [] → fs ≡ []
without_duplicates zero fs h = h
without_duplicates (suc n) [] h = refl
without_duplicates (suc n) (f ∷ fs) h = cc

All-map {ℓ} :
    {A : Type ℓ} → (P Q : A → Type 0) → ((a : A) → P a → Q a) → (xs : List A) → All P xs → All Q xs
All-map P Q f [] h = tt
All-map P Q f (x ∷ xs) h = (f x h.0, All-map P Q f xs h.1)

failures-none :
    (checks : List (String × (SilverRow → Bool))) (rs : List SilverRow)
    → failures checks rs ≡ []
    → All (Passes checks) rs
unfolding failures
failures-none [] rs h = All-Unit rs
failures-none ((name, bad) ∷ checks) rs h = elim (Bool-cases (count bad rs == 0)) [
  | inl none_fail ↦
      let rest : failures checks rs ≡ [] = rw none_fail at h in
      All-both checks bad name rs (count-none bad rs (ground (arith, none_fail)))
        (failures-none checks rs rest)
  | inr some_fail ↦ absurd (cons-nil (name, count bad rs) (failures checks rs) (rw some_fail at h))
]

pub contradicts : (b : Bool) → b ≡ true → b ≡ false → ⊥
contradicts b h j = cc

present {ℓ} : {A : Type ℓ} → (o : Option A) → not (is_some o) ≡ false → is_some o ≡ true
present none h = cc
present (some a) h = refl

passed {ℓ} :
    {A : Type ℓ}
    → (o : Option A) (f : A → Bool) → not (is_some o) ≡ false
    → holds_of o (λ a. not (f a)) ≡ false
    → holds_of o f ≡ true
passed none f h j = cc
passed (some a) f h j = ground (arith, j)

refused {ℓ} :
    {A : Type ℓ}
    → (o : Option A) (f : A → Bool) → not (is_some o) ≡ false
    → holds_of o f ≡ false
    → holds_of o (λ a. not (f a)) ≡ true
refused none f h j = cc
refused (some a) f h j = ground (arith, j)

Passes-IsClean : (k : Spark) (r : SilverRow) → Passes (quality_checks k) r → IsClean k r
unfolding quality_checks
Passes-IsClean k r h = record {
  has_payment_id = present r.payment_id h.0;
  has_merchant_id = present r.merchant_id h.1.0;
  amount_fits = refused r.amount is_negative h.1.1.0 h.1.1.1.0;
  currency_fits = passed r.currency (λ s. Spark.rlike k s "^[A-Z]{3}$") h.1.1.1.1.0 h.1.1.1.1.1.0;
  method_fits =
      passed r.payment_method (contains allowed_payment_methods) h.1.1.1.1.1.1.0 h.1.1.1.1.1.1.1.0;
  status_fits =
      passed r.payment_status (contains allowed_payment_statuses) h.1.1.1.1.1.1.1.1.0
        h.1.1.1.1.1.1.1.1.1.0;
  country_fits =
      passed r.country_code (λ s. Spark.rlike k s "^[A-Z]{2}$") h.1.1.1.1.1.1.1.1.1.1.0
        h.1.1.1.1.1.1.1.1.1.1.1.0;
  has_created_at = present r.created_at h.1.1.1.1.1.1.1.1.1.1.1.1.0;
  has_updated_at = present r.updated_at h.1.1.1.1.1.1.1.1.1.1.1.1.1.0;
  in_order = h.1.1.1.1.1.1.1.1.1.1.1.1.1.1.0;
  has_source_lsn = present r.source_lsn h.1.1.1.1.1.1.1.1.1.1.1.1.1.1.1.0;
}

-- If the validation reports no failure, then each of its rows is clean.
pub validate_upserts-IsClean :
    (k : Spark) (rs : List SilverRow) → validate_upserts k rs ≡ [] → All (IsClean k) rs
unfolding validate_upserts
validate_upserts-IsClean k rs h =
    All-map (Passes (quality_checks k)) (IsClean k) (Passes-IsClean k) rs (
      failures-none (quality_checks k) rs
        (without_duplicates (duplicate_ids [] rs) (failures (quality_checks k) rs) h))
