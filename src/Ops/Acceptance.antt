-- ===== src/Ops/Acceptance.antt =====
-- The data-quality assertions of scripts/acceptance_checks.py: the statements, and what an engine
-- counts for each. Trino's `regexp_like` is a parameter; `avg` is taken as exact.
pub mod Main
pub mod Failing
pub mod Passes
pub mod Exact
use payments_data_platform.Base.{
  ℕ, zero, suc, ◌+◌, String, Bool, true, false, not, Option, none, some, List, [], ◌∷◌, any, count,
  length, ltb, leb, ◌==◌, ◌&&◌, ◌||◌, is_some, Result, ok, err, if◌then◌else◌, map,
}
use payments_data_platform.Medallion.Rules.{SilverRow, contains}
use payments_data_platform.Medallion.Validate.{holds_of}
use payments_data_platform.Medallion.Gold.{GroupKey, Measures, same_hour}
use payments_data_platform.Ops.Text.{join}

abbrev pub bronze : String
bronze = "iceberg.analytics.payments_bronze"

abbrev pub silver : String
silver = "iceberg.analytics.payments_silver"

abbrev pub gold : String
gold = "iceberg.analytics.payment_metrics_gold"

abbrev pub allowed_methods : List String
allowed_methods = "apple_pay" ∷ "bank_transfer" ∷ "card" ∷ "google_pay" ∷ "paypal" ∷ []

abbrev pub allowed_statuses : List String
allowed_statuses =
    "authorized" ∷ "cancelled" ∷ "chargeback" ∷ "failed" ∷ "pending" ∷ "refunded" ∷ []

-- The cells of a counting statement are numbers.
abbrev pub scalar : List (List ℕ) → ℕ
scalar [] = 0
scalar ([] ∷ rows) = 0
scalar ((n ∷ cells) ∷ rows) = n

unfoldable pub quoted : List String → String
unfolding join
quoted values = join ", " (map (λ value. join "" ("'" ∷ value ∷ "'" ∷ [])) values)

pub record Tables : Type 0 where
  pub bronze_values : List (Option String)
  pub silver_rows : List SilverRow
  pub gold_rows : List (GroupKey × Measures)

-- `GROUP BY payment_id HAVING count(*) > 1`: the ids that stand in more rows than one, null with null.
unfoldable pub repeated_ids : List (Option ℕ) → List SilverRow → ℕ
repeated_ids seen [] = 0
repeated_ids seen (r ∷ rs) =
    (if not (any (same_hour r.payment_id) seen) && any (λ s. same_hour r.payment_id s.payment_id) rs
      then 1
      else 0)
    + repeated_ids (r.payment_id ∷ seen) rs

abbrev pub null_dimension : GroupKey × Measures → Bool
null_dimension (k, m) =
    not (is_some k.country_code) || not (is_some k.payment_method) || not (is_some k.payment_hour)

abbrev pub nonpositive_count : GroupKey × Measures → Bool
nonpositive_count (k, m) = m.payment_count == 0

-- `auth_rate < 0 OR auth_rate > 1`, the rate being the authorized over the counted.
abbrev pub rate_out_of_range : GroupKey × Measures → Bool
rate_out_of_range (k, m) = ltb m.payment_count m.authorized_count

-- A statement with its name and message, and the count that an engine gives for it.
pub record Check : Type 0 where
  pub name : String
  pub sql : String
  pub message : String
  pub counts : Tables → ℕ

module _ (regexp_like : String → String → Bool) where
  unfoldable pub checks : List Check
  unfolding quoted contains repeated_ids join
  checks =
      (record {
        name = "has_bronze_rows";
        sql = join "" ("SELECT count(*) FROM " ∷ bronze ∷ []);
        message = "bronze is empty -- CDC delivered nothing";
        counts = λ t. length t.bronze_values;
      })
      ∷ (record {
        name = "has_silver_rows";
        sql = join "" ("SELECT count(*) FROM " ∷ silver ∷ []);
        message = "silver is empty -- the bronze -> silver transform produced no rows";
        counts = λ t. length t.silver_rows;
      })
      ∷ (record {
        name = "has_gold_rows";
        sql = join "" ("SELECT count(*) FROM " ∷ gold ∷ []);
        message = "gold is empty -- the silver -> gold aggregation produced no rows";
        counts = λ t. length t.gold_rows;
      })
      ∷ (record {
        name = "no_null_gold_dimensions";
        sql = join "" (
            "SELECT count(*) FROM " ∷ gold
            ∷ " WHERE country_code IS NULL OR payment_method IS NULL OR payment_hour IS NULL" ∷ []);
        message = "gold rows exist with null grouping dimensions";
        counts = λ t. count null_dimension t.gold_rows;
      })
      ∷ (record {
        name = "no_nonpositive_gold_counts";
        sql = join "" ("SELECT count(*) FROM " ∷ gold ∷ " WHERE payment_count <= 0" ∷ []);
        message = "gold rows exist with a non-positive payment_count";
        counts = λ t. count nonpositive_count t.gold_rows;
      })
      ∷ (record {
        name = "no_out_of_range_auth_rate";
        sql =
            join "" ("SELECT count(*) FROM " ∷ gold ∷ " WHERE auth_rate < 0 OR auth_rate > 1" ∷ []);
        message = "auth_rate is a mean of a 0/1 indicator and cannot fall outside [0, 1]";
        counts = λ t. count rate_out_of_range t.gold_rows;
      })
      ∷ (record {
        name = "no_unknown_payment_methods";
        sql = join "" (
            "SELECT count(*) FROM "
            ∷ silver
            ∷ " WHERE payment_method NOT IN ("
            ∷ quoted allowed_methods
            ∷ ")"
            ∷ []);
        message = "silver contains a payment_method outside the canonical set";
        counts = λ t.
            count
              (λ r. holds_of (SilverRow.payment_method r) (λ s. not (contains allowed_methods s)))
              t.silver_rows;
      })
      ∷ (record {
        name = "no_unknown_payment_statuses";
        sql = join "" (
            "SELECT count(*) FROM "
            ∷ silver
            ∷ " WHERE payment_status NOT IN ("
            ∷ quoted allowed_statuses
            ∷ ")"
            ∷ []);
        message = "silver contains a payment_status outside the canonical set";
        counts = λ t.
            count
              (λ r. holds_of (SilverRow.payment_status r) (λ s. not (contains allowed_statuses s)))
              t.silver_rows;
      })
      ∷ (record {
        name = "no_null_silver_keys";
        sql = join "" (
            "SELECT count(*) FROM " ∷ silver ∷ " WHERE payment_id IS NULL OR merchant_id IS NULL"
            ∷ []);
        message = "silver rows exist with null keys";
        counts = λ t.
            count
              (λ r.
                not (is_some (SilverRow.payment_id r)) || not (is_some (SilverRow.merchant_id r)))
              t.silver_rows;
      })
      ∷ (record {
        name = "no_duplicate_silver_payment_ids";
        sql = join "" (
            "SELECT count(*) FROM (SELECT payment_id FROM " ∷ silver
            ∷ " GROUP BY payment_id HAVING count(*) > 1)" ∷ []);
        message = "silver holds duplicate payment_id rows -- the SCD-1 upsert regressed";
        counts = λ t. repeated_ids [] t.silver_rows;
      })
      ∷ (record {
        name = "no_unhashed_pii_in_bronze";
        sql = join "" (
            "SELECT count(*) FROM " ∷ bronze
            ∷ " WHERE regexp_like(kafka_value, '\"shopper_id\"\\s*:\\s*[0-9]')" ∷ []);
        message = "unhashed shopper_id found in bronze -- PII masking regressed";
        counts = λ t.
            count (λ v. holds_of v (λ s. regexp_like s "\"shopper_id\"\\s*:\\s*[0-9]"))
              t.bronze_values;
      })
      ∷ []
