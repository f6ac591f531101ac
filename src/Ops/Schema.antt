-- ===== src/Ops/Schema.antt =====
-- The schema contract of scripts/validate_schema.py. The columns that Postgres reports are a parameter.
pub mod Tracked
use payments_data_platform.Base.{String, Bool, not, List, [], ◌∷◌, ◌++◌, filter}
use payments_data_platform.Base.Order.{text_lt}
use payments_data_platform.Base.Sort.{sorted}
use payments_data_platform.Medallion.Rules.{contains}

pub record Contract : Type 0 where
  pub table : String
  pub silver_source_columns : List String
  pub excluded_columns : List String

abbrev pub tracked_tables : List Contract
tracked_tables =
    record {
      table = "payments";
      silver_source_columns =
          "payment_id" ∷ "merchant_id" ∷ "amount" ∷ "currency" ∷ "payment_method" ∷ "payment_status"
          ∷ "country_code" ∷ "created_at" ∷ "updated_at" ∷ [];
      excluded_columns = "shopper_id" ∷ [];
    }
    ∷ record {
      table = "merchants";
      silver_source_columns = [];
      excluded_columns =
          "merchant_id" ∷ "merchant_name" ∷ "country_code" ∷ "category" ∷ "created_at" ∷ [];
    }
    ∷ record {
      table = "refunds";
      silver_source_columns = [];
      excluded_columns =
          "refund_id" ∷ "payment_id" ∷ "refund_amount" ∷ "refund_reason" ∷ "created_at" ∷ [];
    }
    ∷ []

unfoldable pub check_columns : List String → List String → List String → List String
unfolding contains sorted text_lt
check_columns postgres_columns silver_source_columns excluded_columns =
    let known = silver_source_columns ++ excluded_columns in
    sorted text_lt (filter (λ c. not (contains known c)) postgres_columns)

abbrev pub drift : String → List String → List (String × List String) → List (String × List String)
drift table [] rest = rest
drift table (c ∷ cs) rest = (table, c ∷ cs) ∷ rest

-- The `failures` that `main` collects; the SystemExit holds them, and none of them is success.
unfoldable pub drifted : (String → List String) → List Contract → List (String × List String)
unfolding check_columns
drifted fetch_postgres_columns [] = []
drifted fetch_postgres_columns (c ∷ cs) =
    drift c.table
      (check_columns (fetch_postgres_columns c.table) c.silver_source_columns c.excluded_columns)
      (drifted fetch_postgres_columns cs)

unfoldable pub validate_schema : (String → List String) → List (String × List String)
unfolding drifted
validate_schema fetch_postgres_columns = drifted fetch_postgres_columns tracked_tables
