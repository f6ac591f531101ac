-- ===== src/Databricks/Pipeline.antt =====
-- The declarations of databricks/src/dlt_pipeline.py: the columns that each table's query selects, and
-- the expectations. Spark's column functions are a parameter, and so is the masking function's JSON;
-- `apply_changes` and the streaming tables are the engine's.
use payments_data_platform.Base.{
  ℕ, String, Bool, false, not, Option, none, some, List, [], ◌∷◌, is_some, leb, Result, ok, err,
  if◌then◌else◌,
}
use payments_data_platform.Base.Int.{is_negative}
use payments_data_platform.Medallion.Rules.{SilverRow, contains}
use payments_data_platform.Medallion.Validate.{Spark}
use payments_data_platform.Medallion.Bronze.{Python, mask_pii_fields}
use payments_data_platform.Medallion.Gold.{GroupKey, Measures, gold}

abbrev pub cdc_topic : String
cdc_topic = "cdc.public.payments"

abbrev pub allowed_payment_methods : List String
allowed_payment_methods = "apple_pay" ∷ "bank_transfer" ∷ "card" ∷ "google_pay" ∷ "paypal" ∷ []

abbrev pub allowed_payment_statuses : List String
allowed_payment_statuses =
    "authorized" ∷ "cancelled" ∷ "chargeback" ∷ "failed" ∷ "pending" ∷ "refunded" ∷ []

-- A null argument gives null.
abbrev pub on_value {ℓ κ} : {A : Type ℓ} {B : Type κ} → (A → B) → Option A → Option B
on_value f none = none
on_value f (some a) = some (f a)

abbrev pub cast {ℓ} : {A : Type ℓ} → (String → Option A) → Option String → Option A
cast f none = none
cast f (some s) = f s

abbrev pub coalesce : Option String → Option String → Option String
coalesce none b = b
coalesce (some a) b = some a

-- A row of bronze; its timestamp is the engine's clock.
pub record DltBronze : Type 0 where
  pub kafka_key : Option String
  pub kafka_value : Option String
  pub kafka_topic : String
  pub kafka_offset : Option ℕ
  pub kafka_timestamp : ℕ

-- A row of the change view. The table has no source_lsn and no ingested_at: they stay null and 0.
pub record DltChange : Type 0 where
  pub op : Option String
  pub row : SilverRow

module _ (k : Spark) where
  open k use {
    get_json_object, cast_long, cast_decimal, micros_to_timestamp, upper, lower, trim,
    regexp_replace, rlike,
  }

  abbrev pub json_path : String → Option String → Option String
  json_path path none = none
  json_path path (some v) = get_json_object v path

  abbrev pub masked_row : DltBronze → Result String (Option String) → Result String DltBronze
  masked_row r (ok v) = ok (record r { kafka_value = v })
  masked_row r (err e) = err e

  -- `payments_bronze`, of one line of the landing files.
  pub payments_bronze : Python → ℕ → String → Result String DltBronze
  payments_bronze python now line =
      let id = get_json_object line "$.after.payment_id" in
      masked_row
        (record {
          kafka_key = id;
          kafka_value = some line;
          kafka_topic = cdc_topic;
          kafka_offset = cast cast_long (coalesce id (get_json_object line "$.before.payment_id"));
          kafka_timestamp = now;
        })
        (mask_pii_fields python (some line))

  abbrev pub op_known : Option String → Bool
  op_known none = false
  op_known (some op) = contains ("c" ∷ "u" ∷ "r" ∷ "d" ∷ []) op

  -- `regexp_replace(lower(trim(...)), r"\s+", "_")`
  abbrev pub canonical : Option String → Option String
  canonical s = on_value (λ t. regexp_replace (lower (trim t)) "\\s+" "_") s

  -- The select of `payments_silver_changes`.
  unfoldable pub change_of : Option String → DltChange
  change_of v = record {
    op = json_path "$.op" v;
    row = record {
      payment_id =
          cast cast_long
            (coalesce (json_path "$.after.payment_id" v) (json_path "$.before.payment_id" v));
      merchant_id = cast cast_long (json_path "$.after.merchant_id" v);
      amount = cast cast_decimal (json_path "$.after.amount" v);
      currency = on_value (λ t. upper (trim t)) (json_path "$.after.currency" v);
      payment_method = canonical (json_path "$.after.payment_method" v);
      payment_status = canonical (json_path "$.after.payment_status" v);
      country_code = on_value (λ t. upper (trim t)) (json_path "$.after.country_code" v);
      created_at =
          cast micros_to_timestamp
            (coalesce (json_path "$.after.created_at" v) (json_path "$.before.created_at" v));
      updated_at =
          cast micros_to_timestamp
            (coalesce (json_path "$.after.updated_at" v) (json_path "$.before.updated_at" v));
      source_lsn = none;
      ingested_at = 0;
    };
  }

  unfoldable pub payments_silver_changes : List DltBronze → List DltChange
  unfolding change_of contains
  payments_silver_changes [] = []
  payments_silver_changes (b ∷ bs) =
      let rest = payments_silver_changes bs in
      if op_known (json_path "$.op" b.kafka_value) then change_of b.kafka_value ∷ rest else rest

  -- A condition of SQL: null where a column that it compares is.
  abbrev pub ordered : Option ℕ → Option ℕ → Option Bool
  ordered none b = none
  ordered (some a) none = none
  ordered (some a) (some b) = some (leb b a)

  -- `expect_all_or_drop`
  unfoldable pub expectations : List (String × (SilverRow → Option Bool))
  unfolding contains
  expectations =
      ("valid_payment_id", λ r. some (is_some r.payment_id))
      ∷ ("non_negative_amount", λ r. on_value (λ a. not (is_negative a)) r.amount)
      ∷ ("valid_currency", λ r. on_value (λ s. rlike s "^[A-Z]{3}$") r.currency)
      ∷ ("valid_country", λ r. on_value (λ s. rlike s "^[A-Z]{2}$") r.country_code)
      ∷ ("known_method", λ r. on_value (contains allowed_payment_methods) r.payment_method)
      ∷ ("known_status", λ r. on_value (contains allowed_payment_statuses) r.payment_status)
      ∷ ("ordered_timestamps", λ r. ordered r.updated_at r.created_at)
      ∷ []

-- `payment_metrics_gold`: the groups and aggregates are those of the Spark job.
unfoldable pub payment_metrics_gold : (ℕ → ℕ) → List SilverRow → List (GroupKey × Measures)
payment_metrics_gold date_trunc rows = gold date_trunc rows
