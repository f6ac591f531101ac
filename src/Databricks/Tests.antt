-- ===== src/Databricks/Tests.antt =====
-- The theorems on the Databricks seed at concrete inputs.
use payments_data_platform.Base.{
  ℕ, ◌≡◌, refl, String, Option, none, some, List, [], ◌∷◌, str_eq, if◌then◌else◌,
}
use payments_data_platform.Base.Int.{pos}
use payments_data_platform.Medallion.Validate.{Spark}
use payments_data_platform.Databricks.Seed.{
  Payment, payment, generate_seed_payments, to_debezium_envelope,
}
use payments_data_platform.Databricks.Pipeline.{DltChange, change_of}
use payments_data_platform.Databricks.Seed.Sound.{capitals}
use payments_data_platform.Databricks.Seed.Expected.{Reads, TextLaws, Meets, seed-Meets}

-- Column functions that read one line: the second payment's, ten days after the epoch.
abbrev second_fields : List (String × String)
second_fields =
    ("$.op", "r")
    ∷ ("$.after.payment_id", "1002")
    ∷ ("$.after.amount", "499.50")
    ∷ ("$.after.currency", "USD")
    ∷ ("$.after.payment_method", "paypal")
    ∷ ("$.after.payment_status", "failed")
    ∷ ("$.after.country_code", "US")
    ∷ ("$.after.created_at", "777600000000")
    ∷ ("$.after.updated_at", "777600000000")
    ∷ []

abbrev field_of : List (String × String) → String → Option String
field_of [] path = none
field_of ((p, v) ∷ fs) path = if str_eq p path then some v else field_of fs path

abbrev one_line : Spark
one_line = record {
  get_json_object = λ v path. field_of second_fields path;
  cast_long = λ s. some 1002;
  cast_decimal = λ s. some (pos 49950);
  micros_to_timestamp = λ s. some 777600;
  upper = λ s. s;
  lower = λ s. s;
  trim = λ s. s;
  regexp_replace = λ s p r. s;
  rlike = λ s p. if str_eq p "^[A-Z]{3}$" then capitals 3 s else capitals 2 s;
}

one_line-TextLaws : TextLaws one_line
one_line-TextLaws = record {
  upper_trim = λ n s h. refl;
  canonical_snake = λ s h. refl;
  three = λ s h. h;
  two = λ s h. h;
}

abbrev now : ℕ
now = 864000000000

abbrev second : Payment
second = payment 1002 2 502 49950 "USD" "paypal" "failed" "US" 777600000000 777600000000

abbrev exact : ℕ → ℕ
exact t = t

second-Reads : Reads one_line "line" (to_debezium_envelope exact second)
unfolding to_debezium_envelope
second-Reads = record {
  op = refl;
  id_text = "1002";
  id = refl;
  id_cast = refl;
  amount_text = "499.50";
  amount = refl;
  amount_cast = refl;
  currency = refl;
  method = refl;
  status = refl;
  country = refl;
  created_text = "777600000000";
  created = refl;
  created_cast = refl;
  updated_text = "777600000000";
  updated = refl;
  updated_cast = refl;
}

seed-Meets_example :
    (DltChange.op (change_of one_line (some "line")) ≡ some "r")
    × Meets one_line exact one_line-TextLaws (DltChange.row (change_of one_line (some "line")))
unfolding generate_seed_payments
seed-Meets_example =
    seed-Meets one_line exact one_line-TextLaws now 1 second "line" (λ a b h. h) refl second-Reads
