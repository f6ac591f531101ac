-- ===== src/Databricks/Seed.antt =====
-- The seed of databricks/src/common.py and the file that databricks/src/seed_to_volume.py writes. A
-- time is a count of microseconds from the epoch, and `now` is at least a week after it; amounts are
-- in hundredths. Conversion to floating point and `json.dumps` are parameters.
pub mod Sound
pub mod Expected
use payments_data_platform.Base.{
  ℕ, zero, suc, ◌+◌, ◌-◌, ◌*◌, ◌/◌, ◌%◌, String, List, [], ◌∷◌, ◌++◌, map,
}
use payments_data_platform.Ops.Text.{join}

pub record Payment : Type 0 where
  pub payment_id : ℕ
  pub merchant_id : ℕ
  pub shopper_id : ℕ
  pub amount : ℕ
  pub currency : String
  pub payment_method : String
  pub payment_status : String
  pub country_code : String
  pub created_at : ℕ
  pub updated_at : ℕ

-- `_payment`
abbrev pub payment : ℕ → ℕ → ℕ → ℕ → String → String → String → String → ℕ → ℕ → Payment
payment id merchant shopper amount currency method status country created updated = record {
  payment_id = id;
  merchant_id = merchant;
  shopper_id = shopper;
  amount = amount;
  currency = currency;
  payment_method = method;
  payment_status = status;
  country_code = country;
  created_at = created;
  updated_at = updated;
}

abbrev pub minutes : ℕ → ℕ
minutes n = n * 60000000

abbrev pub hours : ℕ → ℕ
hours n = n * 3600000000

abbrev pub days : ℕ → ℕ
days n = n * 86400000000

-- `.replace(minute=0, second=0, microsecond=0)`
unfoldable pub whole_hour : ℕ → ℕ
whole_hour t = t / 3600000000 * 3600000000

-- `values[i]` of an index in range.
unfoldable pub at : List String → ℕ → String
at [] i = ""
at (s ∷ ss) zero = s
at (s ∷ ss) (suc i) = at ss i

abbrev pub currencies : List String
currencies = "EUR" ∷ "USD" ∷ "GBP" ∷ "CAD" ∷ []

abbrev pub methods : List String
methods = "card" ∷ "paypal" ∷ "apple_pay" ∷ "bank_transfer" ∷ "google_pay" ∷ []

abbrev pub statuses : List String
statuses =
    "authorized" ∷ "failed" ∷ "authorized" ∷ "pending" ∷ "refunded" ∷ "authorized" ∷ "chargeback"
    ∷ "cancelled" ∷ []

abbrev pub countries : List String
countries = "NL" ∷ "US" ∷ "DE" ∷ "BE" ∷ "FR" ∷ "GB" ∷ "CA" ∷ "ES" ∷ []

abbrev pub explicit : ℕ → List Payment
explicit now =
    payment 1001 1 501 14999 "EUR" "card" "authorized" "NL" (now - days 2) (now - days 2)
    ∷ payment 1002 2 502 49950 "USD" "paypal" "failed" "US" (now - days 1) (now - days 1)
    ∷ payment 1003 1 503 8900 "EUR" "card" "authorized" "BE" (now - hours 12) (now - hours 12)
    ∷ payment 1004 3 504 4425 "EUR" "card" "refunded" "DE" (now - hours 6) (now - hours 2)
    ∷ []

-- The body of the loop.
unfoldable pub generated : ℕ → ℕ → Payment
unfolding whole_hour at
generated now gs =
    let id : ℕ = 2000 + gs in
    let amount : ℕ = 2500 + gs * 17 % 475 * 100 + gs * 13 % 100 in
    let created : ℕ = whole_hour (now - hours ((gs - 1) % 168)) - minutes ((gs - 1) % 4 * 15) in
    let updated : ℕ = created + hours (id % 6 + 1) in
    payment id ((gs - 1) % 10 + 1) (700 + gs) amount (at currencies ((gs - 1) % 4))
      (at methods ((gs - 1) % 5)) (at statuses ((gs - 1) % 8)) (at countries ((gs - 1) % 8)) created
      updated

-- `range(first, first + n)`
unfoldable pub range : ℕ → ℕ → List ℕ
range first zero = []
range first (suc n) = first ∷ range (suc first) n

unfoldable pub generate_seed_payments : ℕ → List Payment
unfolding generated range
generate_seed_payments now = explicit now ++ map (generated now) (range 1 120)

abbrev pub expected_seed_count : ℕ
expected_seed_count = 124

-- A snapshot envelope: "op" is "r" and "before" is null.
pub record Envelope : Type 0 where
  pub op : String
  pub after : Payment

module _ (micros : ℕ → ℕ) where
  unfoldable pub to_debezium_envelope : Payment → Envelope
  to_debezium_envelope p = record {
    op = "r";
    after = record p { created_at = micros p.created_at; updated_at = micros p.updated_at };
  }

  module _ (dumps : Envelope → String) where
    unfoldable pub seed_jsonl : ℕ → String
    unfolding to_debezium_envelope generate_seed_payments join
    seed_jsonl now = join "" (
        join "\n" (map (λ p. dumps (to_debezium_envelope p)) (generate_seed_payments now))
        ∷ "\n"
        ∷ [])

    -- What the loop of seed_to_volume.py has written to the file, line after line.
    unfoldable pub written : List Payment → List String
    unfolding to_debezium_envelope join
    written [] = []
    written (p ∷ ps) = join "" (dumps (to_debezium_envelope p) ∷ "\n" ∷ []) ∷ written ps
